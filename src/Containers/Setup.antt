-- ===== src/Containers/Setup.antt =====
-- What a setup leaves behind when it completes and when it does not.
use iveri_nest_sdk.Common.{ℕ, ◌≡◌, refl, arith, Bool, true, false, ◌&&◌, none, some, ◌∷◌, inl, inr}
use iveri_nest_sdk.Common.Text.{Text}
use iveri_nest_sdk.Containers.{
  E2eContainersOptions, World, Left, wants_redis, with_redis, migrate, e2e_global_setup, teardown,
  e2e_database_url, e2e_redis_url, e2e_migrations_table, e2e_postgres_image, e2e_postgres_command,
}

-- What the workers of a suite can rely on.
pub record IsReady (options : E2eContainersOptions) (left : Left) : Type 0 where
  pub url : Text
  pub provided : left.database_url ≡ some url
  pub is_running : left.is_postgres_running ≡ true
  pub is_migrated : left.is_migrated ≡ true
  pub is_closed : left.is_connected ≡ false
  pub has_redis : left.is_redis_running ≡ wants_redis options
  pub with_redis : wants_redis options ≡ true → (u : Text) × (left.redis_url ≡ some u)
  pub no_redis : wants_redis options ≡ false → left.redis_url ≡ none

-- What is left where a setup threw.
pub record IsAbandoned (w : World) (left : Left) : Type 0 where
  pub no_url : left.database_url ≡ none
  pub no_redis : left.is_redis_running ≡ false
  pub is_closed : w.destroy ≡ true → left.is_connected ≡ false

abbrev pub Outcome : World → E2eContainersOptions → Left × Bool → Type 0
Outcome w options (left, true) = IsReady options left
Outcome w options (left, false) = IsAbandoned w left

-- Where the database starts and any later call is rejected, the setup throws with the database left
-- running, and no teardown is returned that would stop it.
setup_leaks_database :
    (w : World) (options : E2eContainersOptions) (url : Text)
    → w.start_postgres
        (elim options.postgres_image [ none ↦ e2e_postgres_image | some image ↦ image ])
        e2e_postgres_command
        options.database
      ≡ some url
    → (w.initialize url e2e_migrations_table && w.run_migrations && w.destroy) ≡ false
    → ((e2e_global_setup w options).0.is_postgres_running ≡ true)
      × ((e2e_global_setup w options).1 ≡ false)
unfolding e2e_global_setup migrate
setup_leaks_database w options url starts fails = rw starts (ground (arith, fails))

-- A teardown whose stops succeed leaves nothing running.
teardown-stops :
    (left : Left)
    → ((teardown true true left).is_postgres_running ≡ false)
      × ((teardown true true left).is_redis_running ≡ false)
unfolding teardown
teardown-stops left = (ground arith, ground arith)

-- What a worker reads after a setup that completed: the database's URL unless it is empty, and, where
-- no Redis was asked for, no Redis URL but an error.
e2e_database_url-read :
    (options : E2eContainersOptions) (left : Left) (c : ℕ) (url : Text)
    → IsReady options left
    → left.database_url ≡ some (c ∷ url)
    → (e2e_database_url left.database_url ≡ inr (c ∷ url))
      × (wants_redis options ≡ false
          → e2e_redis_url left.redis_url
            ≡ inl "No e2e Redis URL was provided — pass { redis: true } to e2eGlobalSetup().")
unfolding e2e_database_url e2e_redis_url
e2e_database_url-read options left c url ready e = (rw e refl, λ n. rw (ready.no_redis n) refl)
