-- ===== src/Containers.antt =====
-- src/e2e/e2e-containers.ts, e2e-context.ts, e2e.constant.ts and e2e-containers-options.interface.ts:
-- the database and the Redis of a suite of end-to-end tests.
--
-- What the containers, the driver and the migrations do is an argument; a value that is `none` or
-- `false` is a rejection. What a setup leaves behind is a record.
pub mod Setup
mod Tests
use Prim.Native.String.{String}
use iveri_nest_sdk.Common.{
  Bool, true, false, not, ◌&&◌, Option, none, some, List, [], ◌∷◌, ◌⊎◌, inl, inr, if◌then◌else◌,
}
use iveri_nest_sdk.Common.Text.{Text, codes}
use iveri_nest_sdk.Http.{truthy}

abbrev e2e_postgres_image : Text
e2e_postgres_image = codes "postgres:17-alpine"

abbrev e2e_postgis_image : Text
e2e_postgis_image = codes "postgis/postgis:17-3.5"

abbrev e2e_redis_image : Text
e2e_redis_image = codes "redis:7-alpine"

abbrev e2e_migrations_table : Text
e2e_migrations_table = codes "migrations"

abbrev e2e_preserved_tables : List Text
e2e_preserved_tables = e2e_migrations_table ∷ codes "spatial_ref_sys" ∷ []

abbrev e2e_postgres_command : List Text
e2e_postgres_command =
    codes "postgres"
    ∷ codes "-c"
    ∷ codes "fsync=off"
    ∷ codes "-c"
    ∷ codes "synchronous_commit=off"
    ∷ codes "-c"
    ∷ codes "full_page_writes=off"
    ∷ []

-- The migrations themselves are the world's.
pub record E2eContainersOptions : Type 0 where
  pub database : Text
  pub postgres_image : Option Text
  pub redis : Option Bool

-- What each call does, in the order in which the code makes them. A container starts from an image,
-- with a command and a database, and has a URL then.
pub record World : Type 0 where
  pub start_postgres : (image : Text) (command : List Text) (database : Text) → Option Text
  pub initialize : (url migrations_table : Text) → Bool
  pub run_migrations : Bool
  pub destroy : Bool
  pub start_redis : (image : Text) → Option Text

pub record Left : Type 0 where
  pub is_postgres_running : Bool
  pub is_redis_running : Bool
  pub is_connected : Bool
  pub is_migrated : Bool
  pub database_url : Option Text
  pub redis_url : Option Text

abbrev pub nothing : Left
nothing = record {
  is_postgres_running = false;
  is_redis_running = false;
  is_connected = false;
  is_migrated = false;
  database_url = none;
  redis_url = none;
}

abbrev pub wants_redis : E2eContainersOptions → Bool
wants_redis options = elim options.redis [ none ↦ false | some b ↦ b ]

-- What a setup leaves behind, and whether it returned its teardown.
unfoldable pub provide_urls : Text → Option Text → Left → Left × Bool
provide_urls url redis_url left =
    (record left { database_url = some url; redis_url = redis_url }, true)

abbrev pub with_redis : Text → Option Text → Left → Left × Bool
with_redis url none left = (left, false)
with_redis url (some redis_url) left =
    provide_urls url (some redis_url) (record left { is_redis_running = true })

unfoldable pub start_redis : World → E2eContainersOptions → Text → Left → Left × Bool
unfolding provide_urls
start_redis w options url left =
    if wants_redis options
    then with_redis url (w.start_redis e2e_redis_image) left
    else provide_urls url none left

-- `try { runMigrations } finally { destroy }`, by whether each succeeds.
abbrev pub migrated :
    World → E2eContainersOptions → Text → (ran destroyed : Bool) → Left → Left × Bool
migrated w options url ran destroyed left =
    let closed : Left = record left { is_migrated = ran; is_connected = not destroyed } in
    if ran && destroyed then start_redis w options url closed else (closed, false)

unfoldable pub migrate : World → E2eContainersOptions → Text → Left → Left × Bool
unfolding start_redis
migrate w options url left = migrated w options url w.run_migrations w.destroy left

abbrev pub with_postgres : World → E2eContainersOptions → Option Text → Left × Bool
with_postgres w options none = (nothing, false)
with_postgres w options (some url) =
    if w.initialize url e2e_migrations_table
    then migrate w options url (record nothing { is_postgres_running = true; is_connected = true })
    else (record nothing { is_postgres_running = true }, false)

unfoldable pub e2e_global_setup : World → E2eContainersOptions → Left × Bool
unfolding migrate
e2e_global_setup w options =
    let image : Text = elim options.postgres_image [
      | none ↦ e2e_postgres_image
      | some image ↦ image
    ] in
    with_postgres w options (w.start_postgres image e2e_postgres_command options.database)

-- The teardown stops both at once, by whether each stop succeeds.
unfoldable pub teardown : (stop_postgres stop_redis : Bool) → Left → Left
teardown stop_postgres stop_redis left = record left {
  is_postgres_running = left.is_postgres_running && not stop_postgres;
  is_redis_running = left.is_redis_running && not stop_redis;
}

-- What a worker reads, or the message of what it throws.
unfoldable pub e2e_database_url : Option Text → String ⊎ Text
e2e_database_url injected = elim (truthy injected) [
  | none ↦
      inl "No e2e database URL was provided — is e2eGlobalSetup() the globalSetup of this project?"
  | some url ↦ inr url
]

unfoldable pub e2e_redis_url : Option Text → String ⊎ Text
e2e_redis_url injected = elim (truthy injected) [
  | none ↦ inl "No e2e Redis URL was provided — pass { redis: true } to e2eGlobalSetup()."
  | some url ↦ inr url
]
