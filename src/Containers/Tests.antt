-- ===== src/Containers/Tests.antt =====
-- A suite that asks for a Redis, and one whose migrations fail.
use iveri_nest_sdk.Common.{◌≡◌, refl, true, false, none, some, inr}
use iveri_nest_sdk.Common.Text.{codes}
use iveri_nest_sdk.Containers.{
  E2eContainersOptions, World, e2e_global_setup, migrate, start_redis, provide_urls,
  e2e_database_url,
}

abbrev options : E2eContainersOptions
options = record { database = codes "taxi_test"; postgres_image = none; redis = some true }

abbrev well : World
well = record {
  start_postgres = λ image command database. some (codes "postgres://");
  initialize = λ url table. true;
  run_migrations = true;
  destroy = true;
  start_redis = λ image. some (codes "redis://");
}

abbrev drifted : World
drifted = record well { run_migrations = false }

completes : e2e_global_setup well options ≡ (
  record {
    is_postgres_running = true;
    is_redis_running = true;
    is_connected = false;
    is_migrated = true;
    database_url = some (codes "postgres://");
    redis_url = some (codes "redis://");
  },
  true,
)
unfolding e2e_global_setup migrate start_redis provide_urls
completes = refl

reads : e2e_database_url (some (codes "postgres://")) ≡ inr (codes "postgres://")
unfolding e2e_database_url
reads = refl
