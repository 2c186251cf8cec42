-- ===== src/Redis/Tests.antt =====
-- Runs of the client on small inputs, and the theorem at concrete inputs.
use iveri_nest_sdk.Common.{ℕ, ◌+◌, ◌≡◌, refl, none, some, List, [], ◌∷◌, length, true}
use iveri_nest_sdk.Common.Text.{Text, codes}
use iveri_nest_sdk.Redis.{
  RedisService, RedisOptions, construct, get_client, is_configured, on_application_shutdown, quit,
  disconnect,
}
use iveri_nest_sdk.Redis.Throttle.{log_all, accounted, IsSpaced, log_all-accounted}

abbrev connect : Text → RedisOptions → Text
connect url options = url

abbrev service : RedisService Text
service =
    construct connect (record { url = some (codes "redis://cache"); command_timeout_ms = none })

configured_test : is_configured service ≡ true
unfolding is_configured construct
configured_test = refl

empty_url_test :
    get_client (construct connect (record { url = some []; command_timeout_ms = none })) ≡ none
unfolding get_client construct
empty_url_test = refl

shutdown_test : on_application_shutdown true service ≡ quit ∷ disconnect ∷ []
unfolding on_application_shutdown construct
shutdown_test = refl

-- Four errors, of which the first and the last are written.
abbrev outage : List (ℕ × Text)
outage =
    (90000, codes "down")
    ∷ (90200, codes "down")
    ∷ (91000, codes "down")
    ∷ (150000, codes "down")
    ∷ []

abbrev idle : RedisService Text
idle = record { client = none; last_error_logged_at = 0; suppressed_error_count = 0 }

outage_test : length (log_all outage idle).1 ≡ 2
unfolding log_all
outage_test = refl

log_all-accounted_example :
    (accounted (log_all outage idle).1 + (log_all outage idle).0.suppressed_error_count
      ≡ length outage + idle.suppressed_error_count)
    × IsSpaced idle.last_error_logged_at (log_all outage idle).1
log_all-accounted_example = log_all-accounted outage idle
