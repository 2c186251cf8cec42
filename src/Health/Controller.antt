-- ===== src/Health/Controller.antt =====
-- src/health/health.controller.ts. What a registered check does when it is run is an argument.
use iveri_nest_sdk.Common.{
  ℕ, ◌+◌, ◌-◌, ◌==◌, Bool, true, false, not, all, Option, none, some, List, map, ◌⊎◌, inl, inr,
  if◌then◌else◌,
}
use iveri_nest_sdk.Common.Text.{Text, codes}

-- One run of a check: `none` if `check()` resolves, the message of what it throws otherwise, which
-- is `none` inside where that is no `Error`.
pub record CheckRun : Type 0 where
  pub name : Text
  pub failure : Option (Option Text)

pub record HealthCheckResult : Type 0 where
  pub name : Text
  pub is_up : Bool
  pub error : Option Text

-- A probe's response: its status is `ready` or `started` if positive, and the negative one is the
-- body of a `ServiceUnavailableException`.
pub record ProbeResponse : Type 0 where
  pub is_positive : Bool
  pub checks : List HealthCheckResult

pub record HealthController : Type 0 where
  pub started : Bool
  pub startup_results : List HealthCheckResult

abbrev message_or : Option Text → Text
message_or none = codes "unknown failure"
message_or (some s) = s

abbrev pub result_of : Text → Option (Option Text) → HealthCheckResult
result_of name none = record { name = name; is_up = true; error = none }
result_of name (some message) = record {
  name = name;
  is_up = false;
  error = some (message_or message);
}

unfoldable pub run_one : CheckRun → HealthCheckResult
run_one check = result_of check.name check.failure

unfoldable pub run : List CheckRun → List HealthCheckResult
unfolding run_one
run checks = map run_one checks

unfoldable pub all_up : List HealthCheckResult → Bool
all_up results = all (λ r. r.is_up) results

-- `ready`: what it throws, or what it returns.
unfoldable pub ready : List CheckRun → ProbeResponse ⊎ ProbeResponse
unfolding run all_up
ready runs =
    let checks = run runs in
    if not (all_up checks)
    then inl (record { is_positive = false; checks = checks })
    else inr (record { is_positive = true; checks = checks })

-- The end of a startup probe whose checks have run.
unfoldable pub conclude :
    List CheckRun → HealthController → (ProbeResponse ⊎ ProbeResponse) × HealthController
unfolding run all_up
conclude runs health =
    let checks = run runs in
    if not (all_up checks)
    then (inl (record { is_positive = false; checks = checks }), health)
    else (
      inr (record { is_positive = true; checks = checks }),
      record { started = true; startup_results = checks },
    )

unfoldable pub startup :
    List CheckRun → HealthController → (ProbeResponse ⊎ ProbeResponse) × HealthController
unfolding conclude
startup runs health =
    if health.started
    then (inr (record { is_positive = true; checks = health.startup_results }), health)
    else conclude runs health

-- Startup probes that run at once: one arrives, or the checks of one that is under way have run.
pub data ProbeEvent : Type 0 where
  arrives : ProbeEvent
  concludes : List CheckRun → ProbeEvent

pub record StartupProbes : Type 0 where
  pub health : HealthController
  pub under_way : ℕ

-- The probes after an event, and what it answers, if anything.
unfoldable pub handle :
    ProbeEvent → StartupProbes → StartupProbes × Option (ProbeResponse ⊎ ProbeResponse)
unfolding conclude
handle arrives s =
    if s.health.started
    then (s, some (inr (record { is_positive = true; checks = s.health.startup_results })))
    else (record s { under_way = s.under_way + 1 }, none)
handle (concludes runs) s = if s.under_way == 0 then (s, none) else (
  record { health = (conclude runs s.health).1; under_way = s.under_way - 1 },
  some (conclude runs s.health).0,
)
