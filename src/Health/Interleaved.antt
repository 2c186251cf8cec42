-- ===== src/Health/Interleaved.antt =====
-- Startup probes that overlap: what holds once one of them has passed.
use iveri_nest_sdk.Common.{◌≡◌, ◌⊎◌, inr, true, Option, some, List, [], ◌∷◌}
use iveri_nest_sdk.Health.Controller.{
  ProbeResponse, HealthController, all_up, ProbeEvent, arrives, concludes, StartupProbes, handle,
}

abbrev pub Answer : Type 0
Answer = Option (ProbeResponse ⊎ ProbeResponse)

-- The events in their order, each with its answer.
unfoldable pub handle_all :
    List ProbeEvent → StartupProbes → StartupProbes × List (ProbeEvent × Answer)
unfolding handle
handle_all [] s = (s, [])
handle_all (event ∷ events) s =
    let handled = handle event s in
    let rest = handle_all events handled.0 in (rest.0, (event, handled.1) ∷ rest.1)

-- The boot is over, and the checks that are remembered have passed.
abbrev IsLatched : HealthController → Type 0
IsLatched health = (health.started ≡ true) × (all_up health.startup_results ≡ true)

-- A positive response with checks that have passed.
abbrev pub IsPositive : Answer → Type 0
IsPositive answer =
    (r : ProbeResponse) × (answer ≡ some (inr r))
    × (r.is_positive ≡ true)
    × (all_up r.checks ≡ true)

-- What an arrival is answered; the end of a probe is answered as its checks ran.
abbrev pub IsAnswered : ProbeEvent → Answer → Type 0
IsAnswered arrives answer = IsPositive answer
IsAnswered (concludes runs) answer = Unit
