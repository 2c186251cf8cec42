-- ===== src/Health/Tests.antt =====
-- A database that comes up, and witnesses.
use iveri_nest_sdk.Common.{◌≡◌, inl, inr, refl, true, false, none, some, List, [], ◌∷◌}
use iveri_nest_sdk.Common.Text.{codes}
use iveri_nest_sdk.Health.Controller.{
  CheckRun, ProbeResponse, HealthController, run, run_one, all_up, startup, concludes,
  StartupProbes, handle,
}

abbrev up_run : List CheckRun
up_run = record { name = codes "database"; failure = none } ∷ []

abbrev down_run : List CheckRun
down_run = record { name = codes "database"; failure = some (some (codes "refused")) } ∷ []

abbrev booting : HealthController
booting = record { started = false; startup_results = [] }

abbrev started : ProbeResponse
started = record {
  is_positive = true;
  checks = record { name = codes "database"; is_up = true; error = none } ∷ [];
}

stays : (startup down_run (startup up_run booting).1).0 ≡ inr started
unfolding startup run run_one all_up
stays = refl

-- Two probes arrive together; the database goes away between them.
abbrev passed : StartupProbes
passed = record {
  health = record { started = true; startup_results = started.checks };
  under_way = 1;
}

-- Two probes are under way; one passes, then the checks of the other fail and a third arrives.
abbrev two_under_way : StartupProbes
two_under_way = record { health = booting; under_way = 2 }

-- The probe that was under way is refused although another had passed.
overtaken :
    (handle (concludes down_run) passed).1
    ≡ some (inl (record { is_positive = false; checks = run down_run }))
unfolding handle run run_one all_up
overtaken = refl
