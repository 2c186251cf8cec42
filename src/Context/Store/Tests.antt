-- ===== src/Context/Store/Tests.antt =====
-- Two requests, of which one starts a second task.
use iveri_nest_sdk.Common.{◌≡◌, refl, false, none, some, List, [], ◌∷◌}
use iveri_nest_sdk.Common.Text.{Text, codes, trim, is_space}
use iveri_nest_sdk.Http.{single, Headers, read_header}
use iveri_nest_sdk.Context.Correlation.{
  CorrelationContext, Response, use_middleware, assign_correlation_id, set_response_header, choose,
}
use iveri_nest_sdk.Context.Store.{
  Event, arrived, started, enriched, Process, task_at, step, steps, use_in, run_with, add_fields,
}
use iveri_nest_sdk.Context.Store.Isolation.{Reads, last_written, steps-isolated}

abbrev response : Response
response = record { headers = []; headers_sent = false }

abbrev running : Process
running = record {
  contexts =
      record { correlation_id = codes "a"; fields = ("order", 1) ∷ [] }
      ∷ record { correlation_id = codes "b"; fields = [] }
      ∷ [];
  tasks = some 0 ∷ some 1 ∷ some 0 ∷ none ∷ [];
}

abbrev first : CorrelationContext
first = record { correlation_id = codes "a"; fields = ("order", 1) ∷ [] }

-- The new request is task 4, of the context 2; it starts a task, which adds a field.
abbrev events : List Event
events =
    enriched 1 (("order", 2) ∷ [])
    ∷ started 4
    ∷ enriched 5 (("step", 7) ∷ [])
    ∷ enriched 3 (("order", 3) ∷ [])
    ∷ []

abbrev sent : Headers
sent = ("x-correlation-id", single (codes "c ")) ∷ []

abbrev whole_run : List Event
whole_run = arrived (codes "new") sent response ∷ events

steps-isolated_example :
    (id : Text) × (read_header (use_middleware (codes "new") sent response).1 "x-correlation-id"
      ≡ some id)
    × (read_header (use_middleware (codes "new") sent response).2.headers "x-correlation-id"
        ≡ some id)
    × Reads
        (task_at 4 (steps whole_run running).tasks)
        (steps whole_run running).contexts
        id
        (λ k. last_written 2 k events (step (arrived (codes "new") sent response) running) none)
steps-isolated_example = steps-isolated (codes "new") sent response events running

after_events :
    (steps whole_run running).contexts
    ≡ first
      ∷ record { correlation_id = codes "b"; fields = ("order", 2) ∷ [] }
      ∷ record { correlation_id = codes "c"; fields = ("step", 7) ∷ [] }
      ∷ []
unfolding steps step use_in add_fields use_middleware assign_correlation_id choose read_header
    run_with set_response_header trim is_space
after_events = refl
