-- ===== src/Context/Store/Isolation.antt =====
-- Requests do not see each other's context, and the tasks of one request share theirs.
use Prim.Native.String.{String}
use text.Mathlib.Text.{◌==◌ as str_eq}
use iveri_nest_sdk.Common.{
  ℕ, zero, suc, ◌≡◌, refl, sym, ap, ◌∙◌, Bool, false, length, arith, ◌==◌, Option, none, some, List,
  [], ◌∷◌, ◌++◌, Bool-cases, Option-cases, inl, inr, if◌then◌else◌,
}
use iveri_nest_sdk.Common.Text.{Text}
use iveri_nest_sdk.Http.{single, Headers, set_header, first_value, read_header}
use iveri_nest_sdk.Context.Correlation.{
  CorrelationContext, Response, assign_correlation_id, set_response_header, use_middleware,
}
use iveri_nest_sdk.Context.Agreement.{get_header-set}
use iveri_nest_sdk.Context.Store.{
  Contexts, context_at, write_at, Storage, id_of, get_context, get_correlation_id, merge_fields,
  add_fields, Process, task_at, Event, arrived, started, enriched, step, steps, use_in,
}

context_at-append :
    (i : ℕ) (c : CorrelationContext) (contexts more : Contexts)
    → context_at i contexts ≡ some c
    → context_at i (contexts ++ more) ≡ some c
context_at-append i c [] more h = absurd (cc)
context_at-append zero c (d ∷ contexts) more h = h
context_at-append (suc i) c (d ∷ contexts) more h = context_at-append i c contexts more h

task_at-append :
    (i j : ℕ) (tasks more : List Storage)
    → task_at i tasks ≡ some j
    → task_at i (tasks ++ more) ≡ some j
task_at-append i j [] more h = absurd (cc)
task_at-append zero j (t ∷ tasks) more h = h
task_at-append (suc i) j (t ∷ tasks) more h = task_at-append i j tasks more h

context_at-write_at :
    (i j : ℕ) (f : CorrelationContext → CorrelationContext) (c : CorrelationContext)
    (contexts : Contexts)
    → context_at j contexts ≡ some c
    → context_at j (write_at i f contexts) ≡ some (if i == j then f c else c)
context_at-write_at i j f c [] h = absurd (cc)
context_at-write_at zero zero f c (d ∷ contexts) h = ground (arith, h)
context_at-write_at zero (suc j) f c (d ∷ contexts) h = ground (arith, h)
context_at-write_at (suc i) zero f c (d ∷ contexts) h = ground (arith, h)
context_at-write_at (suc i) (suc j) f c (d ∷ contexts) h =
    ground (arith, context_at-write_at i j f c contexts h)

-- The fields of a context, by name.
abbrev pub field : String → List (String × ℕ) → Option ℕ
field k [] = none
field k ((j, v) ∷ fields) = if str_eq j k then some v else field k fields

-- The value that the last of the writes gives, or else the one of before.
abbrev field_or : String → List (String × ℕ) → Option ℕ → Option ℕ
field_or k fields before = elim (field k fields) [ none ↦ before | some v ↦ some v ]

field-append :
    (k : String) (fields before : List (String × ℕ))
    → field k (fields ++ before) ≡ field_or k fields (field k before)
field-append k [] before = refl
field-append k ((j, v) ∷ fields) before = elim (Bool-cases (str_eq j k)) [
  | inl same ↦ rw (same, field_or) refl
  | inr other ↦ rw (other, field_or) (field-append k fields before)
]

-- Whether a task's storage is the context `r`.
abbrev is_of : ℕ → Storage → Bool
is_of r none = false
is_of r (some k) = k == r

-- The field `k` of the context `r` after the events, where it was `v`: each write by a task of that
-- context counts, and no other.
abbrev pub last_written : ℕ → String → List Event → Process → Option ℕ → Option ℕ
last_written r k [] p v = v
last_written r k (arrived fresh headers response ∷ es) p v =
    last_written r k es (step (arrived fresh headers response) p) v
last_written r k (started by ∷ es) p v = last_written r k es (step (started by) p) v
last_written r k (enriched by fields ∷ es) p v =
    last_written r k es (step (enriched by fields) p)
      (if is_of r (task_at by p.tasks) then field_or k fields v else v)

-- The context `r` after an event, where it was `c`.
record Follows (r : ℕ) (e : Event) (p : Process) (c : CorrelationContext) : Type 0 where
  context : CorrelationContext
  is_there : context_at r (step e p).contexts ≡ some context
  same_id : context.correlation_id ≡ c.correlation_id
  written : (k : String) → last_written r k (e ∷ []) p (field k c.fields) ≡ field k context.fields

enriched-Follows :
    (r by : ℕ) (fields : List (String × ℕ)) (p : Process) (c : CorrelationContext)
    → context_at r p.contexts ≡ some c
    → Follows r (enriched by fields) p c
unfolding step add_fields
enriched-Follows r by fields p c h = elim (Option-cases (task_at by p.tasks)) [
  | inl outside ↦ record {
    context = c;
    is_there = rw outside h;
    same_id = refl;
    written = λ k. rw outside refl;
  }
  | inr (i, inside) ↦ record {
    context = if i == r then merge_fields fields c else c;
    is_there = rw inside (context_at-write_at i r (merge_fields fields) c p.contexts h);
    same_id = ground arith;
    written = λ k. elim (Bool-cases (i == r)) [
      | inl same ↦ rw (inside, same) (sym (field-append k fields c.fields))
      | inr other ↦ rw (inside, other) refl
    ];
  }
]

step-Follows :
    (r : ℕ) (e : Event) (p : Process) (c : CorrelationContext)
    → context_at r p.contexts ≡ some c
    → Follows r e p c
unfolding step use_in
step-Follows r (arrived fresh headers response) p c h = record {
  context = c;
  is_there = context_at-append r c p.contexts _ h;
  same_id = refl;
  written = λ k. refl;
}
step-Follows r (started by) p c h = record {
  context = c;
  is_there = h;
  same_id = refl;
  written = λ k. refl;
}
step-Follows r (enriched by fields) p c h = enriched-Follows r by fields p c h

step-task :
    (i r : ℕ) (e : Event) (p : Process)
    → task_at i p.tasks ≡ some r
    → task_at i (step e p).tasks ≡ some r
unfolding step use_in
step-task i r (arrived fresh headers response) p h = task_at-append i r p.tasks _ h
step-task i r (started by) p h = task_at-append i r p.tasks _ h
step-task i r (enriched by fields) p h = h

last_written-cons :
    (r : ℕ) (k : String) (e : Event) (es : List Event) (p : Process) (v : Option ℕ)
    → last_written r k (e ∷ es) p v ≡ last_written r k es (step e p) (last_written r k (e ∷ []) p v)
last_written-cons r k (arrived fresh headers response) es p v = refl
last_written-cons r k (started by) es p v = refl
last_written-cons r k (enriched by fields) es p v = refl

-- What a task reads of its context: the id, and of each field the value that is given.
pub record Reads (storage : Storage) (contexts : Contexts) (id : Text) (v : String → Option ℕ)
    : Type 0 where
  pub context : CorrelationContext
  pub is_there : get_context storage contexts ≡ some context
  pub same_id : get_correlation_id storage contexts ≡ some id
  pub fields : (k : String) → field k context.fields ≡ v k

steps-Reads :
    (es : List Event) (p : Process) (i r : ℕ) (c : CorrelationContext)
    → task_at i p.tasks ≡ some r
    → context_at r p.contexts ≡ some c
    → Reads
        (task_at i (steps es p).tasks)
        (steps es p).contexts
        c.correlation_id
        (λ k. last_written r k es p (field k c.fields))
unfolding steps get_correlation_id get_context
steps-Reads [] p i r c task there = record {
  context = c;
  is_there = rw task there;
  same_id = rw task (ap id_of there);
  fields = λ k. refl;
}
steps-Reads (e ∷ es) p i r c task there =
    let f = step-Follows r e p c there in
    let rest = steps-Reads es (step e p) i r f.context (step-task i r e p task) f.is_there in
    record {
      context = rest.context;
      is_there = rest.is_there;
      same_id = rest.same_id ∙ ap some f.same_id;
      fields = λ k.
          rest.fields k
          ∙ ap (last_written r k es (step e p)) (sym (f.written k))
          ∙ sym (last_written-cons r k e es p (field k c.fields));
    }

task_at-end : (tasks : List Storage) (t : Storage) → task_at (length tasks) (tasks ++ (t ∷ [])) ≡ t
task_at-end [] t = refl
task_at-end (u ∷ tasks) t = task_at-end tasks t

context_at-end :
    (contexts : Contexts) (c : CorrelationContext)
    → context_at (length contexts) (contexts ++ (c ∷ [])) ≡ some c
context_at-end [] c = refl
context_at-end (d ∷ contexts) c = context_at-end contexts c

read_header-set :
    (id : Text) (headers : Headers)
    → read_header (set_header "x-correlation-id" (single id) headers) "x-correlation-id" ≡ some id
unfolding read_header
read_header-set id headers =
    ap first_value (get_header-set "x-correlation-id" (single id) headers refl)

-- Whatever requests arrive, whatever tasks are started and whatever fields are added after a request
-- has arrived: the task that handles the request reads the very id that the request's and the
-- response's header carry once the middleware has run, and of each field the last value that a task
-- of this request gave it, or none; no other request's fields are read, and none of its own is lost.
pub steps-isolated :
    (fresh : Text) (headers : Headers) (response : Response) (es : List Event) (p : Process)
    → (id : Text) × (read_header (use_middleware fresh headers response).1 "x-correlation-id"
        ≡ some id)
      × (read_header (use_middleware fresh headers response).2.headers "x-correlation-id" ≡ some id)
      × Reads
          (task_at (length p.tasks) (steps (arrived fresh headers response ∷ es) p).tasks)
          (steps (arrived fresh headers response ∷ es) p).contexts
          id
          (λ k.
            last_written (length p.contexts) k es (step (arrived fresh headers response) p) none)
unfolding steps step use_in use_middleware assign_correlation_id set_response_header
steps-isolated fresh headers response es p =
    let id = (assign_correlation_id fresh headers).0 in
    (
      id,
      read_header-set id headers,
      read_header-set id response.headers,
      steps-Reads es (step (arrived fresh headers response) p) (length p.tasks) (length p.contexts)
          (record { correlation_id = id; fields = [] })
          (task_at-end p.tasks (some (length p.contexts))) (context_at-end p.contexts _),
    )
