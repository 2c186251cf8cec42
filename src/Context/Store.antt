-- ===== src/Context/Store.antt =====
-- src/context/correlation-id.service.ts: the contexts as objects that tasks share, and the decorators
-- current-correlation-id.decorator.ts and current-request-context.decorator.ts.
--
-- `AsyncLocalStorage` hands a task the reference that was current where the task was started; an
-- object is the entry of that number in the list of contexts.
pub mod Isolation
mod Tests
use Prim.Native.String.{String}
use iveri_nest_sdk.Common.{
  ℕ, zero, suc, ◌≡◌, Bool, true, false, ◌==◌, Option, none, some, List, [], ◌∷◌, ◌++◌, ◌⊎◌, inl,
  inr, length, if◌then◌else◌,
}
use iveri_nest_sdk.Common.Text.{Text, codes}
use iveri_nest_sdk.Http.{Headers, read_header}
use iveri_nest_sdk.Auth.AccessToken.{Rejection, unauthenticated}
use iveri_nest_sdk.Auth.Guard.{AuthenticatedRequestContext, Request}
use iveri_nest_sdk.Context.Correlation.{CorrelationContext, Response, use_middleware}

abbrev pub Contexts : Type 0
Contexts = List CorrelationContext

abbrev pub context_at : ℕ → Contexts → Option CorrelationContext
context_at i [] = none
context_at zero (c ∷ contexts) = some c
context_at (suc i) (c ∷ contexts) = context_at i contexts

abbrev pub write_at : ℕ → (CorrelationContext → CorrelationContext) → Contexts → Contexts
write_at i f [] = []
write_at zero f (c ∷ contexts) = f c ∷ contexts
write_at (suc i) f (c ∷ contexts) = c ∷ write_at i f contexts

-- What `getStore()` returns to a task: `none` outside of any `runWith`.
abbrev pub Storage : Type 0
Storage = Option ℕ

-- `runWith`: the callback's result; the storage of the caller is what it was.
unfoldable pub run_with {ℓ} :
    {A : Type ℓ} → ℕ → (Storage → Contexts → A × Contexts) → Contexts → A × Contexts
run_with context callback contexts = callback (some context) contexts

unfoldable pub get_context : Storage → Contexts → Option CorrelationContext
get_context none contexts = none
get_context (some i) contexts = context_at i contexts

abbrev id_of : Option CorrelationContext → Option Text
id_of none = none
id_of (some c) = some c.correlation_id

unfoldable pub get_correlation_id : Storage → Contexts → Option Text
unfolding get_context
get_correlation_id storage contexts = id_of (get_context storage contexts)

unfoldable get_correlation_id_or_generate : Text → Storage → Contexts → Text
unfolding get_correlation_id
get_correlation_id_or_generate fresh storage contexts = elim (get_correlation_id storage contexts) [
  | none ↦ fresh
  | some id ↦ id
]

-- `{ ...context.fields, ...fields }`: of two fields of one name, the first of the list counts.
abbrev pub merge_fields : List (String × ℕ) → CorrelationContext → CorrelationContext
merge_fields fields c = record c { fields = fields ++ c.fields }

unfoldable pub add_fields : List (String × ℕ) → Storage → Contexts → Contexts
add_fields fields none contexts = contexts
add_fields fields (some i) contexts = write_at i (merge_fields fields) contexts

-- `CurrentCorrelationId`
unfoldable current_correlation_id : Headers → Text
current_correlation_id headers = elim (read_header headers "x-correlation-id") [
  | none ↦ []
  | some id ↦ id
]

-- `CurrentRequestContext`
unfoldable current_request_context : Request → Rejection ⊎ AuthenticatedRequestContext
current_request_context request = elim request.context [
  | none ↦ inl (unauthenticated "Request reached a handler with no authenticated context")
  | some context ↦ inr context
]

-- `CorrelationIdMiddleware.use`: what `next` comes to in a new context, and the headers by then.
unfoldable pub use_in {ℓ} :
    {A : Type ℓ}
    → Text
    → Headers
    → Response
    → (next : Storage → Contexts → A × Contexts) → Contexts
    → (A × Contexts) × Headers × Response
unfolding use_middleware run_with
use_in fresh headers response next contexts =
    let (context, headers', response') = use_middleware fresh headers response in
    (run_with (length contexts) next (contexts ++ (context ∷ [])), headers', response')

-- The process: its contexts, and the storage of each task.
pub record Process : Type 0 where
  pub contexts : Contexts
  pub tasks : List Storage

abbrev pub task_at : ℕ → List Storage → Storage
task_at i [] = none
task_at zero (t ∷ tasks) = t
task_at (suc i) (t ∷ tasks) = task_at i tasks

-- A request arrives and its middleware runs; a task starts another; a task adds fields.
pub data Event : Type 0 where
  arrived : (fresh : Text) (headers : Headers) (response : Response) → Event
  started : (by : ℕ) → Event
  enriched : (by : ℕ) (fields : List (String × ℕ)) → Event

-- What `next` starts: a task with the storage that it runs in.
abbrev start_task : List Storage → Storage → Contexts → List Storage × Contexts
start_task tasks storage contexts = (tasks ++ (storage ∷ []), contexts)

unfoldable pub step : Event → Process → Process
unfolding add_fields use_in
step (arrived fresh headers response) p =
    let ((tasks, contexts), headers', response') =
      use_in fresh headers response (start_task p.tasks) p.contexts in
    record { contexts = contexts; tasks = tasks }
step (started by) p = record p { tasks = p.tasks ++ (task_at by p.tasks ∷ []) }
step (enriched by fields) p = record p {
  contexts = add_fields fields (task_at by p.tasks) p.contexts;
}

unfoldable pub steps : List Event → Process → Process
unfolding step
steps [] p = p
steps (e ∷ es) p = steps es (step e p)
