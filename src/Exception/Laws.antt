-- ===== src/Exception/Laws.antt =====
-- What the filter tells the caller, whom it reports, and under which id.
use iveri_nest_sdk.Common.{
  ℕ, ◌≡◌, ◌↔◌, ◌≤◌, refl, ap, ap₂, ◌∙◌, Bool, true, false, not, ◌||◌, ltb, none, some, arith,
  if◌then◌else◌,
}
use iveri_nest_sdk.Common.Text.{Text}
use iveri_nest_sdk.Http.{single, get_header}
use iveri_nest_sdk.Context.Correlation.{
  assign_correlation_id, use_middleware, Response, set_response_header,
}
use iveri_nest_sdk.Context.Agreement.{IsId, assign_correlation_id-again, get_header-set}
use iveri_nest_sdk.Exception.Value.{JsValue, Properties, PlainError, Thrown, error}
use iveri_nest_sdk.Exception.Route.{is_infrastructure_route, infrastructure_route_prefixes}
use iveri_nest_sdk.Exception.Normalize.{
  NormalizedError, normalize, from_postgres_error, sql_state_of, constraint_of, translate,
}
use iveri_nest_sdk.Exception.Filter.{
  Request, GlobalExceptionFilter, Report, log, report, report_of, resolve_correlation_id, catch,
  is_enabled,
}

driver_alike :
    (ps ps' : Properties)
    → sql_state_of ps ≡ sql_state_of ps'
    → constraint_of ps ≡ constraint_of ps'
    → from_postgres_error ps ≡ from_postgres_error ps'
unfolding from_postgres_error
driver_alike ps ps' s c = ap₂ translate s c

-- An error of no exception class leaks nothing, unless internal errors are exposed: two of them of
-- one SQLSTATE and one constraint are answered by the same status and body, whatever their
-- messages, their stacks and their other properties.
pub catch-leaks_nothing :
    (to_string : JsValue → Text) (filter : GlobalExceptionFilter) (fresh : Text) (now : ℕ)
    (e e' : PlainError) (request : Request) (response : Response)
    → filter.expose_internal_errors ≡ false
    → sql_state_of e.properties ≡ sql_state_of e'.properties
    → constraint_of e.properties ≡ constraint_of e'.properties
    → ((catch to_string filter fresh now (error e) request response).status
        ≡ (catch to_string filter fresh now (error e') request response).status)
      × ((catch to_string filter fresh now (error e) request response).body
          ≡ (catch to_string filter fresh now (error e') request response).body)
unfolding catch normalize
catch-leaks_nothing to_string filter fresh now e e' request response hidden s c =
    let same = driver_alike e.properties e'.properties s c in
    (rw (hidden, same) refl, rw (hidden, same) refl)

pick-else {ℓ} :
    {A : Type ℓ} (b : Bool) (x y : A)
    → (if b then none else some x) ≡ some y
    → (b ≡ false) × (x ≡ y)
pick-else true x y h = absurd (cc)
pick-else false x y h = (refl, cc)

gate :
    (enabled infrastructure : Bool) (status : ℕ)
    → (not enabled || ltb status 500 || infrastructure) ≡ false
    → (enabled ≡ true) × (500 ≤ status) × (infrastructure ≡ false)
gate enabled infrastructure status h = ground (arith, h)

gate' :
    (enabled infrastructure : Bool) (status : ℕ)
    → (enabled ≡ true) × (500 ≤ status) × (infrastructure ≡ false)
    → (not enabled || ltb status 500 || infrastructure) ≡ false
gate' enabled infrastructure status h = ground (arith, h)

report-exactly :
    (filter : GlobalExceptionFilter) (exception : Thrown) (n : NormalizedError) (request : Request)
    (id : Text)
    → ((r : Report) × (report filter exception n request id ≡ some r)
        × (r.correlation_id ≡ id)
        × (r.code ≡ n.code)
        × (r.status ≡ n.status))
      ↔ ((is_enabled filter.reporter ≡ true)
          × (500 ≤ n.status)
          × (is_infrastructure_route request.path infrastructure_route_prefixes ≡ false))
unfolding report report_of
report-exactly filter exception n request id =
    let shut =
      not (is_enabled filter.reporter)
      || ltb n.status 500
      || is_infrastructure_route request.path infrastructure_route_prefixes in
    (
      λ p.
          gate (is_enabled filter.reporter)
            (is_infrastructure_route request.path infrastructure_route_prefixes) n.status
            (pick-else shut _ p.0 p.1).0,
      λ g. (
        report_of exception n request id,
        rw
            (gate' (is_enabled filter.reporter)
              (is_infrastructure_route request.path infrastructure_route_prefixes) n.status g)
            refl,
        refl,
        refl,
        refl,
      ),
    )

-- What a reader of the tracker sees is what the caller was told: an exception is reported exactly
-- if the reporter is enabled, the response's status is 500 or more and the path is of no
-- infrastructure route, and then under the id, the code and the status of the response.
catch-reported :
    (to_string : JsValue → Text) (filter : GlobalExceptionFilter) (fresh : Text) (now : ℕ)
    (exception : Thrown) (request : Request) (response : Response)
    → let caught = catch to_string filter fresh now exception request response in
      ((r : Report) × (caught.reported ≡ some r)
        × (r.correlation_id ≡ caught.body.correlation_id)
        × (r.code ≡ caught.body.code)
        × (r.status ≡ caught.status))
      ↔ ((is_enabled filter.reporter ≡ true)
          × (500 ≤ caught.status)
          × (is_infrastructure_route request.path infrastructure_route_prefixes ≡ false))
unfolding catch
catch-reported to_string filter fresh now exception request response =
    report-exactly filter exception (normalize filter.expose_internal_errors exception) request
      (assign_correlation_id fresh request.headers).0

answered_header :
    (id id' target : Text) (sent : Bool) (response : Response)
    → id ≡ target
    → id' ≡ target
    → get_header "x-correlation-id"
        (if not sent
          then set_response_header id' (set_response_header id response)
          else set_response_header id response).headers
      ≡ some (single target)
unfolding set_response_header
answered_header id id' target true response e e' =
    get_header-set "x-correlation-id" (single id) response.headers refl
    ∙ ap (λ i. some (single i)) e
answered_header id id' target false response e e' =
    get_header-set "x-correlation-id" (single id') (set_response_header id response).headers refl
    ∙ ap (λ i. some (single i)) e'

-- The logger, the middleware and the filter agree: once a request has its id, the context that the
-- middleware opens, the body and the log line of an error and the header of the response carry
-- that id, whatever fresh ids the middleware and the filter could have made, if the fresh one of
-- the first is usable.
catch-one_id :
    (to_string : JsValue → Text) (filter : GlobalExceptionFilter) (fresh fresh' fresh'' : Text)
    (now : ℕ) (exception : Thrown) (request : Request) (response : Response)
    → IsId fresh
    → let (id, headers) = assign_correlation_id fresh request.headers in
      let (context, headers', response') = use_middleware fresh' headers response in
      let caught =
        catch to_string filter fresh'' now exception
          (record request { headers = headers' })
          response' in
      (context.correlation_id ≡ id)
      × (caught.body.correlation_id ≡ id)
      × (caught.logged.correlation_id ≡ id)
      × (get_header "x-correlation-id" caught.response.headers ≡ some (single id))
unfolding catch use_middleware resolve_correlation_id log set_response_header
catch-one_id to_string filter fresh fresh' fresh'' now exception request response f =
    let first = assign_correlation_id fresh request.headers in
    let p = (assign_correlation_id-again fresh fresh' request.headers f).1 in
    let q =
      ap (λ r. assign_correlation_id fresh'' r.1) p
      ∙ (assign_correlation_id-again fresh fresh'' request.headers f).1 in
    let one = ap (λ r. r.0) p in
    let two = ap (λ r. r.0) q in
    (one, two, two, answered_header _ _ first.0 response.headers_sent response one two)
