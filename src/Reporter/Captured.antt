-- ===== src/Reporter/Captured.antt =====
-- What reaches Sentry of an exception that the filter caught.
use iveri_nest_sdk.Common.{
  ℕ, ◌≡◌, refl, ◌∙◌, true, false, not, ◌&&◌, ltb, leb, arith, Option, none, some, List, [], ◌∷◌,
  if◌then◌else◌, Bool-cases, inl, inr,
}
use iveri_nest_sdk.Common.Text.{Text, codes, text_eq}
use iveri_nest_sdk.Context.Correlation.{Response, assign_correlation_id}
use iveri_nest_sdk.Exception.Value.{JsValue, ErrorCode, Thrown}
use iveri_nest_sdk.Exception.Route.{is_infrastructure_route, infrastructure_route_prefixes}
use iveri_nest_sdk.Exception.Normalize.{NormalizedError, normalize}
use iveri_nest_sdk.Exception.Filter.{
  GlobalExceptionFilter, Request, Report, report, report_of, catch,
}
use iveri_nest_sdk.Reporter.{
  ErrorReporterModuleOptions, SentryCall, set_tag, set_extras, capture_exception,
  ErrorReportContext, is_reporting, with_tag, with_extras, capture,
}

abbrev pub Extra : Type 0
Extra = ErrorCode × ℕ

-- The context that the filter hands over with an exception.
abbrev context_of_report : Report → ErrorReportContext Extra
context_of_report r = record {
  correlation_id = some r.correlation_id;
  tenant_id = r.tenant_id;
  method = some r.method;
  route = some r.route;
  extra = some (r.code, r.status);
}

unfoldable pub send : ErrorReporterModuleOptions → Option Report → List (SentryCall Thrown Extra)
unfolding capture
send options none = []
send options (some r) = capture options r.exception (context_of_report r)

abbrev pub captured : List (SentryCall Thrown Extra) → List Thrown
captured [] = []
captured (set_tag name tag_value ∷ calls) = captured calls
captured (set_extras extra ∷ calls) = captured calls
captured (capture_exception exception ∷ calls) = exception ∷ captured calls

-- The value that a tag is set to, the first time.
abbrev pub tag_of : Text → List (SentryCall Thrown Extra) → Option Text
tag_of name [] = none
tag_of name (set_tag n v ∷ calls) = if text_eq n name then some v else tag_of name calls
tag_of name (set_extras extra ∷ calls) = tag_of name calls
tag_of name (capture_exception exception ∷ calls) = tag_of name calls

with_tag-captured :
    (name : Text) (v : Option Text) (calls : List (SentryCall Thrown Extra))
    → captured (with_tag name v calls) ≡ captured calls
unfolding with_tag
with_tag-captured name none calls = refl
with_tag-captured name (some []) calls = refl
with_tag-captured name (some (c ∷ s)) calls = refl

with_extras-captured :
    (extra : Option Extra) (calls : List (SentryCall Thrown Extra))
    → captured (with_extras extra calls) ≡ captured calls
unfolding with_extras
with_extras-captured none calls = refl
with_extras-captured (some extra) calls = refl

capture-captured :
    (options : ErrorReporterModuleOptions) (exception : Thrown) (context : ErrorReportContext Extra)
    → captured (capture options exception context)
      ≡ (if is_reporting options then exception ∷ [] else [])
unfolding capture
capture-captured options exception context = elim (Bool-cases (is_reporting options)) [
  | inr off ↦ rw off refl
  | inl on ↦ rw on (
      with_tag-captured (codes "correlationId") context.correlation_id _
      ∙ with_tag-captured (codes "tenantId") context.tenant_id _
      ∙ with_tag-captured (codes "method") context.method _
      ∙ with_tag-captured (codes "route") context.route _
      ∙ with_extras-captured context.extra (capture_exception exception ∷ []))
]

report-captured :
    (options : ErrorReporterModuleOptions) (filter : GlobalExceptionFilter) (exception : Thrown)
    (n : NormalizedError) (request : Request) (id : Text)
    → filter.reporter ≡ some (is_reporting options)
    → captured (send options (report filter exception n request id)) ≡ (
        if is_reporting options
          && leb 500 n.status
          && not (is_infrastructure_route request.path infrastructure_route_prefixes)
        then exception ∷ []
        else [])
unfolding report send report_of
report-captured options filter exception n request id given =
    elim (Bool-cases (is_reporting options)) [
      | inr off ↦ rw (given, off) refl
      | inl on ↦ elim (Bool-cases (ltb n.status 500)) [
        | inl minor ↦
            let small : leb 500 n.status ≡ false = ground arith in rw (given, on, minor, small) refl
        | inr major ↦
            let large : leb 500 n.status ≡ true = ground arith in
            elim (Bool-cases (is_infrastructure_route request.path infrastructure_route_prefixes)) [
              | inl infrastructure ↦ rw (given, on, major, large, infrastructure) refl
              | inr ours ↦
                  rw (given, on, major, large, ours)
                    (capture-captured options exception
                        (context_of_report (report_of exception n request id))
                      ∙ rw on refl)
            ]
      ]
    ]

-- An exception that the filter caught reaches Sentry exactly once or not at all, as the filter's own
-- reporter is configured: once if it has a DSN, the response's status is 500 or more and the path is
-- of no infrastructure route, whatever the request and the context lack.
pub catch-captured :
    (options : ErrorReporterModuleOptions) (to_string : JsValue → Text)
    (filter : GlobalExceptionFilter) (fresh : Text) (now : ℕ) (exception : Thrown)
    (request : Request) (response : Response)
    → filter.reporter ≡ some (is_reporting options)
    → let caught = catch to_string filter fresh now exception request response in
      captured (send options caught.reported) ≡ (
        if is_reporting options
          && leb 500 caught.status
          && not (is_infrastructure_route request.path infrastructure_route_prefixes)
        then exception ∷ []
        else [])
unfolding catch
catch-captured options to_string filter fresh now exception request response given =
    report-captured options filter exception (normalize filter.expose_internal_errors exception)
      request (assign_correlation_id fresh request.headers).0 given
