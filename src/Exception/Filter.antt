-- ===== src/Exception/Filter.antt =====
-- src/exception/global-exception.filter.ts: `catch`, with all that it writes.
use iveri_nest_sdk.Common.{ℕ, Bool, false, not, ◌||◌, ltb, leb, Option, none, some, if◌then◌else◌}
use iveri_nest_sdk.Common.Text.{Text}
use iveri_nest_sdk.Http.{Headers}
use iveri_nest_sdk.Context.Correlation.{Response, set_response_header, assign_correlation_id}
use iveri_nest_sdk.Exception.Value.{
  JsValue, read_string_property, ErrorCode, Details, Thrown, domain, http, error, value,
}
use iveri_nest_sdk.Exception.Route.{
  is_infrastructure_route, infrastructure_route_prefixes, read_route_pattern,
}
use iveri_nest_sdk.Exception.Normalize.{NormalizedError, normalize}

-- What the filter reads of the request.
pub record Request : Type 0 where
  pub path : Text
  pub base_url : Text
  pub method : Text
  pub route : JsValue
  pub request_context : JsValue
  pub headers : Headers

-- The options, with the reporter's `isEnabled()` where there is a reporter.
pub record GlobalExceptionFilter : Type 0 where
  pub expose_internal_errors : Bool
  pub reporter : Option Bool

pub record LogEntry : Type 0 where
  pub is_error : Bool
  pub correlation_id : Text
  pub code : ErrorCode
  pub status : ℕ
  pub method : Text
  pub path : Text
  pub message : Text
  pub trace : Option Text

pub record Report : Type 0 where
  pub exception : Thrown
  pub correlation_id : Text
  pub tenant_id : Option Text
  pub method : Text
  pub route : Text
  pub code : ErrorCode
  pub status : ℕ

pub record Body : Type 0 where
  pub code : ErrorCode
  pub message : Text
  pub details : Details
  pub correlation_id : Text
  pub timestamp : ℕ
  pub path : Text

-- What one `catch` does, in the order in which it does it.
pub record Caught : Type 0 where
  pub request_headers : Headers
  pub response : Response
  pub logged : LogEntry
  pub reported : Option Report
  pub status : ℕ
  pub body : Body

-- `exception instanceof Error ? exception.stack : String(exception)`, `String` being an argument.
abbrev trace_of : (JsValue → Text) → Thrown → Option Text
trace_of to_string (domain e) = e.stack
trace_of to_string (http e) = e.stack
trace_of to_string (error e) = e.stack
trace_of to_string (value v) = some (to_string v)

unfoldable pub log : (JsValue → Text) → Thrown → NormalizedError → Request → Text → LogEntry
log to_string exception n request correlation_id = record {
  is_error = leb 500 n.status;
  correlation_id = correlation_id;
  code = n.code;
  status = n.status;
  method = request.method;
  path = request.path;
  message = n.message;
  trace = if leb 500 n.status then trace_of to_string exception else none;
}

abbrev pub is_enabled : Option Bool → Bool
is_enabled none = false
is_enabled (some b) = b

abbrev read_tenant_id : Request → Option Text
read_tenant_id request = read_string_property request.request_context "tenantId"

-- What `capture` is handed.
unfoldable pub report_of : Thrown → NormalizedError → Request → Text → Report
unfolding read_route_pattern read_string_property
report_of exception n request correlation_id = record {
  exception = exception;
  correlation_id = correlation_id;
  tenant_id = read_tenant_id request;
  method = request.method;
  route = read_route_pattern request.base_url request.route;
  code = n.code;
  status = n.status;
}

unfoldable pub report :
    GlobalExceptionFilter → Thrown → NormalizedError → Request → Text → Option Report
unfolding is_infrastructure_route report_of
report filter exception n request correlation_id =
    if not (is_enabled filter.reporter)
      || ltb n.status 500
      || is_infrastructure_route request.path infrastructure_route_prefixes
    then none
    else some (report_of exception n request correlation_id)

-- The id, the request's headers with it, and the response with it if that is not sent.
unfoldable pub resolve_correlation_id : Text → Headers → Response → Text × Headers × Response
unfolding assign_correlation_id set_response_header
resolve_correlation_id fresh headers response =
    let (correlation_id, headers') = assign_correlation_id fresh headers in
    (
      correlation_id,
      headers',
      if not response.headers_sent then set_response_header correlation_id response else response,
    )

unfoldable pub catch :
    (JsValue → Text)
    → GlobalExceptionFilter
    → (fresh : Text) (now : ℕ) → Thrown
    → Request
    → Response
    → Caught
unfolding normalize resolve_correlation_id log report
catch to_string filter fresh now exception request response =
    let n = normalize filter.expose_internal_errors exception in
    let (correlation_id, headers', response') =
      resolve_correlation_id fresh request.headers response in
    record {
      request_headers = headers';
      response = response';
      logged = log to_string exception n request correlation_id;
      reported = report filter exception n request correlation_id;
      status = n.status;
      body = record {
        code = n.code;
        message = n.message;
        details = n.details;
        correlation_id = correlation_id;
        timestamp = now;
        path = request.path;
      };
    }
