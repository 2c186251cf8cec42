-- ===== src/Exception/Normalize.antt =====
-- src/exception/global-exception.filter.ts: the code, status, message and details of each thrown
-- value.
use iveri_nest_sdk.Common.{ℕ, Bool, true, ◌==◌, Option, none, some, List, if◌then◌else◌}
use iveri_nest_sdk.Common.Text.{Text, codes, text_eq}
use iveri_nest_sdk.Http.{truthy}
use iveri_nest_sdk.Exception.Value.{
  JsValue, text, array, object, Properties, get_property, read_string_property, all_texts,
  ErrorCode, validation_failed, unauthenticated, forbidden, resource_not_found, resource_conflict,
  resource_already_exists, payload_too_large, unprocessable_entity, rate_limit_exceeded,
  external_service_error, service_unavailable, dependency_timeout, internal_error, Details,
  undefined, violations, constraint, stack, HttpException, PlainError, Thrown, domain, http, error,
  value,
}

pub record NormalizedError : Type 0 where
  pub code : ErrorCode
  pub status : ℕ
  pub message : Text
  pub details : Details

abbrev generic_internal_message : Text
generic_internal_message = codes "An unexpected error occurred"

-- `POSTGRES_ERROR_MAP`, without what its prototype adds.
unfoldable pub postgres_error : Text → Option (ErrorCode × ℕ × Text)
postgres_error sql_state =
    if text_eq sql_state (codes "23505")
    then some (resource_already_exists, 409, codes "A resource with these values already exists")
    else if text_eq sql_state (codes "23503")
    then some
        (resource_conflict, 409, codes "A referenced resource does not exist or is still in use")
    else if text_eq sql_state (codes "23514")
    then some (unprocessable_entity, 422, codes "A value violates a database constraint")
    else none

-- `STATUS_TO_ERROR_CODE[status] ?? INTERNAL_ERROR`
unfoldable status_to_error_code : ℕ → ErrorCode
status_to_error_code status =
    if status == 400
    then validation_failed
    else if status == 401
    then unauthenticated
    else if status == 403
    then forbidden
    else if status == 404
    then resource_not_found
    else if status == 409
    then resource_conflict
    else if status == 413
    then payload_too_large
    else if status == 422
    then unprocessable_entity
    else if status == 429
    then rate_limit_exceeded
    else if status == 502
    then external_service_error
    else if status == 503
    then service_unavailable
    else if status == 504
    then dependency_timeout
    else internal_error

unfoldable read_validation_violations : JsValue → Option (List Text)
unfolding all_texts
read_validation_violations (object ps) = elim (get_property "message" ps) [
  | some (array entries) ↦ all_texts entries
  | _ ↦ none
]
read_validation_violations _ = none

abbrev text_or : Option Text → Text → Text
text_or none t = t
text_or (some s) t = s

abbrev pub message_of : HttpException → JsValue → Text
unfolding read_string_property
message_of e (text s) = s
message_of e payload = text_or (read_string_property payload "message") e.message

unfoldable from_http_exception : HttpException → NormalizedError
unfolding read_validation_violations status_to_error_code message_of
from_http_exception e = elim (read_validation_violations e.response) [
  | some entries ↦ record {
    code = validation_failed;
    status = 400;
    message = codes "Request validation failed";
    details = violations entries;
  }
  | none ↦ record {
    code = status_to_error_code e.status;
    status = e.status;
    message = message_of e e.response;
    details = undefined;
  }
]

-- `'driverError' in exception ? exception.driverError : exception`, for an object.
abbrev driver_error : Properties → JsValue
driver_error ps = elim (get_property "driverError" ps) [ none ↦ object ps | some v ↦ v ]

-- What the driver says: its SQLSTATE and the constraint.
unfoldable pub sql_state_of : Properties → Option Text
unfolding read_string_property
sql_state_of ps = truthy (read_string_property (driver_error ps) "code")

unfoldable pub constraint_of : Properties → Option Text
unfolding read_string_property
constraint_of ps = read_string_property (driver_error ps) "constraint"

abbrev pub mapped : Option Text → Option (ErrorCode × ℕ × Text) → Option NormalizedError
mapped name none = none
mapped name (some (code, status, message)) =
    some (record { code = code; status = status; message = message; details = constraint name })

unfoldable pub translate : (sql_state name : Option Text) → Option NormalizedError
unfolding postgres_error
translate none name = none
translate (some sql_state) name = mapped name (postgres_error sql_state)

unfoldable pub from_postgres_error : Properties → Option NormalizedError
unfolding sql_state_of constraint_of translate
from_postgres_error ps = translate (sql_state_of ps) (constraint_of ps)

-- A failure that nothing else explains.
abbrev pub internal : Bool → Option PlainError → NormalizedError
internal true (some e) = record {
  code = internal_error;
  status = 500;
  message = e.message;
  details = stack e.stack;
}
internal _ _ = record {
  code = internal_error;
  status = 500;
  message = generic_internal_message;
  details = undefined;
}

abbrev or_internal : Option NormalizedError → NormalizedError → NormalizedError
or_internal none n = n
or_internal (some p) n = p

unfoldable pub normalize : Bool → Thrown → NormalizedError
unfolding from_http_exception from_postgres_error
normalize expose (domain e) = record {
  code = e.code;
  status = e.status;
  message = e.message;
  details = e.details;
}
normalize expose (http e) = from_http_exception e
normalize expose (error e) =
    or_internal (from_postgres_error e.properties) (internal expose (some e))
normalize expose (value (object ps)) = or_internal (from_postgres_error ps) (internal expose none)
normalize expose (value v) = internal expose none
