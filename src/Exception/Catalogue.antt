-- ===== src/Exception/Catalogue.antt =====
-- The exception classes of src/exception: each has a code and a status of its own.
use iveri_nest_sdk.Common.{ℕ, ◌≡◌, refl, map, Option, none, List, [], ◌∷◌}
use iveri_nest_sdk.Common.Text.{Text}
use iveri_nest_sdk.Exception.Value.{
  DomainException, Details, undefined, ErrorCode, external_service_error, forbidden,
  insufficient_permission, internal_error, invalid_credentials, rate_limit_exceeded,
  resource_already_exists, resource_conflict, resource_not_found, service_unavailable,
  tenant_mismatch, token_expired, unauthenticated, unprocessable_entity, validation_failed,
}

-- `new X(message, details)` with the stack that it captures.
unfoldable exception_of : ErrorCode → ℕ → Text → Details → Option Text → DomainException
exception_of code status message details stack = record {
  code = code;
  status = status;
  message = message;
  details = details;
  stack = stack;
}

unfoldable external_service_exception : Text → Details → Option Text → DomainException
unfolding exception_of
external_service_exception = exception_of external_service_error 502

unfoldable forbidden_action_exception : Text → Details → Option Text → DomainException
unfolding exception_of
forbidden_action_exception = exception_of forbidden 403

unfoldable insufficient_permission_exception : Text → Details → Option Text → DomainException
unfolding exception_of
insufficient_permission_exception = exception_of insufficient_permission 403

unfoldable internal_exception : Text → Details → Option Text → DomainException
unfolding exception_of
internal_exception = exception_of internal_error 500

unfoldable invalid_credentials_exception : Text → Details → Option Text → DomainException
unfolding exception_of
invalid_credentials_exception = exception_of invalid_credentials 401

unfoldable rate_limit_exceeded_exception : Text → Details → Option Text → DomainException
unfolding exception_of
rate_limit_exceeded_exception = exception_of rate_limit_exceeded 429

unfoldable resource_already_exists_exception : Text → Details → Option Text → DomainException
unfolding exception_of
resource_already_exists_exception = exception_of resource_already_exists 409

unfoldable resource_conflict_exception : Text → Details → Option Text → DomainException
unfolding exception_of
resource_conflict_exception = exception_of resource_conflict 409

unfoldable resource_not_found_exception : Text → Details → Option Text → DomainException
unfolding exception_of
resource_not_found_exception = exception_of resource_not_found 404

unfoldable service_unavailable_exception : Text → Details → Option Text → DomainException
unfolding exception_of
service_unavailable_exception = exception_of service_unavailable 503

unfoldable tenant_mismatch_exception : Text → Details → Option Text → DomainException
unfolding exception_of
tenant_mismatch_exception = exception_of tenant_mismatch 403

unfoldable token_expired_exception : Text → Details → Option Text → DomainException
unfolding exception_of
token_expired_exception = exception_of token_expired 401

unfoldable unauthenticated_exception : Text → Details → Option Text → DomainException
unfolding exception_of
unauthenticated_exception = exception_of unauthenticated 401

unfoldable unprocessable_entity_exception : Text → Details → Option Text → DomainException
unfolding exception_of
unprocessable_entity_exception = exception_of unprocessable_entity 422

unfoldable validation_failed_exception : Text → Details → Option Text → DomainException
unfolding exception_of
validation_failed_exception = exception_of validation_failed 400

-- One of each class.
abbrev every_class : List DomainException
unfolding external_service_exception forbidden_action_exception insufficient_permission_exception
    internal_exception invalid_credentials_exception rate_limit_exceeded_exception
    resource_already_exists_exception resource_conflict_exception resource_not_found_exception
    service_unavailable_exception tenant_mismatch_exception token_expired_exception
    unauthenticated_exception unprocessable_entity_exception validation_failed_exception
every_class =
    external_service_exception [] undefined none
    ∷ forbidden_action_exception [] undefined none
    ∷ insufficient_permission_exception [] undefined none
    ∷ internal_exception [] undefined none
    ∷ invalid_credentials_exception [] undefined none
    ∷ rate_limit_exceeded_exception [] undefined none
    ∷ resource_already_exists_exception [] undefined none
    ∷ resource_conflict_exception [] undefined none
    ∷ resource_not_found_exception [] undefined none
    ∷ service_unavailable_exception [] undefined none
    ∷ tenant_mismatch_exception [] undefined none
    ∷ token_expired_exception [] undefined none
    ∷ unauthenticated_exception [] undefined none
    ∷ unprocessable_entity_exception [] undefined none
    ∷ validation_failed_exception [] undefined none
    ∷ []

statuses :
    map (λ e. e.status) every_class
    ≡ 502 ∷ 403 ∷ 403 ∷ 500 ∷ 401 ∷ 429 ∷ 409 ∷ 409 ∷ 404 ∷ 503 ∷ 403 ∷ 401 ∷ 401 ∷ 422 ∷ 400 ∷ []
unfolding every_class
statuses = refl
