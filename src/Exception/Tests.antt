-- ===== src/Exception/Tests.antt =====
-- A failing query behind the filter, and witnesses.
use iveri_nest_sdk.Common.{◌≡◌, refl, true, false, some, [], ◌∷◌}
use iveri_nest_sdk.Common.Text.{Text, codes, trim, is_space}
use iveri_nest_sdk.Http.{single}
use iveri_nest_sdk.Context.Correlation.{Response}
use iveri_nest_sdk.Context.Agreement.{IsId}
use iveri_nest_sdk.Exception.Value.{
  JsValue, text, object, other, no_more, property, PlainError, error, read_string_property,
}
use iveri_nest_sdk.Exception.Route.{is_infrastructure_route, infrastructure_route_prefixes}
use iveri_nest_sdk.Exception.Normalize.{
  sql_state_of, constraint_of, postgres_error, normalize, from_postgres_error, translate,
}
use iveri_nest_sdk.Exception.Filter.{Request, GlobalExceptionFilter, catch}
use iveri_nest_sdk.Exception.Laws.{catch-leaks_nothing}

abbrev duplicate : Text → PlainError
duplicate secret = record {
  message = secret;
  stack = some secret;
  properties =
      property "driverError"
        (object (
          property "code" (text (codes "23505")) (
            property "constraint" (text (codes "uq_email"))
              (property "detail" (text secret) no_more))))
        no_more;
}

abbrev request : Request
request = record {
  path = codes "/users";
  base_url = [];
  method = codes "POST";
  route = object (property "path" (text (codes "/users")) no_more);
  request_context = other;
  headers = ("x-correlation-id", single (codes " 17 ")) ∷ [];
}

abbrev response : Response
response = record { headers = []; headers_sent = false }

abbrev filter : GlobalExceptionFilter
filter = record { expose_internal_errors = false; reporter = some true }

abbrev to_string : JsValue → Text
to_string v = codes "value"

fresh_IsId : IsId (codes "u1")
unfolding trim is_space
fresh_IsId = record { is_short = refl; is_trimmed = refl }

told : (normalize false (error (duplicate (codes "a@b")))).status ≡ 409
unfolding normalize from_postgres_error translate postgres_error sql_state_of constraint_of
    read_string_property
told = refl

same_state :
    sql_state_of (duplicate (codes "a@b")).properties
    ≡ sql_state_of (duplicate (codes "c@d")).properties
unfolding sql_state_of read_string_property
same_state = refl

same_constraint :
    constraint_of (duplicate (codes "a@b")).properties
    ≡ constraint_of (duplicate (codes "c@d")).properties
unfolding constraint_of read_string_property
same_constraint = refl

catch-leaks_nothing_example :
    ((catch to_string filter
        (codes "u1")
        9
        (error (duplicate (codes "a@b")))
        request
        response).status
      ≡ (catch to_string filter
          (codes "u1")
          9
          (error (duplicate (codes "c@d")))
          request
          response).status)
    × ((catch to_string filter
          (codes "u1")
          9
          (error (duplicate (codes "a@b")))
          request
          response).body
        ≡ (catch to_string filter
            (codes "u1")
            9
            (error (duplicate (codes "c@d")))
            request
            response).body)
catch-leaks_nothing_example =
    catch-leaks_nothing to_string filter (codes "u1") 9 (duplicate (codes "a@b"))
      (duplicate (codes "c@d")) request response refl same_state same_constraint

proxy_counts :
    is_infrastructure_route (codes "/healthcheck-proxy") infrastructure_route_prefixes ≡ false
unfolding is_infrastructure_route
proxy_counts = refl
