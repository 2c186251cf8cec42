-- ===== src/Reporter/Tests.antt =====
-- A small exception on its way to Sentry, and the theorem at it.
use iveri_nest_sdk.Common.{◌≡◌, refl, true, false, none, some, [], ◌∷◌}
use iveri_nest_sdk.Common.Text.{Text, codes}
use iveri_nest_sdk.Context.Correlation.{Response}
use iveri_nest_sdk.Exception.Value.{JsValue, object, property, text, no_more, other, Thrown, error}
use iveri_nest_sdk.Exception.Route.{is_infrastructure_route}
use iveri_nest_sdk.Exception.Filter.{GlobalExceptionFilter, Request, catch}
use iveri_nest_sdk.Reporter.{ErrorReporterModuleOptions, is_reporting}
use iveri_nest_sdk.Reporter.Captured.{send, captured, catch-captured}

abbrev options : ErrorReporterModuleOptions
options = record {
  dsn = some (codes "https://key@sentry/1");
  environment = codes "production";
  service_name = codes "conduit-api";
  release = none;
  sample_rate = none;
}

abbrev to_string : JsValue → Text
to_string v = codes "value"

abbrev crash : Thrown
crash = error (record { message = codes "boom"; stack = none; properties = no_more })

abbrev request : Request
request = record {
  path = codes "/users";
  base_url = [];
  method = codes "POST";
  route = object (property "path" (text (codes "/users")) no_more);
  request_context = other;
  headers = [];
}

abbrev response : Response
response = record { headers = []; headers_sent = false }

abbrev filter : GlobalExceptionFilter
filter = record { expose_internal_errors = false; reporter = some true }

configured : filter.reporter ≡ some (is_reporting options)
unfolding is_reporting
configured = refl

catch-captured_example :
    captured (send options (catch to_string filter (codes "u1") 5 crash request response).reported)
    ≡ crash ∷ []
unfolding is_reporting catch is_infrastructure_route
catch-captured_example =
    catch-captured options to_string filter (codes "u1") 5 crash request response configured
