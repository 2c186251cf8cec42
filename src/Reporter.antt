-- ===== src/Reporter.antt =====
-- src/observability/error/error-reporter.service.ts: what Sentry is told, and when.
--
-- Sentry itself is the list of the calls that it gets. `Exception` and `Extra` are what is captured
-- and the structured context beside it, which the reporter passes on unread.
pub mod Captured
mod Tests
use iveri_nest_sdk.Common.{ℕ, Bool, true, false, Option, none, some, List, [], ◌∷◌, if◌then◌else◌}
use iveri_nest_sdk.Common.Text.{Text, codes}
use iveri_nest_sdk.Outbox.Retry.{Fraction}
use iveri_nest_sdk.Scrub.Event.{ErrorEvent, scrub_event, reportable_header_names}

abbrev error_reporter_flush_timeout_ms : ℕ
error_reporter_flush_timeout_ms = 2000

pub record ErrorReporterModuleOptions : Type 0 where
  pub dsn : Option Text
  pub environment : Text
  pub service_name : Text
  pub release : Option Text
  pub sample_rate : Option Fraction

-- `DATA_COLLECTION`: which categories Sentry may collect by itself, the bodies and the request
-- headers by their names.
pub record DataCollection : Type 0 where
  pub user_info : Bool
  pub cookies : Bool
  pub request_headers : List Text
  pub response_headers : Bool
  pub http_bodies : List Text
  pub url_query_params : Bool
  pub graphql_document : Bool
  pub graphql_variables : Bool
  pub gen_ai_inputs : Bool
  pub gen_ai_outputs : Bool
  pub mcp_inputs : Bool
  pub mcp_outputs : Bool
  pub database_query_data : Bool
  pub queues : Bool
  pub stack_frame_variables : Bool
  pub frame_context_lines : ℕ

abbrev data_collection : DataCollection
data_collection = record {
  user_info = false;
  cookies = false;
  request_headers = reportable_header_names;
  response_headers = false;
  http_bodies = [];
  url_query_params = false;
  graphql_document = false;
  graphql_variables = false;
  gen_ai_inputs = false;
  gen_ai_outputs = false;
  mcp_inputs = false;
  mcp_outputs = false;
  database_query_data = false;
  queues = false;
  stack_frame_variables = false;
  frame_context_lines = 5;
}

-- What `Sentry.init` is given.
pub record SentryOptions : Type 0 where
  pub dsn : Option Text
  pub environment : Text
  pub release : Option Text
  pub sample_rate : Fraction
  pub data_collection : DataCollection
  pub traces_sample_rate : ℕ
  pub before_send : ErrorEvent → ErrorEvent

pub data SentryCall (Exception Extra : Type 0) : Type 0 where
  set_tag : (name tag_value : Text) → SentryCall Exception Extra
  set_extras : Extra → SentryCall Exception Extra
  capture_exception : Exception → SentryCall Exception Extra

pub record ErrorReportContext (Extra : Type 0) : Type 0 where
  pub correlation_id : Option Text
  pub tenant_id : Option Text
  pub method : Option Text
  pub route : Option Text
  pub extra : Option Extra

-- `Boolean(options.dsn)`
unfoldable pub is_reporting : ErrorReporterModuleOptions → Bool
is_reporting options = elim options.dsn [ none ↦ false | some [] ↦ false | some (c ∷ s) ↦ true ]

-- The constructor: `none` where Sentry is not started.
unfoldable sentry_options : ErrorReporterModuleOptions → Option SentryOptions
unfolding is_reporting scrub_event
sentry_options options =
    if is_reporting options
    then some (record {
      dsn = options.dsn;
      environment = options.environment;
      release = options.release;
      sample_rate = elim options.sample_rate [
        | none ↦ record { numerator = 1; denominator = 1 }
        | some rate ↦ rate
      ];
      data_collection = data_collection;
      traces_sample_rate = 0;
      before_send = scrub_event;
    })
    else none

module _ {Exception Extra : Type 0} where
  -- An absent or empty value is no tag.
  unfoldable pub with_tag :
      Text → Option Text → List (SentryCall Exception Extra) → List (SentryCall Exception Extra)
  with_tag name none calls = calls
  with_tag name (some []) calls = calls
  with_tag name (some (c ∷ s)) calls = set_tag name (c ∷ s) ∷ calls

  unfoldable pub with_extras :
      Option Extra → List (SentryCall Exception Extra) → List (SentryCall Exception Extra)
  with_extras none calls = calls
  with_extras (some extra) calls = set_extras extra ∷ calls

  unfoldable pub capture :
      ErrorReporterModuleOptions
      → Exception
      → ErrorReportContext Extra
      → List (SentryCall Exception Extra)
  unfolding is_reporting with_tag with_extras
  capture options exception context =
      if is_reporting options
      then set_tag (codes "service") options.service_name
        ∷ with_tag (codes "correlationId") context.correlation_id (
            with_tag (codes "tenantId") context.tenant_id (
              with_tag (codes "method") context.method (
                with_tag (codes "route") context.route
                  (with_extras context.extra (capture_exception exception ∷ [])))))
      else []

-- The time that the shutdown lets Sentry take, or `none` where it does not wait.
unfoldable shutdown_wait : ErrorReporterModuleOptions → Option ℕ
unfolding is_reporting
shutdown_wait options = if is_reporting options then some error_reporter_flush_timeout_ms else none
