-- ===== src/Context/Correlation.antt =====
-- src/context/assign-correlation-id.util.ts and correlation-id.middleware.ts. `randomUUID()` is an
-- argument, `fresh`.
use Prim.Native.String.{String}
use iveri_nest_sdk.Common.{
  ℕ, Bool, not, ◌&&◌, leb, Option, none, some, List, [], length, if◌then◌else◌,
}
use iveri_nest_sdk.Common.Text.{Text, trim}
use iveri_nest_sdk.Http.{single, Headers, read_header, set_header}
use iveri_nest_sdk.Auth.Guard.{is_empty}

abbrev max_correlation_id_length : ℕ
max_correlation_id_length = 128

abbrev pub is_usable : Text → Bool
is_usable candidate = not (is_empty candidate) && leb (length candidate) max_correlation_id_length

-- The caller's id if it is usable, the fresh one otherwise.
unfoldable pub choose : Text → Option Text → Text
choose fresh none = fresh
choose fresh (some incoming) = if is_usable (trim incoming) then trim incoming else fresh

unfoldable pub assign_correlation_id : Text → Headers → Text × Headers
unfolding choose
assign_correlation_id fresh headers =
    let correlation_id = choose fresh (read_header headers "x-correlation-id") in
    (correlation_id, set_header "x-correlation-id" (single correlation_id) headers)

-- The object that `AsyncLocalStorage` holds: the fields are name and value, the later ones first.
pub record CorrelationContext : Type 0 where
  pub correlation_id : Text
  pub fields : List (String × ℕ)

-- The response's headers, and whether they are sent.
pub record Response : Type 0 where
  pub headers : Headers
  pub headers_sent : Bool

unfoldable pub set_response_header : Text → Response → Response
set_response_header correlation_id response = record response {
  headers = set_header "x-correlation-id" (single correlation_id) response.headers;
}

-- `CorrelationIdMiddleware.use`: the context that `next` runs in, and the request's and the
-- response's headers by then.
unfoldable pub use_middleware : Text → Headers → Response → CorrelationContext × Headers × Response
unfolding assign_correlation_id set_response_header
use_middleware fresh headers response =
    let (correlation_id, headers') = assign_correlation_id fresh headers in
    (
      record { correlation_id = correlation_id; fields = [] },
      headers',
      set_response_header correlation_id response,
    )
