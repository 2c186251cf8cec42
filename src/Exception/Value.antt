-- ===== src/Exception/Value.antt =====
-- JavaScript values as far as the filter looks into them, and what can be thrown.
use Prim.Native.String.{String}
use package.text.Mathlib.Text.{◌==◌ as str_eq}
use iveri_nest_sdk.Common.{ℕ, Option, none, some, List, [], ◌∷◌, if◌then◌else◌}
use iveri_nest_sdk.Common.Text.{Text}

mutual
  -- Of an array's entries those that are no text are `none`; `other` is every value that is no
  -- text and no object: undefined, null, a number, a function.
  pub data JsValue : Type 0 where
    text : Text → JsValue
    array : List (Option Text) → JsValue
    object : Properties → JsValue
    other : JsValue

  pub data Properties : Type 0 where
    no_more : Properties
    property : String → JsValue → Properties → Properties

abbrev pub get_property : String → Properties → Option JsValue
get_property k no_more = none
get_property k (property j v ps) = if str_eq j k then some v else get_property k ps

-- The members of the contracts' `ErrorCode` that the source names.
pub data ErrorCode : Type 0 where
  validation_failed : ErrorCode
  unauthenticated : ErrorCode
  forbidden : ErrorCode
  resource_not_found : ErrorCode
  resource_conflict : ErrorCode
  resource_already_exists : ErrorCode
  payload_too_large : ErrorCode
  unprocessable_entity : ErrorCode
  rate_limit_exceeded : ErrorCode
  external_service_error : ErrorCode
  service_unavailable : ErrorCode
  dependency_timeout : ErrorCode
  internal_error : ErrorCode
  insufficient_permission : ErrorCode
  invalid_credentials : ErrorCode
  tenant_mismatch : ErrorCode
  token_expired : ErrorCode

-- The details of a domain exception are passed on unread.
pub data Details : Type 0 where
  undefined : Details
  given : ℕ → Details
  violations : List Text → Details
  constraint : Option Text → Details
  stack : Option Text → Details

pub record DomainException : Type 0 where
  pub code : ErrorCode
  pub status : ℕ
  pub message : Text
  pub details : Details
  pub stack : Option Text

pub record HttpException : Type 0 where
  pub status : ℕ
  pub response : JsValue
  pub message : Text
  pub stack : Option Text

-- Any other `Error`, with its own properties.
pub record PlainError : Type 0 where
  pub message : Text
  pub stack : Option Text
  pub properties : Properties

pub data Thrown : Type 0 where
  domain : DomainException → Thrown
  http : HttpException → Thrown
  error : PlainError → Thrown
  value : JsValue → Thrown

-- `readStringProperty`
unfoldable pub read_string_property : JsValue → String → Option Text
read_string_property (object ps) k = elim (get_property k ps) [ some (text s) ↦ some s | _ ↦ none ]
read_string_property _ k = none

-- The entries, if all are texts.
unfoldable pub all_texts : List (Option Text) → Option (List Text)
all_texts [] = some []
all_texts (none ∷ entries) = none
all_texts (some s ∷ entries) = elim (all_texts entries) [ none ↦ none | some ss ↦ some (s ∷ ss) ]
