-- ===== src/Scrub/Event.antt =====
-- src/observability/error/scrub-event.util.ts. Structured context is a tree: of a cyclic one the
-- scrubber sees as much as of a tree that is deeper than it walks.
use iveri_nest_sdk.Common.{
  ℕ, ◌+◌, Bool, ◌||◌, any, map, select, ltb, ◌==◌, Option, none, some, List, [], ◌∷◌, if◌then◌else◌,
}
use iveri_nest_sdk.Common.Text.{Text, codes, has_prefix, includes, to_lower_case, to_lower_unit}

mutual
  -- `leaf` is any value that is no array and no object, `redacted` the placeholder.
  pub data Value : Type 0 where
    redacted : Value
    leaf : ℕ → Value
    array : Values → Value
    object : Entries → Value

  pub data Values : Type 0 where
    no_value : Values
    one_value : Value → Values → Values

  pub data Entries : Type 0 where
    no_entry : Entries
    one_entry : Text → Value → Entries → Entries

abbrev max_scrub_depth : ℕ
max_scrub_depth = 6

-- A letter as the flags `iu` compare it: the long s counts as an s.
unfoldable pub fold_unit : ℕ → ℕ
unfolding to_lower_unit
fold_unit c = if c == 0x17f then b's' else to_lower_unit c

abbrev contains : Text → Text → Bool
contains p [] = has_prefix p []
contains p (c ∷ s) = has_prefix p (c ∷ s) || contains p s

abbrev sensitive_words : List Text
sensitive_words =
    codes "pass"
    ∷ codes "secret"
    ∷ codes "token"
    ∷ codes "credential"
    ∷ codes "authorization"
    ∷ codes "apikey"
    ∷ codes "api-key"
    ∷ codes "api_key"
    ∷ codes "signature"
    ∷ codes "cookie"
    ∷ codes "session"
    ∷ codes "private"
    ∷ codes "encrypt"
    ∷ codes "salt"
    ∷ codes "hash"
    ∷ codes "dsn"
    ∷ []

-- `SENSITIVE_KEY_PATTERN.test(key)`
unfoldable pub is_sensitive : Text → Bool
unfolding fold_unit
is_sensitive key = any (λ w. contains w (map fold_unit key)) sensitive_words

unfoldable mutual
  pub scrub_value : ℕ → Value → Value
  scrub_value depth redacted = redacted
  scrub_value depth (leaf x) = if ltb max_scrub_depth depth then redacted else leaf x
  scrub_value depth (array vs) =
      if ltb max_scrub_depth depth then redacted else array (scrub_values (depth + 1) vs)
  scrub_value depth (object es) =
      if ltb max_scrub_depth depth then redacted else object (scrub_record depth es)

  pub scrub_values : ℕ → Values → Values
  scrub_values depth no_value = no_value
  scrub_values depth (one_value v vs) = one_value (scrub_value depth v) (scrub_values depth vs)

  pub scrub_record : ℕ → Entries → Entries
  scrub_record depth no_entry = no_entry
  scrub_record depth (one_entry key v es) =
      one_entry key (if is_sensitive key then redacted else scrub_value (depth + 1) v)
        (scrub_record depth es)

abbrev pub reportable_header_names : List Text
reportable_header_names =
    codes "accept"
    ∷ codes "content-length"
    ∷ codes "content-type"
    ∷ codes "x-correlation-id"
    ∷ codes "user-agent"
    ∷ []

-- The headers, `none` where the event has none.
unfoldable pub filter_headers : Option (List (Text × Text)) → List (Text × Text)
filter_headers none = []
filter_headers (some headers) =
    select (λ h. includes reportable_header_names (to_lower_case h.0)) headers

-- The parts of a Sentry event. `rest` stands for the fields that the code does not name.
pub record RequestData : Type 0 where
  pub method : Option Text
  pub headers : Option (List (Text × Text))
  pub rest : List ℕ

pub record User : Type 0 where
  pub id : Option Text
  pub rest : List ℕ

pub record Frame : Type 0 where
  pub vars : Option Entries
  pub rest : List ℕ

pub record ExceptionValue : Type 0 where
  pub frames : Option (List Frame)
  pub rest : List ℕ

pub record Breadcrumb : Type 0 where
  pub data_entries : Option Entries
  pub rest : List ℕ

pub record ErrorEvent : Type 0 where
  pub extra : Option Entries
  pub contexts : Option Entries
  pub request : Option RequestData
  pub user : Option User
  pub exception_values : Option (List ExceptionValue)
  pub breadcrumbs : Option (List Breadcrumb)
  pub rest : List ℕ

unfoldable pub scrub_option : Option Entries → Option Entries
unfolding scrub_record
scrub_option none = none
scrub_option (some es) = some (scrub_record 0 es)

unfoldable pub scrub_request : Option RequestData → Option RequestData
unfolding filter_headers
scrub_request none = none
scrub_request (some r) =
    some (record { method = r.method; headers = some (filter_headers r.headers); rest = [] })

unfoldable pub scrub_user : Option User → Option User
scrub_user none = none
scrub_user (some u) = some (record { id = u.id; rest = [] })

abbrev pub drop_vars : Frame → Frame
drop_vars f = record f { vars = none }

abbrev pub without_vars : Option (List Frame) → Option (List Frame)
without_vars none = none
without_vars (some frames) = some (map drop_vars frames)

unfoldable pub scrub_exception : ExceptionValue → ExceptionValue
scrub_exception v = record v { frames = without_vars v.frames }

unfoldable pub scrub_breadcrumb : Breadcrumb → Breadcrumb
unfolding scrub_option
scrub_breadcrumb b = record b { data_entries = scrub_option b.data_entries }

unfoldable pub scrub_event : ErrorEvent → ErrorEvent
unfolding scrub_option scrub_request scrub_user scrub_exception scrub_breadcrumb
scrub_event event = record {
  extra = scrub_option event.extra;
  contexts = scrub_option event.contexts;
  request = scrub_request event.request;
  user = scrub_user event.user;
  exception_values = elim event.exception_values [
    | none ↦ none
    | some vs ↦ some (map scrub_exception vs)
  ];
  breadcrumbs = elim event.breadcrumbs [ none ↦ none | some bs ↦ some (map scrub_breadcrumb bs) ];
  rest = event.rest;
}
