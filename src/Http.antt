-- ===== src/Http.antt =====
-- What the guards, the correlation id and the exception filter see of an Express request.
use Prim.Native.String.{String}
use text.Mathlib.Text.{◌==◌ as str_eq}
use iveri_nest_sdk.Common.{Option, none, some, List, [], ◌∷◌, if◌then◌else◌}
use iveri_nest_sdk.Common.Text.{Text}

-- A header that Node gives: one text, or an array of them for one that was sent more than once.
pub data HeaderValue : Type 0 where
  single : Text → HeaderValue
  repeated : List Text → HeaderValue

-- `request.headers`, by lower-case name.
abbrev pub Headers : Type 0
Headers = List (String × HeaderValue)

abbrev pub get_header : String → Headers → Option HeaderValue
get_header k [] = none
get_header k ((j, v) ∷ hs) = if str_eq j k then some v else get_header k hs

-- `headers[k] = v`
abbrev pub set_header : String → HeaderValue → Headers → Headers
set_header k v [] = (k, v) ∷ []
set_header k v ((j, w) ∷ hs) = if str_eq j k then (k, v) ∷ hs else (j, w) ∷ set_header k v hs

-- `Array.isArray(value) ? value[0] : value`
abbrev pub first_value : Option HeaderValue → Option Text
first_value none = none
first_value (some (single t)) = some t
first_value (some (repeated [])) = none
first_value (some (repeated (t ∷ ts))) = some t

-- `AuthGuard.readHeader`
unfoldable pub read_header : Headers → String → Option Text
read_header headers key = first_value (get_header key headers)

-- A text that is missing or empty is falsy.
abbrev pub truthy : Option Text → Option Text
truthy none = none
truthy (some []) = none
truthy (some (c ∷ s)) = some (c ∷ s)
