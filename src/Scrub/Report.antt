-- ===== src/Scrub/Report.antt =====
-- What a scrubbed event cannot hold.
use iveri_nest_sdk.Common.{
  ℕ, ◌≡◌, refl, Bool, true, false, Bool-cases, ◌&&◌, inl, inr, Option, none, some, List, [], ◌∷◌,
  all, select, map,
}
use iveri_nest_sdk.Common.Text.{Text, includes, to_lower_case}
use iveri_nest_sdk.Scrub.Event.{
  Entries, reportable_header_names, filter_headers, RequestData, User, Frame, ExceptionValue,
  Breadcrumb, ErrorEvent, scrub_option, scrub_request, scrub_user, drop_vars, without_vars,
  scrub_exception, scrub_breadcrumb, scrub_event,
}
use iveri_nest_sdk.Scrub.Clean.{is_clean_record, scrub_record-clean}

abbrev pub is_clean_option : Option Entries → Bool
is_clean_option none = true
is_clean_option (some es) = is_clean_record 0 es

abbrev is_nothing : List ℕ → Bool
is_nothing [] = true
is_nothing (n ∷ ns) = false

abbrev is_reportable : Text × Text → Bool
is_reportable h = includes reportable_header_names (to_lower_case h.0)

abbrev headers_of : Option (List (Text × Text)) → List (Text × Text)
headers_of none = []
headers_of (some hs) = hs

abbrev pub is_clean_request : Option RequestData → Bool
is_clean_request none = true
is_clean_request (some r) = all is_reportable (headers_of r.headers) && is_nothing r.rest

abbrev pub is_clean_user : Option User → Bool
is_clean_user none = true
is_clean_user (some u) = is_nothing u.rest

abbrev has_no_vars : Frame → Bool
has_no_vars f = elim f.vars [ none ↦ true | some es ↦ false ]

abbrev pub all_of {ℓ} : {A : Type ℓ} → (A → Bool) → Option (List A) → Bool
all_of p none = true
all_of p (some xs) = all p xs

abbrev pub is_clean_exception : ExceptionValue → Bool
is_clean_exception v = all_of has_no_vars v.frames

abbrev pub is_clean_breadcrumb : Breadcrumb → Bool
is_clean_breadcrumb b = is_clean_option b.data_entries

option-clean : (o : Option Entries) → is_clean_option (scrub_option o) ≡ true
unfolding scrub_option
option-clean none = refl
option-clean (some es) = (scrub_record-clean es).0

all-select : (hs : List (Text × Text)) → all is_reportable (select is_reportable hs) ≡ true
all-select [] = refl
all-select (h ∷ hs) = elim (Bool-cases (is_reportable h)) [
  | inl e ↦ rw (e, e) (all-select hs)
  | inr e ↦ rw e (all-select hs)
]

headers-clean : (o : Option (List (Text × Text))) → all is_reportable (filter_headers o) ≡ true
unfolding filter_headers
headers-clean none = refl
headers-clean (some hs) = all-select hs

request-clean : (r : Option RequestData) → is_clean_request (scrub_request r) ≡ true
unfolding scrub_request filter_headers
request-clean none = refl
request-clean (some r) = rw (headers-clean r.headers) refl

user-clean : (u : Option User) → is_clean_user (scrub_user u) ≡ true
unfolding scrub_user
user-clean none = refl
user-clean (some u) = refl

all-map {ℓ} :
    {A B : Type ℓ} (p : B → Bool) (f : A → B)
    → ((x : A) → p (f x) ≡ true)
    → (xs : List A) → all p (map f xs) ≡ true
all-map p f h [] = refl
all-map p f h (x ∷ xs) = rw (h x) (all-map p f h xs)

frames-clean : (o : Option (List Frame)) → all_of has_no_vars (without_vars o) ≡ true
frames-clean none = refl
frames-clean (some fs) = all-map has_no_vars drop_vars (λ f. refl) fs

exception-clean : (v : ExceptionValue) → is_clean_exception (scrub_exception v) ≡ true
unfolding scrub_exception
exception-clean v = frames-clean v.frames

-- Whatever an event holds, a scrubbed one has clean context and breadcrumb data, of the request no
-- more than the method and headers of the list, of the user no more than the id, and no frame's
-- local variables.
pub scrub_event-clean :
    (event : ErrorEvent)
    → let e = scrub_event event in
      (is_clean_option e.extra ≡ true)
      × (is_clean_option e.contexts ≡ true)
      × (is_clean_request e.request ≡ true)
      × (is_clean_user e.user ≡ true)
      × (all_of is_clean_exception e.exception_values ≡ true)
      × (all_of is_clean_breadcrumb e.breadcrumbs ≡ true)
unfolding scrub_event scrub_breadcrumb
scrub_event-clean event = (
  option-clean event.extra,
  option-clean event.contexts,
  request-clean event.request,
  user-clean event.user,
  exceptions event.exception_values,
  crumbs event.breadcrumbs,
)
  where
    exceptions :
        (o : Option (List ExceptionValue))
        → all_of is_clean_exception
            (elim o [ none ↦ none | some vs ↦ some (map scrub_exception vs) ])
          ≡ true
    exceptions none = refl
    exceptions (some vs) = all-map is_clean_exception scrub_exception exception-clean vs

    crumbs :
        (o : Option (List Breadcrumb))
        → all_of is_clean_breadcrumb
            (elim o [ none ↦ none | some bs ↦ some (map scrub_breadcrumb bs) ])
          ≡ true
    crumbs none = refl
    crumbs (some bs) =
        all-map is_clean_breadcrumb scrub_breadcrumb (λ b. option-clean b.data_entries) bs
