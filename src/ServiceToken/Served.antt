-- ===== src/ServiceToken/Served.antt =====
-- Which token a caller is served from the cache, and until when.
use iveri_nest_sdk.Common.{
  ℕ, ◌+◌, ◌*◌, ◌<◌, ◌≡◌, ◌⊎◌, inl, inr, refl, ◌∙◌, ap, arith, Bool-cases, Option, none, some, List,
  [], ◌∷◌, true,
}
use iveri_nest_sdk.Common.Text.{Text}
use iveri_nest_sdk.ServiceToken.Service.{
  ServiceTokenModuleOptions, CachedToken, Exchange, Refusal, Answer, at_once, awaiting, is_fresh,
  get_access_token, read_exchange, cache_token,
}
use iveri_nest_sdk.ServiceToken.System.{
  System, start_system, calls, settles, finishes, invalidates, Reach, here, next, wait, call,
  settle, finish, invalidate, take_answer,
}

-- An exchange that came back, with the clock of that moment.
abbrev Settled : Type 0
Settled = ℕ × Exchange

abbrev pub Any : {A : Type 0} → (A → Type 0) → List A → Type 0
Any P [] = ⊥
Any P (x ∷ xs) = P x ⊎ Any P xs

module _ (options : ServiceTokenModuleOptions) where
  -- The exchanges that have come back since the start or the last `invalidate`, the last one first.
  abbrev pub come_back : {u v : System} → Reach options u v → List Settled
  come_back here = []
  come_back (next steps (calls now e)) = come_back steps
  come_back (next steps (settles now handle exchange started e)) = (now, exchange) ∷ come_back steps
  come_back (next steps (finishes handle settled e)) = come_back steps
  come_back (next steps (invalidates e)) = []

  -- The cached token is what the exchange gave, until its lifetime is over.
  abbrev IsCachedFrom : CachedToken → Settled → Type 0
  IsCachedFrom c (t, exchange) =
      (seconds : ℕ) × (read_exchange options exchange ≡ inr (c.access_token, seconds))
      × (c.expires_at ≡ t + seconds * 1000)

  abbrev IsBacked : Option CachedToken → List Settled → Type 0
  IsBacked none log = Unit
  IsBacked (some c) log = Any (IsCachedFrom c) log

  IsBacked-later :
      (cached : Option CachedToken) (s : Settled) (log : List Settled)
      → IsBacked cached log
      → IsBacked cached (s ∷ log)
  IsBacked-later none s log h = tt
  IsBacked-later (some c) s log h = inr h

  cache_token-IsBacked :
      (now : ℕ) (exchange : Exchange) (outcome : Refusal ⊎ (Text × ℕ)) (cached : Option CachedToken)
      (log : List Settled)
      → read_exchange options exchange ≡ outcome
      → IsBacked cached log
      → IsBacked (cache_token now outcome cached) ((now, exchange) ∷ log)
  unfolding cache_token
  cache_token-IsBacked now exchange (inl refusal) cached log e h =
      IsBacked-later cached (now, exchange) log h
  cache_token-IsBacked now exchange (inr (token, seconds)) cached log e h = inl (seconds, e, refl)

  wait-cached : (in_flight : Option ℕ) (u : System) → (wait in_flight u).cached ≡ u.cached
  unfolding wait
  wait-cached none u = refl
  wait-cached (some handle) u = refl

  take_answer-cached : (answer : Answer) (u : System) → (take_answer answer u).cached ≡ u.cached
  unfolding take_answer
  take_answer-cached (at_once token) u = refl
  take_answer-cached (awaiting handle) u = wait-cached u.in_flight u

  reachable-IsBacked :
      {u : System} (run : Reach options start_system u) → IsBacked u.cached (come_back run)
  unfolding call settle finish invalidate
  reachable-IsBacked here = tt
  reachable-IsBacked (next {v} steps (calls now e)) =
      rw (e, take_answer-cached (get_access_token options now v.next v.cached v.in_flight) v)
        (reachable-IsBacked steps)
  reachable-IsBacked (next {v} steps (settles now handle exchange started e)) = rw e (
      cache_token-IsBacked now exchange (read_exchange options exchange) v.cached (come_back steps)
        refl (reachable-IsBacked steps))
  reachable-IsBacked (next {v} steps (finishes handle settled e)) = rw e (reachable-IsBacked steps)
  reachable-IsBacked (next {v} steps (invalidates e)) = rw e tt

  -- The exchange gave the token, and its lifetime is not within the skew of its end.
  abbrev pub IsServed : ℕ → Text → Settled → Type 0
  IsServed now token (t, exchange) =
      (seconds : ℕ) × (read_exchange options exchange ≡ inr (token, seconds))
      × (now + options.refresh_skew_seconds * 1000 < t + seconds * 1000)

  IsCachedFrom-IsServed :
      (now : ℕ) (token : Text) (c : CachedToken) (log : List Settled)
      → is_fresh options now c ≡ true
      → c.access_token ≡ token
      → Any (IsCachedFrom c) log
      → Any (IsServed now token) log
  unfolding is_fresh
  IsCachedFrom-IsServed now token c [] f same h = elim h [ ]
  IsCachedFrom-IsServed now token c (s ∷ log) f same (inl (seconds, read, until)) =
      inl (seconds, read ∙ ap (λ x. inr (x, seconds)) same, ground (arith, f, until))
  IsCachedFrom-IsServed now token c (s ∷ log) f same (inr h) =
      inr (IsCachedFrom-IsServed now token c log f same h)

  from_cache :
      (now handle : ℕ) (token : Text) (cached : Option CachedToken) (in_flight : Option ℕ)
      (log : List Settled)
      → get_access_token options now handle cached in_flight ≡ at_once token
      → IsBacked cached log
      → Any (IsServed now token) log
  unfolding get_access_token
  from_cache now handle token none in_flight log e h = absurd (cc)
  from_cache now handle token (some c) in_flight log e h =
      elim (Bool-cases (is_fresh options now c)) [
        | inl f ↦ IsCachedFrom-IsServed now token c log f (ground (arith, e, f)) h
        | inr f ↦ absurd (ground (arith, e, f))
      ]

  -- Whatever callers, exchanges and `invalidate` did before: a token that a caller is served at once
  -- was given by an exchange that has come back since the last `invalidate`, and the caller has
  -- more than the refresh skew of its lifetime left.
  pub get_access_token-IsServed :
      {u : System} (run : Reach options start_system u) (now : ℕ) (token : Text)
      → get_access_token options now u.next u.cached u.in_flight ≡ at_once token
      → Any (IsServed now token) (come_back run)
  get_access_token-IsServed {u} run now token e =
      from_cache now u.next token u.cached u.in_flight (come_back run) e (reachable-IsBacked run)
