-- ===== src/ServiceToken/System.antt =====
-- A service with any number of callers: each turn of the event loop is one step.
use iveri_nest_sdk.Common.{
  ℕ, ◌+◌, ◌≡◌, true, not, ◌==◌, Option, none, some, List, [], ◌∷◌, select, any,
}
use iveri_nest_sdk.ServiceToken.Service.{
  ServiceTokenModuleOptions, CachedToken, Exchange, Answer, at_once, awaiting, get_access_token,
  read_exchange, cache_token,
}

-- `cached` and `inFlight` are the service's fields. Exchanges are numbered in the order of their
-- start, `next` being the number of the next. Those in `started` have not settled; those in
-- `settled` have, and their `finally` is still to run. `waiting` has the exchange of each caller
-- that awaits one.
pub record System : Type 0 where
  pub cached : Option CachedToken
  pub in_flight : Option ℕ
  pub next : ℕ
  pub started : List ℕ
  pub settled : List ℕ
  pub waiting : List ℕ

abbrev pub start_system : System
start_system = record {
  cached = none;
  in_flight = none;
  next = 0;
  started = [];
  settled = [];
  waiting = [];
}

abbrev pub without : ℕ → List ℕ → List ℕ
without handle handles = select (λ h. not (h == handle)) handles

-- A caller who has to wait: a new exchange starts if there is none to join.
unfoldable pub wait : Option ℕ → System → System
wait none u = record u {
  in_flight = some u.next;
  next = u.next + 1;
  started = u.next ∷ u.started;
  waiting = u.next ∷ u.waiting;
}
wait (some handle) u = record u { waiting = handle ∷ u.waiting }

unfoldable pub take_answer : Answer → System → System
unfolding wait
take_answer (at_once token) u = u
take_answer (awaiting handle) u = wait u.in_flight u

-- `getAccessToken`
unfoldable pub call : ServiceTokenModuleOptions → ℕ → System → System
unfolding get_access_token take_answer
call options now u = take_answer (get_access_token options now u.next u.cached u.in_flight) u

-- The call `handle` of `fetchToken` settles. It makes a request and reads what comes of it only where
-- the service is configured; where it is not, it rejects whatever `exchange` is.
unfoldable pub settle : ServiceTokenModuleOptions → ℕ → ℕ → Exchange → System → System
unfolding read_exchange cache_token
settle options now handle exchange u = record u {
  cached = cache_token now (read_exchange options exchange) u.cached;
  started = without handle u.started;
  settled = handle ∷ u.settled;
}

-- The `finally` of `handle`, and with it the callers that await it.
unfoldable pub finish : ℕ → System → System
finish handle u = record u {
  in_flight = none;
  settled = without handle u.settled;
  waiting = without handle u.waiting;
}

unfoldable pub invalidate : System → System
invalidate u = record u { cached = none }

pub data Step (options : ServiceTokenModuleOptions) (u v : System) : Type 0 where
  calls : (now : ℕ) → v ≡ call options now u → Step options u v
  settles :
      (now handle : ℕ) (exchange : Exchange)
      → any (λ h. h == handle) u.started ≡ true
      → v ≡ settle options now handle exchange u
      → Step options u v
  finishes :
      (handle : ℕ)
      → any (λ h. h == handle) u.settled ≡ true
      → v ≡ finish handle u
      → Step options u v
  invalidates : v ≡ invalidate u → Step options u v

pub data Reach (options : ServiceTokenModuleOptions) (u : System) : System → Type 0 where
  here : Reach options u u
  next : {v w : System} → Reach options u v → Step options v w → Reach options u w
