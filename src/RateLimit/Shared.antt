-- ===== src/RateLimit/Shared.antt =====
-- One Redis, all callers: src/rate-limit/rate-limit.service.ts over the script that Redis runs.
--
-- The client has the command and Redis answers. The requests come in the order in which Redis runs
-- the script, each with Redis's own clock and, in its input, the clock of its process. A key expires
-- once Redis's clock has come to the end of the time to live that the script's last run gave it.
pub mod Bound
use iveri_nest_sdk.Common.{
  ℕ, ◌+◌, Bool, true, false, leb, ◌&&◌, Option, none, some, List, [], ◌∷◌, if◌then◌else◌,
}
use iveri_nest_sdk.Common.Text.{Text, text_eq}
use iveri_nest_sdk.RateLimit.Bucket.{Args, Bucket, Reply, Run, token_bucket, run_on}
use iveri_nest_sdk.RateLimit.Service.{
  ConsumeInput, Decision, Client, Service, args_of, key_of, consume,
}

-- A key's hash, and when it expires, if it does.
pub record Entry : Type 0 where
  pub bucket : Bucket
  pub expires_at : Option ℕ

abbrev pub Store : Type 0
Store = Text → Option Entry

abbrev pub put : Text → Entry → Store → Store
put key e store k = if text_eq k key then some e else store k

abbrev is_expired : ℕ → Option ℕ → Bool
is_expired at none = false
is_expired at (some t) = leb t at

-- What the script finds: an expired key is no key.
abbrev pub live : ℕ → Option Entry → Option Entry
live at none = none
live at (some e) = if is_expired at e.expires_at then none else some e

abbrev pub run_at : Option Entry → Args → Run
run_at none args = token_bucket args none none
run_at (some e) args = run_on args e.bucket

-- HSET keeps the time to live that there was; PEXPIRE, unless it fails, sets another.
abbrev pub expiry_of : ℕ → Option Entry → Option (ℕ × Reply) → Option ℕ
expiry_of at found (some (ttl, reply)) = some (at + ttl)
expiry_of at none none = none
expiry_of at (some e) none = e.expires_at

abbrev pub entry_after : ℕ → Option Entry → Args → Entry
entry_after at found args = record {
  bucket = (run_at found args).bucket;
  expires_at = expiry_of at found (run_at found args).outcome;
}

abbrev pub reply_in : Option (ℕ × Reply) → Option Reply
reply_in none = none
reply_in (some (ttl, reply)) = some reply

abbrev pub client_of : ℕ → Store → Client
client_of at store = record {
  takes_command = true;
  iveri_token_bucket = λ key args. reply_in (run_at (live at (store key)) args).outcome;
}

-- A request, and Redis's clock where it runs the script for it.
pub record Request : Type 0 where
  pub at : ℕ
  pub input : ConsumeInput

-- One request: the decision, and the store and the service after it.
unfoldable pub serve : Text → Request → Store → Service → Decision × Store × Service
unfolding consume
serve namespace r store s =
    let answered = consume namespace (some (client_of r.at store)) r.input s in
    let key = key_of namespace r.input in
    (
      answered.0,
      put key (entry_after r.at (live r.at (store key)) (args_of r.input)) store,
      answered.1,
    )

-- How many requests of the bucket `key` are let through.
unfoldable pub allowed : Text → Text → List Request → Store → Service → ℕ
unfolding serve
allowed namespace key [] store s = 0
allowed namespace key (r ∷ requests) store s =
    let (decision, store', s') = serve namespace r store s in
    (if text_eq key (key_of namespace r.input) && decision.is_allowed then 1 else 0)
    + allowed namespace key requests store' s'
