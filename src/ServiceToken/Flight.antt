-- ===== src/ServiceToken/Flight.antt =====
-- Callers share one exchange, and none of them is left waiting.
use iveri_nest_sdk.Common.{
  ℕ, ◌≡◌, refl, sym, ap, ap₂, ◌∙◌, true, ◌==◌, ==_refl, Option, none, some, List, [], ◌∷◌, arith,
  any, All, ◌||◌, Bool-cases, inl, inr, if◌then◌else◌,
}
use iveri_nest_sdk.ServiceToken.Service.{
  ServiceTokenModuleOptions, Exchange, Answer, at_once, awaiting, get_access_token,
}
use iveri_nest_sdk.ServiceToken.System.{
  System, start_system, without, wait, take_answer, call, settle, finish, invalidate, Step, calls,
  settles, finishes, invalidates, Reach, here, next,
}

-- At most one exchange is under way, it is the one that `inFlight` holds, and all who wait await it.
pub data IsSingle (u : System) : Type 0 where
  idle : u.in_flight ≡ none → u.started ≡ [] → u.settled ≡ [] → u.waiting ≡ [] → IsSingle u
  flying :
      (h : ℕ)
      → u.in_flight ≡ some h
      → u.started ≡ h ∷ []
      → u.settled ≡ []
      → All (λ w. w ≡ h) u.waiting
      → IsSingle u
  landing :
      (h : ℕ)
      → u.in_flight ≡ some h
      → u.started ≡ []
      → u.settled ≡ h ∷ []
      → All (λ w. w ≡ h) u.waiting
      → IsSingle u

All-none : (h : ℕ) (ws : List ℕ) → ws ≡ [] → All (λ w. w ≡ h) ws
All-none h ws e = rw e tt

wait-IsSingle : (f : Option ℕ) (u : System) → u.in_flight ≡ f → IsSingle u → IsSingle (wait f u)
unfolding wait
wait-IsSingle none u e (idle _ s d w) =
    flying u.next refl (ap (λ r. u.next ∷ r) s) d (refl, All-none u.next u.waiting w)
wait-IsSingle none u e (flying h f _ _ _) = absurd (cc)
wait-IsSingle none u e (landing h f _ _ _) = absurd (cc)
wait-IsSingle (some k) u e (idle f _ _ _) = absurd (cc)
wait-IsSingle (some k) u e (flying h f s d w) = flying h f s d (cc, w)
wait-IsSingle (some k) u e (landing h f s d w) = landing h f s d (cc, w)

take_answer-IsSingle : (a : Answer) (u : System) → IsSingle u → IsSingle (take_answer a u)
unfolding take_answer
take_answer-IsSingle (at_once token) u i = i
take_answer-IsSingle (awaiting handle) u i = wait-IsSingle u.in_flight u refl i

only : (k h : ℕ) (hs : List ℕ) → hs ≡ k ∷ [] → any (λ x. x == h) hs ≡ true → h ≡ k
only k h [] e m = absurd (cc)
only k h (x ∷ []) e m = ground (arith, m, e)
only k h (x ∷ y ∷ hs) e m = absurd (cc)

none_of : (h : ℕ) (hs : List ℕ) → hs ≡ [] → any (λ x. x == h) hs ≡ true → ⊥
none_of h [] e m = absurd (cc)
none_of h (x ∷ hs) e m = absurd (cc)

without-All : (h : ℕ) (ws : List ℕ) → All (λ w. w ≡ h) ws → without h ws ≡ []
without-All h [] a = refl
without-All h (w ∷ ws) a = rw (a.0, ==_refl h) (without-All h ws a.1)

settle-IsSingle :
    (options : ServiceTokenModuleOptions) (now handle : ℕ) (exchange : Exchange) (u : System)
    → any (λ h. h == handle) u.started ≡ true
    → IsSingle u
    → IsSingle (settle options now handle exchange u)
unfolding settle
settle-IsSingle options now handle exchange u m (idle f s d w) =
    absurd (none_of handle u.started s m)
settle-IsSingle options now handle exchange u m (flying h f s d w) =
    let same = only h handle u.started s m in
    landing h f (ap (without handle) s ∙ without-All handle (h ∷ []) (sym same, tt))
      (ap₂ ◌∷◌ same d) w
settle-IsSingle options now handle exchange u m (landing h f s d w) =
    absurd (none_of handle u.started s m)

finish-IsSingle :
    (handle : ℕ) (u : System)
    → any (λ h. h == handle) u.settled ≡ true
    → IsSingle u
    → IsSingle (finish handle u)
unfolding finish
finish-IsSingle handle u m (idle f s d w) = absurd (none_of handle u.settled d m)
finish-IsSingle handle u m (flying h f s d w) = absurd (none_of handle u.settled d m)
finish-IsSingle handle u m (landing h f s d w) =
    let same = only h handle u.settled d m in
    idle refl s (ap (without handle) d ∙ without-All handle (h ∷ []) (sym same, tt))
      (rw same (without-All h u.waiting w))

discard-IsSingle : (u : System) → IsSingle u → IsSingle (invalidate u)
unfolding invalidate
discard-IsSingle u (idle f s d w) = idle f s d w
discard-IsSingle u (flying h f s d w) = flying h f s d w
discard-IsSingle u (landing h f s d w) = landing h f s d w

Step-IsSingle :
    (options : ServiceTokenModuleOptions) (u v : System)
    → Step options u v
    → IsSingle u
    → IsSingle v
unfolding call invalidate
Step-IsSingle options u v (calls now e) i =
    rw e (take_answer-IsSingle (get_access_token options now u.next u.cached u.in_flight) u i)
Step-IsSingle options u v (settles now handle exchange m e) i =
    rw e (settle-IsSingle options now handle exchange u m i)
Step-IsSingle options u v (finishes handle m e) i = rw e (finish-IsSingle handle u m i)
Step-IsSingle options u v (invalidates e) i = rw e (discard-IsSingle u i)

Reach-IsSingle :
    (options : ServiceTokenModuleOptions) (u v : System)
    → Reach options u v
    → IsSingle u
    → IsSingle v
Reach-IsSingle options u v here i = i
Reach-IsSingle options u v (next {v = m} r s) i =
    Step-IsSingle options m v s (Reach-IsSingle options u m r i)

-- Whatever the callers do and in whatever order the exchanges come back, at most one exchange with
-- identity is under way, it is the one that later callers join, and every caller who waits awaits
-- that one; while none is under way nobody waits.
pub reachable-IsSingle :
    (options : ServiceTokenModuleOptions) (u : System) → Reach options start_system u → IsSingle u
reachable-IsSingle options u r = Reach-IsSingle options start_system u r (idle refl refl refl refl)

-- No exchange is under way and nobody waits.
pub record IsDone (u : System) : Type 0 where
  pub nobody_waits : u.waiting ≡ []
  pub none_in_flight : u.in_flight ≡ none
  pub none_under_way : (u.started ≡ []) × (u.settled ≡ [])

finish-IsDone :
    (handle : ℕ) (u : System)
    → any (λ h. h == handle) u.settled ≡ true
    → IsSingle u
    → IsDone (finish handle u)
unfolding finish
finish-IsDone handle u m (idle f s d w) = absurd (none_of handle u.settled d m)
finish-IsDone handle u m (flying h f s d w) = absurd (none_of handle u.settled d m)
finish-IsDone handle u m (landing h f s d w) =
    let same = only h handle u.settled d m in
    record {
      nobody_waits = rw same (without-All h u.waiting w);
      none_in_flight = refl;
      none_under_way = (s, ap (without handle) d ∙ without-All handle (h ∷ []) (sym same, tt));
    }

settle-settled :
    (options : ServiceTokenModuleOptions) (now handle : ℕ) (exchange : Exchange) (u : System)
    → any (λ h. h == handle) (settle options now handle exchange u).settled ≡ true
unfolding settle
settle-settled options now handle exchange u = ground (arith, ==_refl handle)

-- The exchange `handle` settles, unless it has, and its `finally` runs.
abbrev pub ended : ServiceTokenModuleOptions → ℕ → ℕ → Exchange → System → System
ended options now handle exchange u =
    finish handle
      (if any (λ h. h == handle) u.started then settle options now handle exchange u else u)

-- Nobody is left waiting, however an exchange ends: from every state that is reached, whatever
-- exchange has not had its `finally` may settle with any outcome, be it a token, a refusal or no
-- answer at all, and then its `finally` run, and after these steps no exchange is under way and no
-- caller waits.
pub waiting-answered :
    (options : ServiceTokenModuleOptions) (u : System) (now handle : ℕ) (exchange : Exchange)
    → Reach options start_system u
    → (any (λ h. h == handle) u.started || any (λ h. h == handle) u.settled) ≡ true
    → Reach options u (ended options now handle exchange u)
      × IsDone (ended options now handle exchange u)
waiting-answered options u now handle exchange r under_way =
    let i = reachable-IsSingle options u r in
    let v = settle options now handle exchange u in
    let settled = settle-settled options now handle exchange u in
    elim (Bool-cases (any (λ h. h == handle) u.started)) [
      | inl m ↦ rw m (
        next (next here (settles now handle exchange m refl)) (finishes handle settled refl),
        finish-IsDone handle v settled (settle-IsSingle options now handle exchange u m i),
      )
      | inr e ↦
          let m : any (λ h. h == handle) u.settled ≡ true = ground (arith, e, under_way) in
          rw e (next here (finishes handle m refl), finish-IsDone handle u m i)
    ]
