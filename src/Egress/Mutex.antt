-- ===== src/Egress/Mutex.antt =====
-- performEgressReconciliationWithMutex of pepr/operator/controllers/istio/egress.ts, as what its
-- callers and the running reconciliation do to `reconcileInFlight` and `reconcileDirty` between two
-- awaits.
use mathlib.Core.Path.{subst}
use uds_core.Prelude.{
  ℕ, suc, ◌<◌, ◌≤◌, Bool, true, false, List, [], ◌∷◌, if◌then◌else◌, ◌≡◌, ◌⊎◌, inl, inr, refl, sym,
  ◌∙◌, arith, All, Bool-cases,
}

-- No reconciliation in flight; a pass running; and the loop left, without an error or with one, but
-- the mutex not cleared yet.
pub data Flight : Type 0 where
  idle running : Flight
  left : Bool → Flight

-- `passes` counts the passes that have begun. `joined` has, for each caller since the mutex was last
-- clear that came while a pass ran or that started the first one, the number of passes begun
-- before it; `late` those that came when the loop was left.
pub record Mutex : Type 0 where
  pub flight : Flight
  pub dirty : Bool
  pub passes : ℕ
  pub joined : List ℕ
  pub late : List ℕ

abbrev pub free : Mutex
free = record { flight = idle; dirty = false; passes = 0; joined = []; late = [] }

-- A call of the function, up to its first await. With nothing in flight the loop starts, and its
-- first round clears the flag and begins a pass at once.
abbrev pub request_in : Flight → Mutex → Mutex
request_in idle m = record {
  flight = running;
  dirty = false;
  passes = suc m.passes;
  joined = m.passes ∷ [];
  late = [];
}
request_in running m = record m { flight = running; dirty = true; joined = m.passes ∷ m.joined }
request_in (left fine) m = record m { flight = left fine; dirty = true; late = m.passes ∷ m.late }

unfoldable pub request : Mutex → Mutex
request m = request_in m.flight m

-- The end of a pass: the test of the loop, or its error.
abbrev pub pass_ended_in : Flight → Bool → Mutex → Mutex
pass_ended_in running true m =
    let again = record m { flight = running; dirty = false; passes = suc m.passes } in
    let done = record m { flight = left true } in if m.dirty then again else done
pass_ended_in running false m = record m { flight = left false }
pass_ended_in idle fine m = m
pass_ended_in (left x) fine m = m

unfoldable pub pass_ended : Bool → Mutex → Mutex
pass_ended fine m = pass_ended_in m.flight fine m

-- The `finally` of the caller that started the loop.
abbrev pub clear_in : Flight → Mutex → Mutex
clear_in (left x) m = record m { flight = idle; joined = []; late = [] }
clear_in idle m = m
clear_in running m = m

unfoldable pub clear : Mutex → Mutex
clear m = clear_in m.flight m

pub data Run : Mutex → Type 0 where
  start : Run free
  requested : {m : Mutex} → Run m → Run (request m)
  ended : {m : Mutex} → Run m → (fine : Bool) → Run (pass_ended fine m)
  cleared : {m : Mutex} → Run m → Run (clear m)

-- A caller is served by a pass begun after it, or the flag says that one will be.
abbrev IsKept : Flight → Mutex → Type 0
IsKept idle m = m.joined ≡ []
IsKept running m = All (λ t. (t ≤ m.passes) × ((t < m.passes) ⊎ (m.dirty ≡ true))) m.joined
IsKept (left true) m = All (λ t. t < m.passes) m.joined
IsKept (left false) m = Unit

All-weaken : {P Q : ℕ → Type 0} → ((t : ℕ) → P t → Q t) → (ts : List ℕ) → All P ts → All Q ts
All-weaken f [] h = tt
All-weaken f (t ∷ ts) (p, h) = (f t p, All-weaken f ts h)

abbrev Kept : Mutex → Type 0
Kept m = IsKept m.flight m

request-Kept : (f : Flight) (m : Mutex) → IsKept f m → Kept (request_in f m)
request-Kept idle m h = ((ground arith, inl (ground arith)), tt)
request-Kept running m h =
    ((ground arith, inr refl), All-weaken (λ t p. (p.0, inr refl)) m.joined h)
request-Kept (left true) m h = h
request-Kept (left false) m h = tt

ended-Kept :
    (f : Flight) (fine : Bool) (m : Mutex)
    → m.flight ≡ f
    → IsKept f m
    → Kept (pass_ended_in f fine m)
ended-Kept running true m e h = elim (Bool-cases m.dirty) [
  | inl again ↦
      rw again (All-weaken (λ t p. let b = p.0 in (ground arith, inl (ground arith))) m.joined h)
  | inr done ↦ rw done (All-weaken (λ t p. let q = p.1 in ground (arith, done)) m.joined h)
]
ended-Kept running false m e h = tt
ended-Kept idle fine m e h = rw e h
ended-Kept (left true) fine m e h = rw e h
ended-Kept (left false) fine m e h = rw e h

clear-Kept : (f : Flight) (m : Mutex) → m.flight ≡ f → IsKept f m → Kept (clear_in f m)
clear-Kept (left x) m e h = refl
clear-Kept idle m e h = rw e h
clear-Kept running m e h = rw e h

Run-Kept : {m : Mutex} → Run m → Kept m
unfolding request pass_ended clear
Run-Kept start = refl
Run-Kept (requested {m} r) = request-Kept m.flight m (Run-Kept r)
Run-Kept (ended {m} r fine) = ended-Kept m.flight fine m refl (Run-Kept r)
Run-Kept (cleared {m} r) = clear-Kept m.flight m refl (Run-Kept r)

-- When the loop has been left without an error, a pass that began after it has served every
-- request that came since the mutex was clear and while the loop ran.
served : {m : Mutex} → Run m → m.flight ≡ left true → All (λ t. t < m.passes) m.joined
served {m} r e = subst (λ f. IsKept f m) e (Run-Kept r)

ends_twice :
    (m : Mutex) → m.flight ≡ running → (pass_ended true (pass_ended true m)).flight ≡ left true
unfolding pass_ended
ends_twice m e = elim (Bool-cases m.dirty) [
  | inl again ↦ rw e (rw again refl)
  | inr done ↦ rw e (rw done refl)
]

-- However requests and passes interleave: once the loop is left without an error, each request that
-- came while it ran has been followed by a pass begun after it; and while a pass runs, two passes
-- that end without an error, and no further request, leave the loop.
pub Run-served :
    {m : Mutex}
    → Run m
    → (m.flight ≡ left true → All (λ t. t < m.passes) m.joined)
      × (m.flight ≡ running → (pass_ended true (pass_ended true m)).flight ≡ left true)
Run-served {m} r = (served r, ends_twice m)

-- The calls that came when the loop had been left know the number of passes.
abbrev IsLate : Flight → Mutex → Type 0
IsLate idle m = m.late ≡ []
IsLate running m = m.late ≡ []
IsLate (left x) m = All (λ t. t ≡ m.passes) m.late

abbrev Late : Mutex → Type 0
Late m = IsLate m.flight m

request-Late : (f : Flight) (m : Mutex) → IsLate f m → Late (request_in f m)
request-Late idle m h = refl
request-Late running m h = h
request-Late (left x) m h = (refl, h)

ended-Late :
    (f : Flight) (fine : Bool) (m : Mutex)
    → m.flight ≡ f
    → IsLate f m
    → Late (pass_ended_in f fine m)
ended-Late running true m e h = elim (Bool-cases m.dirty) [
  | inl again ↦ rw again h
  | inr done ↦ rw done (rw h tt)
]
ended-Late running false m e h = rw h tt
ended-Late idle fine m e h = rw e h
ended-Late (left x) fine m e h = rw e h

clear-Late : (f : Flight) (m : Mutex) → m.flight ≡ f → IsLate f m → Late (clear_in f m)
clear-Late (left x) m e h = refl
clear-Late idle m e h = rw e h
clear-Late running m e h = rw e h

Run-Late : {m : Mutex} → Run m → Late m
unfolding request pass_ended clear
Run-Late start = refl
Run-Late (requested {m} r) = request-Late m.flight m (Run-Late r)
Run-Late (ended {m} r fine) = ended-Late m.flight fine m refl (Run-Late r)
Run-Late (cleared {m} r) = clear-Late m.flight m refl (Run-Late r)

-- What the loop and the caller that started it may do while nobody else calls.
pub data Quiet : Type 0 where
  pass_end : Bool → Quiet
  clearing : Quiet

abbrev quiet_step : Quiet → Mutex → Mutex
quiet_step (pass_end fine) m = pass_ended fine m
quiet_step clearing m = clear m

abbrev pub go_on : List Quiet → Mutex → Mutex
go_on [] m = m
go_on (q ∷ qs) m = go_on qs (quiet_step q m)

abbrev IsOver : Flight → Type 0
IsOver idle = Unit
IsOver running = ⊥
IsOver (left x) = Unit

IsOver-pass_ended :
    (f : Flight) (fine : Bool) (m : Mutex)
    → m.flight ≡ f
    → IsOver f
    → IsOver (pass_ended_in f fine m).flight × ((pass_ended_in f fine m).passes ≡ m.passes)
IsOver-pass_ended idle fine m e h = rw e (tt, refl)
IsOver-pass_ended running fine m e h = absurd h
IsOver-pass_ended (left x) fine m e h = rw e (tt, refl)

IsOver-clear :
    (f : Flight) (m : Mutex)
    → m.flight ≡ f
    → IsOver f
    → IsOver (clear_in f m).flight × ((clear_in f m).passes ≡ m.passes)
IsOver-clear idle m e h = rw e (tt, refl)
IsOver-clear running m e h = absurd h
IsOver-clear (left x) m e h = (tt, refl)

IsOver-quiet_step :
    (q : Quiet) (m : Mutex)
    → IsOver m.flight
    → IsOver (quiet_step q m).flight × ((quiet_step q m).passes ≡ m.passes)
unfolding pass_ended clear
IsOver-quiet_step (pass_end fine) m h = IsOver-pass_ended m.flight fine m refl h
IsOver-quiet_step clearing m h = IsOver-clear m.flight m refl h

-- Without a call, no pass begins once the loop has been left.
passes-go_on : (qs : List Quiet) (m : Mutex) → IsOver m.flight → (go_on qs m).passes ≡ m.passes
passes-go_on [] m h = refl
passes-go_on (q ∷ qs) m h =
    let (over, same) = IsOver-quiet_step q m h in passes-go_on qs (quiet_step q m) over ∙ same

-- In every state that calls and passes lead to: a call that comes when the loop has been left and
-- the mutex is not cleared yet is followed by no pass, nor is any call that came there before it.
-- Whatever the loop and its caller still do, the number of passes that have begun is the one that
-- each of these calls found, until somebody calls again.
pub late_request-unserved :
    {m : Mutex} {x : Bool}
    → Run m
    → m.flight ≡ left x
    → (qs : List Quiet) → All (λ t. t ≡ (go_on qs (request m)).passes) (m.passes ∷ m.late)
unfolding request
late_request-unserved {m} {x} r e qs =
    let same : m.passes ≡ (go_on qs (request m)).passes =
      sym (passes-go_on qs (request m) (rw e tt) ∙ rw e refl) in
    (same, All-weaken (λ t h. h ∙ same) m.late (subst (λ f. IsLate f m) e (Run-Late r)))
