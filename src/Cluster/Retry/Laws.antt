-- ===== src/Cluster/Retry/Laws.antt =====
-- How often retryWithDelay calls, and what it gives.
use mathlib.Core.Path.{subst}
use uds_core.Prelude.{
  ℕ, zero, suc, ◌+◌, ◌<◌, Option, some, ok, err, ◌≡◌, ◌⊎◌, inl, inr, refl, arith, Result-cases, ap,
  sym,
}
use uds_core.Cluster.{Call}
use uds_core.Cluster.Retry.{Exit, returned, thrown, retry_loop, retry_with_delay}

module _ {W : Type 0} {A : Type 0} {E : Type 0} (fn : Call W A E) (wait : W → W) where
  -- The state before the call after `k` calls and delays.
  abbrev pub before : ℕ → W → W
  before zero w = w
  before (suc k) w = before k (wait (fn w).0)

  -- The first `k` calls fail.
  abbrev pub AllFail : ℕ → W → Type 0
  AllFail zero w = Unit
  AllFail (suc k) w = (e : E) × ((fn w).1 ≡ err e) × AllFail k (wait (fn w).0)

  -- The call after `k` failures succeeds, and the loop gives its result.
  pub record Succeeds (left k : ℕ) (w : W) (out : Option (W × Exit A E)) : Type 0 where
    pub result : A
    pub early : k < left
    pub failed : AllFail k w
    pub call : (fn (before k w)).1 ≡ ok result
    pub given : out ≡ some ((fn (before k w)).0, returned result)

  -- All calls fail, and the loop throws the error of the last.
  pub record Fails (left k : ℕ) (w : W) (out : Option (W × Exit A E)) : Type 0 where
    pub error : E
    pub last : suc k ≡ left
    pub failed : AllFail k w
    pub call : (fn (before k w)).1 ≡ err error
    pub given : out ≡ some ((fn (before k w)).0, thrown error)

  -- One more failure before the rest.
  later :
      (left : ℕ) (w : W) (out : Option (W × Exit A E)) (e : E)
      → (fn w).1 ≡ err e
      → ((k : ℕ) × Succeeds left k (wait (fn w).0) out)
        ⊎ ((k : ℕ) × Fails left k (wait (fn w).0) out)
      → ((k : ℕ) × Succeeds (suc left) k w out) ⊎ ((k : ℕ) × Fails (suc left) k w out)
  later left w out e bad (inl (j, s)) = inl (
    suc j,
    record {
      result = s.result;
      early = let h = s.early in ground arith;
      failed = (e, bad, s.failed);
      call = s.call;
      given = s.given;
    },
  )
  later left w out e bad (inr (j, f)) = inr (
    suc j,
    record {
      error = f.error;
      last = ap suc f.last;
      failed = (e, bad, f.failed);
      call = f.call;
      given = f.given;
    },
  )

  last_round :
      (fuel retries attempt : ℕ) (w : W) (e : E)
      → attempt + 1 ≡ retries
      → (fn w).1 ≡ err e
      → retry_loop fn wait (suc fuel) retries attempt w ≡ some ((fn w).0, thrown e)
  unfolding retry_loop
  last_round fuel retries attempt w e total bad = ground (arith, bad)

  next_round :
      (fuel retries attempt left : ℕ) (w : W) (e : E)
      → attempt + suc (suc left) ≡ retries
      → (fn w).1 ≡ err e
      → retry_loop fn wait (suc fuel) retries attempt w
        ≡ retry_loop fn wait fuel retries (suc attempt) (wait (fn w).0)
  unfolding retry_loop
  next_round fuel retries attempt left w e total bad = ground (arith, bad)

  done :
      (fuel retries attempt : ℕ) (w : W) (a : A)
      → attempt < retries
      → (fn w).1 ≡ ok a
      → retry_loop fn wait (suc fuel) retries attempt w ≡ some ((fn w).0, returned a)
  unfolding retry_loop
  done fuel retries attempt w a more good = ground (arith, good)

  abbrev pub Ends : ℕ → W → Option (W × Exit A E) → Type 0
  Ends left w out = ((k : ℕ) × Succeeds left k w out) ⊎ ((k : ℕ) × Fails left k w out)

  -- A failed round, with what the rest of the loop gives.
  failing :
      (fuel retries attempt : ℕ) (w : W) (e : E)
      → (fn w).1 ≡ err e
      → (left : ℕ) → attempt + suc left ≡ retries
      → ((m : ℕ)
          → suc m ≡ left
          → Ends
              (suc m)
              (wait (fn w).0)
              (retry_loop fn wait fuel retries (suc attempt) (wait (fn w).0)))
      → Ends (suc left) w (retry_loop fn wait (suc fuel) retries attempt w)
  failing fuel retries attempt w e bad zero total rest = inr (
    0,
    record {
      error = e;
      last = refl;
      failed = tt;
      call = bad;
      given = last_round fuel retries attempt w e total bad;
    },
  )
  failing fuel retries attempt w e bad (suc left) total rest =
      subst (Ends (suc (suc left)) w) (sym (next_round fuel retries attempt left w e total bad))
        (later (suc left) w _ e bad (rest left refl))

  loop_lem :
      (fuel retries attempt left : ℕ) (w : W)
      → attempt + suc left ≡ retries
      → left < fuel
      → Ends (suc left) w (retry_loop fn wait fuel retries attempt w)
  loop_lem zero retries attempt left w total enough = absurd (ground arith)
  loop_lem (suc fuel) retries attempt left w total enough = elim (Result-cases (fn w).1) [
    | inl (a, good) ↦ inl (
      0,
      record {
        result = a;
        early = ground arith;
        failed = tt;
        call = good;
        given = done fuel retries attempt w a (ground arith) good;
      },
    )
    | inr (e, bad) ↦ failing fuel retries attempt w e bad left total (λ m more.
        loop_lem fuel retries (suc attempt) m (wait (fn w).0) (ground arith) (ground arith))
  ]

  -- With at least one attempt allowed, the loop comes to its end: either fewer calls than allowed
  -- fail, the next one succeeds and its result is returned, or all the calls that are allowed
  -- fail and the error of the last is thrown. The error behind the loop is never thrown.
  pub retry_with_delay-Ends :
      (retries : ℕ) (w : W) → 0 < retries → Ends retries w (retry_with_delay fn wait retries w)
  unfolding retry_with_delay
  retry_with_delay-Ends zero w h = absurd (ground arith)
  retry_with_delay-Ends (suc n) w h =
      loop_lem (suc (suc n)) (suc n) 0 n w (ground arith) (ground arith)
