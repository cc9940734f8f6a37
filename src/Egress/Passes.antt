-- ===== src/Egress/Passes.antt =====
-- performEgressReconciliation of pepr/operator/controllers/istio/egress.ts: one pass over the two
-- modes. The calls of each mode are a parameter.
use uds_core.Prelude.{
  ℕ, ◌+◌, String, Bool, true, false, List, [], ◌∷◌, ◌++◌, join, concat, show, if◌then◌else◌, Result,
  ok, err, ◌≡◌, ◌↔◌, refl, arith,
}
use uds_core.Cluster.{Call}

-- validateNamespace with `true`, which says whether the namespace is there; and the application and
-- the purge of the shared resources.
pub record Mode (W : Type 0) (E : Type 0) : Type 0 where
  pub is_deployed : Call W Bool E
  pub apply : ℕ → Call W (Unit {0}) E
  pub purge : String → Call W (Unit {0}) E

-- The state after a mode, its generation, and whether it failed.
pub record ModeEnd (W : Type 0) : Type 0 where
  pub world : W
  pub generation : ℕ
  pub failed : Bool

-- sidecarGeneration and ambientGeneration.
pub record Generations : Type 0 where
  pub sidecar : ℕ
  pub ambient : ℕ

abbrev message : Bool → String → List String
message failed m = if failed then m ∷ [] else []

abbrev raised : List String → Result (Unit {0}) String
raised [] = ok tt
raised (m ∷ ms) = err (concat ("Egress reconciliation failed: " ∷ join "; " (m ∷ ms) ∷ []))

raised_iff :
    (s a : Bool) (m n : String)
    → (raised (message s m ++ message a n) ≡ ok tt) ↔ ((s ≡ false) × (a ≡ false))
raised_iff true a m n = (λ h. cc, λ (x, y). absurd (ground arith))
raised_iff false true m n = (λ h. cc, λ (x, y). absurd (ground arith))
raised_iff false false m n = (λ h. (refl, refl), λ h. refl)

module _ {W : Type 0} {E : Type 0} where
  abbrev ended : ℕ → W × Result (Unit {0}) E → ModeEnd W
  ended n (w, ok u) = record { world = w; generation = n; failed = false }
  ended n (w, err e) = record { world = w; generation = n; failed = true }

  abbrev applied : Mode W E → ℕ → W × Result (Unit {0}) E → ModeEnd W
  applied m n (w, ok u) = ended n (m.purge (show n) w)
  applied m n (w, err e) = record { world = w; generation = n; failed = true }

  abbrev found : Mode W E → ℕ → W × Result Bool E → ModeEnd W
  found m n (w, ok true) = applied m (n + 1) (m.apply (n + 1) w)
  found m n (w, ok false) = record { world = w; generation = n; failed = false }
  found m n (w, err e) = record { world = w; generation = n; failed = true }

  -- The `try` block of one mode.
  unfoldable pub pass_mode : Mode W E → ℕ → W → ModeEnd W
  pass_mode m n w = found m n (m.is_deployed w)

  unfoldable pub perform_egress_reconciliation :
      Mode W E → Mode W E → Generations → W → (W × Generations) × Result (Unit {0}) String
  perform_egress_reconciliation sidecar ambient g w =
      let s = pass_mode sidecar g.sidecar w in
      let a = pass_mode ambient g.ambient s.world in
      (
        (a.world, record { sidecar = s.generation; ambient = a.generation }),
        raised (
            message s.failed "Failed to reconcile sidecar egress resources"
            ++ message a.failed "Failed to reconcile ambient egress resources"),
      )

  -- A mode that did not fail and was deployed has applied the next generation, and then purged by it.
  pub record IsPassed (m : Mode W E) (n : ℕ) (w : W) (out : ModeEnd W) : Type 0 where
    pub ok_apply : (m.apply (n + 1) (m.is_deployed w).0).1 ≡ ok tt
    pub ok_purge : (m.purge (show (n + 1)) (m.apply (n + 1) (m.is_deployed w).0).0).1 ≡ ok tt
    pub last : out.world ≡ (m.purge (show (n + 1)) (m.apply (n + 1) (m.is_deployed w).0).0).0
    pub next : out.generation ≡ n + 1

  ended-eq :
      (n : ℕ) (p : W × Result (Unit {0}) E)
      → (ended n p).failed ≡ false
      → (p.1 ≡ ok tt) × ((ended n p).world ≡ p.0) × ((ended n p).generation ≡ n)
  ended-eq n (w, ok u) h = (refl, refl, refl)
  ended-eq n (w, err e) h = absurd (ground arith)

  applied-eq :
      (m : Mode W E) (n : ℕ) (p : W × Result (Unit {0}) E)
      → (applied m n p).failed ≡ false
      → (p.1 ≡ ok tt)
        × ((m.purge (show n) p.0).1 ≡ ok tt)
        × ((applied m n p).world ≡ (m.purge (show n) p.0).0)
        × ((applied m n p).generation ≡ n)
  applied-eq m n (w, ok u) h =
      let (done, last, next) = ended-eq n (m.purge (show n) w) h in (refl, done, last, next)
  applied-eq m n (w, err e) h = absurd (ground arith)

  -- The shared resources of a deployed mode that did not fail are those of the next generation, and
  -- what an older generation left has been purged after that.
  pub pass_mode-IsPassed :
      (m : Mode W E) (n : ℕ) (w : W)
      → (m.is_deployed w).1 ≡ ok true
      → (pass_mode m n w).failed ≡ false
      → IsPassed m n w (pass_mode m n w)
  unfolding pass_mode
  pass_mode-IsPassed m n w there h = passed (m.is_deployed w).1 there h
    where
      passed :
          (r : Result Bool E)
          → r ≡ ok true
          → (found m n ((m.is_deployed w).0, r)).failed ≡ false
          → IsPassed m n w (found m n ((m.is_deployed w).0, r))
      passed (ok true) e f =
          let (a, b, c, d) = applied-eq m (n + 1) (m.apply (n + 1) (m.is_deployed w).0) f in
          record { ok_apply = a; ok_purge = b; last = c; next = d }
      passed (ok false) e f = absurd (ground arith)
      passed (err x) e f = absurd (ground arith)

  -- A pass succeeds exactly when neither mode fails; the second mode is tried in either case.
  pub perform_egress_reconciliation-eq-ok :
      (sidecar ambient : Mode W E) (g : Generations) (w : W)
      → ((perform_egress_reconciliation sidecar ambient g w).1 ≡ ok tt) ↔ (
          ((pass_mode sidecar g.sidecar w).failed ≡ false)
          × ((pass_mode ambient g.ambient (pass_mode sidecar g.sidecar w).world).failed ≡ false))
  unfolding perform_egress_reconciliation
  perform_egress_reconciliation-eq-ok sidecar ambient g w = raised_iff _ _ _ _
