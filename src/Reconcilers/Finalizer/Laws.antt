-- ===== src/Reconcilers/Finalizer/Laws.antt =====
-- When the finalizer reports success, every cleanup has been done.
use mathlib.Core.Path.{subst}
use uds_core.Prelude.{
  if◌then◌else◌, Bool, ℕ, zero, suc, String, Bool, true, Option, none, some, List, [], ◌∷◌, Result,
  ok, err, ◌≡◌, ◌⊎◌, ◌∙◌, inl, inr, refl, sym, ap, arith, All, Bool-cases, Result-cases,
}
use uds_core.Crd.Package.{Package, Phase}
use uds_core.Cluster.{Call}
use uds_core.Cluster.Retry.Laws.{before, retry_with_delay-Ends}
use uds_core.Reconcilers.{
  State, Thrown, Event, Cluster, Patch, bare_patch, phase_of, is_removing, update_status,
}
use uds_core.Reconcilers.Finalizer.{
  Cleanup, announcement, cleanups, has_default_mode_udp_expose, is_settled, prepare, retried,
  announce, run_cleanup, attempt, refused, mark_failed, give_up, finalize, started,
  package_finalizer,
}

-- What a cleanup achieves once it is prepared, and that nothing else that the finalizer does undoes
-- it. What the preparation achieves lasts until then.
pub record Achieves {W : Type 0} (cluster : Cluster W)
    (clean : Cleanup → Package → Call W (Unit {0}) Thrown) (remove_entry : Package → W → W)
    (pkg : Package) (Prepared Done : Cleanup → W → Type 0) : Type 0 where
  pub prepared : (c : Cleanup) (w : W) → Prepared c (prepare cluster clean remove_entry c pkg w)
  pub tried : (c : Cleanup) (w : W) → Prepared c w → Prepared c (clean c pkg w).0
  pub delayed : (c : Cleanup) (ms : ℕ) (w : W) → Prepared c w → Prepared c (cluster.wait ms w)
  pub done :
      (c : Cleanup) (w : W) (u : Unit {0})
      → Prepared c w
      → (clean c pkg w).1 ≡ ok u
      → Done c (clean c pkg w).0
  pub removed : (c : Cleanup) (w : W) → Done c w → Done c (remove_entry pkg w)
  pub cleaned : (c d : Cleanup) (w : W) → Done c w → Done c (clean d pkg w).0
  pub patched :
      (c : Cleanup) (p : Patch) (w : W) → Done c w → Done c (cluster.patch_status pkg p w).0
  pub noted : (c : Cleanup) (e : Event) (w : W) → Done c w → Done c (cluster.create_event pkg e w).0
  pub waited : (c : Cleanup) (ms : ℕ) (w : W) → Done c w → Done c (cluster.wait ms w)

module _ {W : Type 0} (cluster : Cluster W) (clean : Cleanup → Package → Call W (Unit {0}) Thrown)
    (remove_entry : Package → W → W) (pkg : Package) (Prepared Done : Cleanup → W → Type 0)
    (a : Achieves cluster clean remove_entry pkg Prepared Done) where
  abbrev wait : W → W
  wait = cluster.wait 2000

  kept-before : (c d : Cleanup) (k : ℕ) (w : W) → Done c w → Done c (before (clean d pkg) wait k w)
  kept-before c d zero w h = h
  kept-before c d (suc k) w h =
      kept-before c d k (wait (clean d pkg w).0) (a.waited c 2000 _ (a.cleaned c d w h))

  ready-before :
      (d : Cleanup) (k : ℕ) (w : W) → Prepared d w → Prepared d (before (clean d pkg) wait k w)
  ready-before d zero w h = h
  ready-before d (suc k) w h =
      ready-before d k (wait (clean d pkg w).0) (a.delayed d 2000 _ (a.tried d w h))

  kept-prepare :
      (c d : Cleanup) (w : W) → Done c w → Done c (prepare cluster clean remove_entry d pkg w)
  kept-prepare c Cleanup.gateway w h = a.removed c w h
  kept-prepare c Cleanup.istio w h = h
  kept-prepare c Cleanup.authservice w h = h
  kept-prepare c Cleanup.sso w h = h
  kept-prepare c Cleanup.blackbox w h = h
  kept-prepare c Cleanup.egress w h = h

  retried-eq :
      (d : Cleanup) (w : W)
      → ((k : ℕ) × (u : Unit {0}) × ((clean d pkg (before (clean d pkg) wait k w)).1 ≡ ok u)
          × (retried cluster clean remove_entry d pkg w
              ≡ ((clean d pkg (before (clean d pkg) wait k w)).0, ok tt)))
        ⊎ ((k : ℕ) × (e : Thrown) × (retried cluster clean remove_entry d pkg w
              ≡ ((clean d pkg (before (clean d pkg) wait k w)).0, err e)))
  unfolding retried
  retried-eq d w = elim (retry_with_delay-Ends (clean d pkg) wait 5 w (ground arith)) [
    | inl (k, s) ↦ inl (k, s.result, s.call, rw s.given refl)
    | inr (k, f) ↦ inr (k, f.error, rw f.given refl)
  ]

  kept-retried :
      (c d : Cleanup) (w : W) → Done c w → Done c (retried cluster clean remove_entry d pkg w).0
  kept-retried c d w h = elim (retried-eq d w) [
    | inl (k, u, call, e) ↦ rw e (a.cleaned c d _ (kept-before c d k w h))
    | inr (k, x, e) ↦ rw e (a.cleaned c d _ (kept-before c d k w h))
  ]

  done-retried :
      (d : Cleanup) (w : W) (u : Unit {0})
      → Prepared d w
      → (retried cluster clean remove_entry d pkg w).1 ≡ ok u
      → Done d (retried cluster clean remove_entry d pkg w).0
  done-retried d w u h good = elim (retried-eq d w) [
    | inl (k, v, call, e) ↦ rw e (a.done d _ v (ready-before d k w h) call)
    | inr (k, x, e) ↦
        let bad : ◌≡◌ {A = Result (Unit {0}) Thrown} (err x) (ok u) =
          sym (ap (λ p. p.1) e) ∙ good in
        absurd (ground arith)
  ]

  kept-announce :
      (c : Cleanup) (m : Option String) (s : State W)
      → Done c s.world
      → Done c (announce cluster clean remove_entry pkg m s).0.world
  kept-announce c none s h = h
  kept-announce c (some m) s h = a.noted c _ s.world h

  -- The part of an attempt behind its event.
  kept-run :
      (c d : Cleanup) (p : State W × Result (Unit {0}) Thrown)
      → Done c p.0.world
      → Done c (run_cleanup cluster clean remove_entry d pkg p).0.world
  kept-run c d (s, ok u) h = kept-retried c d _ (kept-prepare c d s.world h)
  kept-run c d (s, err e) h = h

  done-run :
      (d : Cleanup) (p : State W × Result (Unit {0}) Thrown) (u : Unit {0})
      → (run_cleanup cluster clean remove_entry d pkg p).1 ≡ ok u
      → Done d (run_cleanup cluster clean remove_entry d pkg p).0.world
  done-run d (s, ok v) u good = done-retried d _ u (a.prepared d s.world) good
  done-run d (s, err e) u good = absurd (ground arith)

  refused-not_true :
      (p : State W × Result (Unit {0}) Thrown)
      → (refused cluster clean remove_entry p).1 ≡ ok true
      → ⊥
  refused-not_true (s, ok u) h = ground arith
  refused-not_true (s, err e) h = ground arith

  mark_failed-not_true :
      (p : State W × Result (Unit {0}) Thrown)
      → (mark_failed cluster clean remove_entry pkg p).1 ≡ ok true
      → ⊥
  mark_failed-not_true (s, ok u) h = refused-not_true _ h
  mark_failed-not_true (s, err e) h = ground arith

  give_up-not_true :
      (c : Cleanup) (e : Thrown) (s : State W)
      → (give_up cluster clean remove_entry c pkg e s).1 ≡ ok true
      → ⊥
  unfolding give_up
  give_up-not_true c (Thrown.failure e) s h = mark_failed-not_true _ h
  give_up-not_true c Thrown.undefined s h = ground arith

  finalize_next :
      (c : Cleanup) (cs : List Cleanup) (s : State W) (u : Unit {0})
      → (attempt cluster clean remove_entry c pkg s).1 ≡ ok u
      → finalize cluster clean remove_entry pkg (c ∷ cs) s
        ≡ finalize cluster clean remove_entry pkg cs (attempt cluster clean remove_entry c pkg s).0
  unfolding finalize
  finalize_next c cs s u good = rw (good, finalize) refl

  finalize_stop :
      (c : Cleanup) (cs : List Cleanup) (s : State W) (e : Thrown)
      → (attempt cluster clean remove_entry c pkg s).1 ≡ err e
      → finalize cluster clean remove_entry pkg (c ∷ cs) s
        ≡ give_up cluster clean remove_entry c pkg e (attempt cluster clean remove_entry c pkg s).0
  unfolding finalize
  finalize_stop c cs s e bad = rw (bad, finalize) refl

  done-attempt :
      (d : Cleanup) (s : State W) (u : Unit {0})
      → (attempt cluster clean remove_entry d pkg s).1 ≡ ok u
      → Done d (attempt cluster clean remove_entry d pkg s).0.world
  unfolding attempt
  done-attempt d s u good =
      done-run d (announce cluster clean remove_entry pkg (announcement d) s) u good

  kept-attempt :
      (c d : Cleanup) (s : State W)
      → Done c s.world
      → Done c (attempt cluster clean remove_entry d pkg s).0.world
  unfolding attempt
  kept-attempt c d s h =
      kept-run c d (announce cluster clean remove_entry pkg (announcement d) s)
        (kept-announce c (announcement d) s h)

  finalize-done :
      (cs : List Cleanup) (s : State W)
      → (finalize cluster clean remove_entry pkg cs s).1 ≡ ok true
      → All (λ c. Done c (finalize cluster clean remove_entry pkg cs s).0.world) cs
        × ((d : Cleanup)
            → Done d s.world
            → Done d (finalize cluster clean remove_entry pkg cs s).0.world)
  unfolding finalize
  finalize-done [] s h = (tt, λ d k. k)
  finalize-done (c ∷ cs) s h = elim (Result-cases (attempt cluster clean remove_entry c pkg s).1) [
    | inl (u, good) ↦
        let next = finalize_next c cs s u good in
        let s' = (attempt cluster clean remove_entry c pkg s).0 in
        let (all, keep) = finalize-done cs s' (sym (ap (λ p. p.1) next) ∙ h) in
        subst
          (λ (out : State W × Result Bool Thrown).
            All (λ x. Done x out.0.world) (c ∷ cs)
            × ((d : Cleanup) → Done d s.world → Done d out.0.world))
          (sym next) ((keep c (done-attempt c s u good), all), λ d k. keep d (kept-attempt d c s k))
    | inr (e, bad) ↦ absurd (
        give_up-not_true c e (attempt cluster clean remove_entry c pkg s).0
          (sym (ap (λ p. p.1) (finalize_stop c cs s e bad)) ∙ h))
  ]

  started-done :
      (p : State W × Result (Unit {0}) Thrown)
      → (started cluster clean remove_entry pkg p).1 ≡ ok true
      → All (λ c. Done c (started cluster clean remove_entry pkg p).0.world) (cleanups pkg)
  started-done (s, ok u) h = (finalize-done (cleanups pkg) s h).0
  started-done (s, err e) h = absurd (ground arith)

  -- The achievements of a package's cleanups.
  pub record IsCleaned (w : W) : Type 0 where
    pub istio : Done Cleanup.istio w
    pub authservice : Done Cleanup.authservice w
    pub sso : Done Cleanup.sso w
    pub blackbox : Done Cleanup.blackbox w
    pub egress : Done Cleanup.egress w
    pub gateway : has_default_mode_udp_expose pkg ≡ true → Done Cleanup.gateway w

  all-IsCleaned : (w : W) → All (λ c. Done c w) (cleanups pkg) → IsCleaned w
  unfolding cleanups
  all-IsCleaned w (i, (a, (s, (b, (e, g))))) = record {
    istio = i;
    authservice = a;
    sso = s;
    blackbox = b;
    egress = e;
    gateway = λ udp. last (has_default_mode_udp_expose pkg) udp g;
  }
    where
      last :
          (b : Bool)
          → b ≡ true
          → All (λ c. Done c w) (if b then Cleanup.gateway ∷ [] else [])
          → Done Cleanup.gateway w
      last true e (d, _) = d
      last Bool.false e h = absurd (ground arith)

  -- Suppose that a cleanup achieves something when its call succeeds in a state that its preparation
  -- has left (for the gateway, the package's listeners are removed from the map once, before the
  -- retries; the others have none), and that the other calls keep it. If the finalizer says that it
  -- may be taken off the package, then the package was ready or had failed before, and what the
  -- cleanups of the mesh state of the namespace, of the authservice configuration, of the clients,
  -- of the probes and of the shared egress achieve holds at the end; so does that of the listeners,
  -- if the package exposes UDP on the default gateway.
  pub package_finalizer-IsCleaned :
      (s : State W)
      → (package_finalizer cluster clean remove_entry pkg s).1 ≡ ok true
      → (is_settled (phase_of pkg.status) ≡ true)
        × IsCleaned (package_finalizer cluster clean remove_entry pkg s).0.world
  unfolding package_finalizer
  package_finalizer-IsCleaned s h = elim (Bool-cases (is_removing (phase_of pkg.status))) [
    | inl removing ↦ absurd (ground (arith, removing, h))
    | inr other ↦ elim (Bool-cases (is_settled (phase_of pkg.status))) [
      | inl settled ↦
          let p = update_status cluster pkg (bare_patch Phase.removing) s in
          let runs : package_finalizer cluster clean remove_entry pkg s
              ≡ started cluster clean remove_entry pkg p =
            rw (other, settled, package_finalizer) refl in
          (
            settled,
            subst (λ (out : State W × Result Bool Thrown). IsCleaned out.0.world) (sym runs)
                (all-IsCleaned _ (started-done p (sym (ap (λ q. q.1) runs) ∙ h))),
          )
      | inr waiting ↦ absurd (ground (arith, other, waiting, h))
    ]
  ]
