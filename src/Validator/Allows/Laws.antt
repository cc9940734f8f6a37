-- ===== src/Validator/Allows/Laws.antt =====
-- Which allow rules the package validator takes.
use uds_core.Prelude.{
  ℕ, ◌+◌, String, Bool, true, false, Option, List, [], ◌∷◌, ◌++◌, map, get_or, given, codes,
  contains, if◌then◌else◌, ◌≡◌, ◌≢◌, ◌⊎◌, ◌↔◌, refl, arith, All, IsDistinct, IsFresh, IsFresh-iff,
}
use uds_core.Crd.Package.{Allow, Mode}
use uds_core.Names.{Text}
use uds_core.Validator.Guards.{NoneHolds, NoneHolds-append, Passes, Passes->>, has_text-false}
use uds_core.Validator.Allows.{
  is_l7, is_tcp, is_udp, is_tcp_only, is_anywhere, is_egress, is_ambient, by_generated, by_pods,
  by_cidr, by_host, remote_guards, protocol_guards, policy_name, name_guards, check_allows,
}

abbrev one : Bool → ℕ
one b = if b then 1 else 0

-- How many kinds of remote a rule has.
abbrev pub kinds : Allow → ℕ
kinds a = one (by_generated a) + one (by_pods a) + one (by_cidr a) + one (by_host a)

pub record IsRemote (a : Allow) : Type 0 where
  pub one_kind : kinds a ≡ 1
  pub l7 : is_l7 a.remote_protocol ≡ true → by_host a ≡ true

pub record IsReachable (mode : Mode) (a : Allow) : Type 0 where
  pub udp :
      is_udp a.remote_protocol ≡ true
      → (is_tcp_only a.remote_generated ≡ false) × (by_host a ≡ false)
  pub tcp : is_tcp a.remote_protocol ≡ true → by_host a ≡ false
  pub outward :
      by_host a ≡ true
      → (is_egress a.direction ≡ true)
        × (contains (codes (get_or a.remote_host "")) (codes "*") ≡ false)
  pub l7_outward : is_l7 a.remote_protocol ≡ true → is_egress a.direction ≡ true
  pub account :
      given a.service_account ≡ true
      → (is_ambient mode ≡ true)
        × ((by_host a ≡ true)
            ⊎ ((is_anywhere a.remote_generated ≡ true) × (is_egress a.direction ≡ true)))

remote_guards-IsRemote : (a : Allow) → NoneHolds (remote_guards a) ↔ IsRemote a
unfolding remote_guards
remote_guards-IsRemote a = (
  λ h. record { one_kind = ground arith; l7 = λ e. ground arith },
  λ h.
      let n = h.one_kind in
      let l = h.l7 in (ground arith, (ground arith, (ground arith, (ground arith, tt)))),
)

protocol_iff : (mode : Mode) (a : Allow) → NoneHolds (protocol_guards mode a) ↔ IsReachable mode a
unfolding protocol_guards
protocol_iff mode a = (
  λ h. record {
    udp = λ e. (ground arith, ground arith);
    tcp = λ e. ground arith;
    outward = λ e. (ground arith, ground arith);
    l7_outward = λ e. ground arith;
    account = λ e. ground arith;
  },
  λ h.
      let u = h.udp in
      let t = h.tcp in
      let o = h.outward in
      let l = h.l7_outward in
      let s = h.account in
      (
        ground arith,
        (ground arith, (ground arith, (ground arith, (ground arith, (ground arith, tt))))),
      ),
)

module _ (lower : Text → Text) (pkg_name : Option String) where
  abbrev pub names : List Allow → List Text
  names rules = map (policy_name lower pkg_name) rules

module _ (lower : Text → Text) (mode : Mode) (pkg_name : Option String) where
  fresh_iff :
      (seen : List Text) (a : Allow)
      → NoneHolds (name_guards lower pkg_name seen a)
        ↔ All (λ t. t ≢ policy_name lower pkg_name a) seen
  fresh_iff seen a =
      let (to, from) = has_text-false seen (policy_name lower pkg_name a) in
      (λ (e, u). to e, λ h. (from h, tt))

  abbrev pub IsAllowed : Allow → Type 0
  IsAllowed a = IsRemote a × IsReachable mode a

  loop_iff :
      (seen : List Text) (rules : List Allow)
      → Passes (check_allows lower mode pkg_name seen rules)
        ↔ (All IsAllowed rules × IsFresh seen (names lower pkg_name rules))
  unfolding check_allows
  loop_iff seen [] = (λ h. (tt, tt), λ h. (seen, refl))
  loop_iff seen (a ∷ rules) =
      let name = policy_name lower pkg_name a in
      let tests = protocol_guards mode a ++ name_guards lower pkg_name seen a in
      let (to, from) =
        Passes->> (remote_guards a ++ tests)
          (check_allows lower mode pkg_name (name ∷ seen) rules) in
      let (to1, from1) = NoneHolds-append (remote_guards a) tests in
      let (to2, from2) =
        NoneHolds-append (protocol_guards mode a) (name_guards lower pkg_name seen a) in
      let (r, r') = remote_guards-IsRemote a in
      let (p, p') = protocol_iff mode a in
      let (f, f') = fresh_iff seen a in
      let (ih, hi) = loop_iff (name ∷ seen) rules in
      (
        λ h.
            let (chain, later) = to h in
            let (x, others) = to1 chain in
            let (y, n) = to2 others in
            let (good, fresh) = ih later in (((r x, p y), good), (f n, fresh)),
        λ (((x, y), good), (n, fresh)). from (from1 (r' x, from2 (p' y, f' n)), hi (good, fresh)),
      )

  -- The validator takes a list of allow rules exactly when each of them has one kind of remote
  -- (generated, namespace or pods, address range, or host) that fits its protocol, direction and
  -- service account, and the names of their network policies all differ.
  pub check_allows_iff :
      (rules : List Allow)
      → Passes (check_allows lower mode pkg_name [] rules)
        ↔ (All IsAllowed rules × IsDistinct (names lower pkg_name rules))
  check_allows_iff rules =
      let (to, from) = loop_iff [] rules in
      let (d, e) = IsFresh-iff (names lower pkg_name rules) in
      (
        λ h. let (good, fresh) = to h in (good, d fresh),
        λ (good, distinct). from (good, e distinct),
      )
