-- ===== src/Validator/Exposes/Laws.antt =====
-- Which exposed services the package validator takes.
pub mod Keys
use uds_core.Prelude.{
  ℕ, String, Bool, true, false, not, ◌&&◌, ◌||◌, Option, none, some, List, [], ◌∷◌, ◌++◌, map,
  get_or, given, is_some, includes, codes, starts_with, Result, ok, ◌>>◌, if◌then◌else◌, ◌≡◌, ◌≢◌,
  ◌⊎◌, ◌↔◌, inl, inr, refl, arith, All, All-iff, All-map_iff, IsDistinct, IsFresh, IsFresh-iff,
  Bool-cases,
}
use uds_core.Crd.Package.{Expose}
use uds_core.Names.{Text}
use uds_core.Names.Generated.{sanitize, generate_vs_name, Config, get_fqdn}
use uds_core.Packages.Index.{find}
use uds_core.Packages.Store.{Store}
use uds_core.Validator.{Refusal, has_text}
use uds_core.Validator.Guards.{
  NoneHolds, NoneHolds-append, Passes, Passes->>, text_eq_iff, has_text-false, includes-false,
}
use uds_core.Validator.Exposes.{
  Seen, nothing_seen, is_standard, is_passthrough, is_udp, is_http, nonzero, has_direct_response,
  paths_of, nonempty, port_key, taken, gateway_guards, route_name, udp_guards, http_guards,
  path_guards, uptime_guards, expose_guards, note_expose, head_or_false, tail, check_exposes,
}

-- A UDP route: none of the settings of HTTP, and a port of its gateway that no other namespace
-- holds alone.
pub record IsUdpRoute (store : Store) (ns : String) (had_match : Bool) (e : Expose) : Type 0 where
  pub no_host : is_some e.host ≡ false
  pub no_domain : is_some e.domain ≡ false
  pub no_match : had_match ≡ false
  pub no_advanced : is_some e.advanced_http ≡ false
  pub no_uptime : is_some e.uptime ≡ false
  pub no_pod_labels : is_some e.pod_labels ≡ false
  pub free : taken (find store.udp_index (port_key e.gateway e.port)) ns ≡ false

pub record IsHttpRoute (e : Expose) : Type 0 where
  pub host : given e.host ≡ true
  pub standard : given e.gateway ≡ true → is_standard e.gateway ≡ true → given e.domain ≡ false
  pub passthrough : is_passthrough e.gateway ≡ true → is_some e.advanced_http ≡ false
  pub direct :
      has_direct_response e.advanced_http ≡ true
      → (given e.service ≡ false)
        × (is_some e.selector ≡ false)
        × (nonzero e.port ≡ false)
        × (nonzero e.target_port ≡ false)
  pub paths : All (λ p. starts_with (codes p) (codes "/") ≡ true) (paths_of e.uptime)

not-eq-false : (b : Bool) → (not b ≡ false) ↔ (b ≡ true)
not-eq-false b = ground arith

module _ (lower : Text → Text) where
  -- A gateway that is not one of the three has a name that Kubernetes takes.
  abbrev pub HasGateway : Expose → Type 0
  HasGateway e =
      given e.gateway ≡ true
      → is_standard e.gateway ≡ false
      → sanitize lower (get_or e.gateway "") ≡ codes (get_or e.gateway "")

  pub gateway_iff : (e : Expose) → NoneHolds (gateway_guards lower e) ↔ HasGateway e
  gateway_iff e =
      let g = get_or e.gateway "" in
      let (t, t') = text_eq_iff (sanitize lower g) (codes g) in
      (λ (h, _). λ a b. t (ground arith), λ h. (ground (arith, h, t'), tt))

  pub udp_iff :
      (store : Store) (name ns : String) (had_match : Bool) (seen : Seen) (e : Expose)
      → NoneHolds (udp_guards lower store name ns had_match seen e) ↔ (
          All (λ t. t ≢ route_name lower name e) seen.routes
          × All (λ t. t ≢ port_key e.gateway e.port) seen.ports
          × IsUdpRoute store ns had_match e)
  udp_iff store name ns had_match seen e =
      let (r, r') = has_text-false seen.routes (route_name lower name e) in
      let (p, p') = includes-false seen.ports (port_key e.gateway e.port) in
      (
        λ (a, (b, (c, (d, (f, (g, (h, (i, (j, _))))))))). (
          r h,
          p i,
          record {
            no_host = a;
            no_domain = b;
            no_match = c;
            no_advanced = d;
            no_uptime = f;
            no_pod_labels = g;
            free = j;
          },
        ),
        λ (h, i, u). (
          u.no_host,
          (
            u.no_domain,
            (
              u.no_match,
              (u.no_advanced, (u.no_uptime, (u.no_pod_labels, (r' h, (p' i, (u.free, tt)))))),
            ),
          ),
        ),
      )

  paths_iff :
      (paths : List String)
      → NoneHolds (path_guards paths) ↔ All (λ p. starts_with (codes p) (codes "/") ≡ true) paths
  paths_iff paths =
      let slash = λ (p : String). starts_with (codes p) (codes "/") in
      let (to, from) =
        All-map_iff (λ (g : Bool × Refusal). g.0 ≡ false) (λ p. (not (slash p), Refusal.bad_path p))
          paths in
      let (f, g) =
        All-iff {P = λ p. not (slash p) ≡ false} {Q = λ p. slash p ≡ true}
          (λ p. not-eq-false (slash p)) paths in
      (λ h. f (to h), λ h. from (g h))

  pub http_iff :
      (config : Config) (name : String) (seen : Seen) (e : Expose)
      → is_udp e.protocol ≡ false
      → NoneHolds (http_guards lower name seen e ++ uptime_guards config seen e) ↔ (
          All (λ t. t ≢ generate_vs_name lower name e) seen.services
          × (nonempty (paths_of e.uptime) ≡ true → All (λ t. t ≢ get_fqdn config e) seen.fqdns)
          × IsHttpRoute e)
  http_iff config name seen e http =
      let (s, s') = has_text-false seen.services (generate_vs_name lower name e) in
      let (f, f') = includes-false seen.fqdns (get_fqdn config e) in
      let (p, p') = paths_iff (paths_of e.uptime) in
      let last : Bool × Refusal = (
        nonempty (paths_of e.uptime) && includes seen.fqdns (get_fqdn config e),
        Refusal.duplicate_fqdn (get_fqdn config e),
      ) in
      let (to, from) =
        NoneHolds-append (http_guards lower name seen e) (uptime_guards config seen e) in
      let (to', from') = NoneHolds-append (path_guards (paths_of e.uptime)) (last ∷ []) in
      (
        λ h.
            let ((a, (b, (c, (d, (g, (n, _)))))), up) = to h in
            let (paths, (q, _)) = to' up in
            (
              s n,
              λ some_path. f (ground arith),
              record {
                host = ground arith;
                standard = λ x y. ground arith;
                passthrough = λ x. ground arith;
                direct = λ x. (ground arith, ground arith, ground arith, ground arith);
                paths = p paths;
              },
            ),
        λ (n, q, r).
            let a = r.host in
            let b = r.standard in
            let c = r.passthrough in
            let d = r.direct in
            from (
              (
                ground arith,
                (ground arith, (ground arith, (ground arith, (ground arith, (s' n, tt))))),
              ),
              from' (p' r.paths, (ground (arith, f'), tt)),
            ),
      )
