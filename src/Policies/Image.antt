-- ===== src/Policies/Image.antt =====
-- pepr/policies/common.ts: image references, over their code points. `zarf` is the address of the
-- Zarf registry that the environment gives.
use uds_core.Prelude.{
  ℕ, Bool, true, false, not, ◌&&◌, ◌||◌, Option, none, some, List, [], ◌∷◌, nat_eq, leb,
  if◌then◌else◌, any, codes,
}
use mathlib.Core.List.{reverse}

abbrev pub Text : Type 0
Text = List ℕ

abbrev pub text_eq : Text → Text → Bool
text_eq [] [] = true
text_eq (c ∷ cs) (d ∷ ds) = nat_eq c d && text_eq cs ds
text_eq _ _ = false

-- The white space of `trim`.
abbrev pub is_space : ℕ → Bool
is_space c =
    leb 9 c && leb c 13
    || nat_eq c 32
    || nat_eq c 160
    || nat_eq c 5760
    || leb 8192 c && leb c 8202
    || nat_eq c 8232
    || nat_eq c 8233
    || nat_eq c 8239
    || nat_eq c 8287
    || nat_eq c 12288
    || nat_eq c 65279

unfoldable pub trim_start : Text → Text
trim_start [] = []
trim_start (c ∷ cs) = let rest = trim_start cs in if is_space c then rest else c ∷ cs

unfoldable pub trim : Text → Text
unfolding trim_start
trim s = reverse (trim_start (reverse (trim_start s)))

abbrev pub has : ℕ → Text → Bool
has c = any (λ d. nat_eq d c)

abbrev pub is_tag_start : ℕ → Bool
is_tag_start c = nat_eq c b'@' || nat_eq c b':'

abbrev pub is_empty : Text → Bool
is_empty [] = true
is_empty (c ∷ cs) = false

-- `.replace(/[@:][^/]+$/, "")`: the leftmost `@` or `:` with a rest that is not empty and has no
-- slash, and that rest.
unfoldable pub strip_tag : Text → Text
strip_tag [] = []
strip_tag (c ∷ cs) =
    let rest = c ∷ strip_tag cs in
    if is_tag_start c && not (is_empty cs) && not (has b'/' cs) then [] else rest

-- The text before the first slash, and the text after it, if there is one. `split("/")` and
-- `slice(1).join("/")` are used for no more than that.
unfoldable pub first_part : Text → Text
first_part [] = []
first_part (c ∷ cs) = let rest = c ∷ first_part cs in if nat_eq c b'/' then [] else rest

unfoldable pub after_slash : Text → Text
after_slash [] = []
after_slash (c ∷ cs) = let rest = after_slash cs in if nat_eq c b'/' then cs else rest

pub record ImageRef : Type 0 where
  pub registry : Text
  pub repository : Text

abbrev pub is_registry : Text → Bool
is_registry s = has b'.' s || has b':' s || text_eq s (codes "localhost")

unfoldable pub split_ref : Text → Option ImageRef
unfolding first_part after_slash
split_ref s =
    if is_registry (first_part s)
    then (if is_empty (after_slash s)
        then none
        else some (record { registry = first_part s; repository = after_slash s }))
    else some (record { registry = codes "docker.io"; repository = s })

unfoldable pub parse_image_ref : Text → Option ImageRef
unfolding split_ref trim strip_tag
parse_image_ref s = if is_empty (trim s) then none else split_ref (strip_tag (trim s))

-- ISTIO_IMAGE_FLAVOR_CONFIGS
abbrev pub flavors : List ImageRef
flavors =
    record { registry = codes "docker.io"; repository = codes "istio/proxyv2" }
    ∷ record {
      registry = codes "registry1.dso.mil";
      repository = codes "ironbank/tetrate/istio/proxyv2";
    }
    ∷ record {
      registry = codes "cgr.dev";
      repository = codes "defenseunicorns.com/istio-proxy-fips";
    }
    ∷ []

-- The loop of `validateIstioImage`.
unfoldable pub known_image : Text → ImageRef → List ImageRef → Bool
known_image zarf ref [] = false
known_image zarf ref (f ∷ fs) =
    let rest = known_image zarf ref fs in
    if text_eq f.repository ref.repository
    then text_eq ref.registry f.registry || text_eq ref.registry zarf
    else rest

unfoldable pub validate_istio_image : Text → Text → Bool
unfolding parse_image_ref known_image
validate_istio_image zarf s = elim (parse_image_ref s) [
  | none ↦ false
  | some ref ↦ known_image zarf ref flavors
]
