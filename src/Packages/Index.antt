-- ===== src/Packages/Index.antt =====
-- The two indexes of pepr/operator/controllers/packages/package-store.ts: maps from a key (a
-- client id, or a gateway with a port) to the set of namespaces that use it.
use uds_core.Prelude.{
  String, Bool, not, ◌&&◌, ◌||◌, Option, none, some, List, [], ◌∷◌, ◌++◌, ◌==◌, if◌then◌else◌,
  filter, includes, get_or, Dict, lookup, insert, delete, ◌≡◌, refl, arith, eq_iff, lookup-insert,
  lookup-delete, ◌∙◌, Option-cases, inl, inr,
}

abbrev pub Index : Type 0
Index = Dict (List String)

-- `new Set()` with `add`, `delete` and `has`.
abbrev pub set_add : String → List String → List String
set_add x xs = if includes xs x then xs else xs ++ x ∷ []

abbrev pub set_delete : String → List String → List String
set_delete x xs = filter (λ y. not (y == x)) xs

-- One round of the loops of `addIndexes`.
pub index_add : String → String → Index → Index
index_add key ns idx = insert key (set_add ns (get_or (lookup key idx) [])) idx

abbrev shrink : String → Index → List String → Index
shrink key idx [] = delete key idx
shrink key idx (n ∷ ns) = insert key (n ∷ ns) idx

abbrev remove_from : String → String → Index → Option (List String) → Index
remove_from key ns idx none = idx
remove_from key ns idx (some xs) = shrink key idx (set_delete ns xs)

-- One round of the loops of `removeIndexes`: a set that becomes empty goes away.
pub index_remove : String → String → Index → Index
index_remove key ns idx = remove_from key ns idx (lookup key idx)

unfoldable pub index_add_all : List String → String → Index → Index
unfolding index_add
index_add_all [] ns idx = idx
index_add_all (k ∷ ks) ns idx = index_add_all ks ns (index_add k ns idx)

unfoldable pub index_remove_all : List String → String → Index → Index
unfolding index_remove
index_remove_all [] ns idx = idx
index_remove_all (k ∷ ks) ns idx = index_remove_all ks ns (index_remove k ns idx)

-- `index.get(key) ?? new Set()`
abbrev pub find : Index → String → List String
find idx key = get_or (lookup key idx) []

abbrev pub holds : Index → String → String → Bool
holds idx key ns = includes (find idx key) ns

includes-append :
    (xs : List String) (x y : String) → includes (xs ++ x ∷ []) y ≡ (includes xs y || x == y)
includes-append [] x y = ground arith
includes-append (z ∷ xs) x y = ground (arith, includes-append xs x y)

includes-set_add :
    (xs : List String) (x y : String) → includes (set_add x xs) y ≡ (includes xs y || x == y)
includes-set_add xs x y = ground (arith, includes-append xs x y, eq_iff x y)

includes-set_delete :
    (xs : List String) (x y : String)
    → includes (set_delete x xs) y ≡ (includes xs y && not (x == y))
includes-set_delete [] x y = refl
includes-set_delete (z ∷ xs) x y =
    ground (arith, includes-set_delete xs x y, eq_iff z x, eq_iff z y, eq_iff x y)

holds-index_add :
    (key ns : String) (idx : Index) (j m : String)
    → holds (index_add key ns idx) j m ≡ (holds idx j m || (key == j && ns == m))
unfolding index_add
holds-index_add key ns idx j m = ground (
  arith,
  lookup-insert key j (set_add ns (find idx key)) idx,
  includes-set_add (find idx key) ns m,
  eq_iff key j,
)

holds-shrink :
    (key : String) (idx : Index) (xs : List String) (j m : String)
    → holds (shrink key idx xs) j m ≡ (if key == j then includes xs m else holds idx j m)
holds-shrink key idx [] j m = ground (arith, lookup-delete key j idx)
holds-shrink key idx (x ∷ xs) j m = ground (arith, lookup-insert key j (x ∷ xs) idx)

holds-index_remove :
    (key ns : String) (idx : Index) (j m : String)
    → holds (index_remove key ns idx) j m ≡ (holds idx j m && not (key == j && ns == m))
unfolding index_remove
holds-index_remove key ns idx j m = elim (Option-cases (lookup key idx)) [
  | inl e ↦ ground (arith, e, eq_iff key j)
  | inr (xs, e) ↦ ground (
    arith,
    e,
    eq_iff key j,
    holds-shrink key idx (set_delete ns xs) j m,
    includes-set_delete xs ns m,
  )
]

-- What the loops leave: a namespace uses a key if it did before, or if it was added with it.
pub holds-index_add_all :
    (ks : List String) (ns : String) (idx : Index) (j m : String)
    → holds (index_add_all ks ns idx) j m ≡ (holds idx j m || (includes ks j && ns == m))
unfolding index_add_all
holds-index_add_all [] ns idx j m = ground arith
holds-index_add_all (k ∷ ks) ns idx j m =
    holds-index_add_all ks ns (index_add k ns idx) j m
    ∙ ground (arith, holds-index_add k ns idx j m)

pub holds-index_remove_all :
    (ks : List String) (ns : String) (idx : Index) (j m : String)
    → holds (index_remove_all ks ns idx) j m ≡ (holds idx j m && not (includes ks j && ns == m))
unfolding index_remove_all
holds-index_remove_all [] ns idx j m = ground arith
holds-index_remove_all (k ∷ ks) ns idx j m =
    holds-index_remove_all ks ns (index_remove k ns idx) j m
    ∙ ground (arith, holds-index_remove k ns idx j m)
