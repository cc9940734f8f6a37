-- ===== src/Names/Laws.antt =====
-- Which names the sanitizer gives, and which it leaves alone.
use uds_core.Prelude.{
  ℕ, suc, zero, ◌≤◌, Bool, true, false, not, ◌&&◌, [], ◌∷◌, nat_eq, if◌then◌else◌, length, ◌≡◌, ap,
  refl, arith,
}
use uds_core.Names.{
  Text, is_letter, is_alnum, collapse, take, trim_front, keep, trim_end, sanitize_resource_name,
}

-- Letters, digits and dashes, no two of them dashes in a row; the flag says that a dash came before.
abbrev pub single : Bool → Text → Bool
single dash [] = true
single dash (c ∷ cs) =
    let after = single false cs in
    let later = single true cs in if is_alnum c then after else not dash && nat_eq c b'-' && later

abbrev pub starts : Text → Bool
starts [] = true
starts (c ∷ cs) = is_letter c

abbrev pub ends : Text → Bool
ends [] = true
ends (c ∷ []) = is_letter c
ends (c ∷ d ∷ ds) = ends (d ∷ ds)

-- A name that Kubernetes takes, or the empty text.
pub record IsName (t : Text) : Type 0 where
  pub plain : single false t ≡ true
  pub short : length t ≤ 250
  pub first : starts t ≡ true
  pub last : ends t ≡ true

single-collapse : (r : Bool) (t : Text) → single r (collapse r t) ≡ true
unfolding collapse
single-collapse r [] = refl
single-collapse true (c ∷ cs) = ground (arith, single-collapse true cs, single-collapse false cs)
single-collapse false (c ∷ cs) = ground (arith, single-collapse true cs, single-collapse false cs)

collapse_same : (r : Bool) (t : Text) → single r t ≡ true → collapse r t ≡ t
unfolding collapse
collapse_same r [] h = refl
collapse_same true (c ∷ cs) h = ground (arith, h, collapse_same true cs, collapse_same false cs)
collapse_same false (c ∷ cs) h = ground (arith, h, collapse_same true cs, collapse_same false cs)

single-take : (n : ℕ) (r : Bool) (t : Text) → single r t ≡ true → single r (take n t) ≡ true
unfolding take
single-take zero r t h = refl
single-take (suc n) r [] h = refl
single-take (suc n) r (c ∷ cs) h = ground (arith, h, single-take n true cs, single-take n false cs)

length-take : (n : ℕ) (t : Text) → length (take n t) ≤ n
unfolding take
length-take zero t = ground arith
length-take (suc n) [] = ground arith
length-take (suc n) (c ∷ cs) = ground (arith, length-take n cs)

take_same : (n : ℕ) (t : Text) → length t ≤ n → take n t ≡ t
unfolding take
take_same zero [] h = refl
take_same zero (c ∷ cs) h = absurd (ground arith)
take_same (suc n) [] h = refl
take_same (suc n) (c ∷ cs) h = ap (λ x. c ∷ x) (take_same n cs (ground arith))

single-trim_front : (r : Bool) (t : Text) → single r t ≡ true → single false (trim_front t) ≡ true
unfolding trim_front
single-trim_front r [] h = refl
single-trim_front r (c ∷ cs) h =
    ground (arith, h, single-trim_front true cs, single-trim_front false cs)

starts-trim_front : (t : Text) → starts (trim_front t) ≡ true
unfolding trim_front
starts-trim_front [] = refl
starts-trim_front (c ∷ cs) = ground (arith, starts-trim_front cs)

length-trim_front : (t : Text) → length (trim_front t) ≤ length t
unfolding trim_front
length-trim_front [] = ground arith
length-trim_front (c ∷ cs) = ground (arith, length-trim_front cs)

trim_front_same : (t : Text) → starts t ≡ true → trim_front t ≡ t
unfolding trim_front
trim_front_same [] h = refl
trim_front_same (c ∷ cs) h = ground (arith, h)

-- What one character before a trimmed rest keeps.
single-keep : (r : Bool) (c : ℕ) (t : Text) → single r (c ∷ t) ≡ true → single r (keep c t) ≡ true
single-keep r c [] h = ground (arith, h)
single-keep r c (d ∷ ds) h = h

single-trim_end : (r : Bool) (t : Text) → single r t ≡ true → single r (trim_end t) ≡ true
unfolding trim_end
single-trim_end r [] h = refl
single-trim_end r (c ∷ cs) h =
    single-keep r c (trim_end cs)
      (ground (arith, h, single-trim_end true cs, single-trim_end false cs))

starts-keep : (c : ℕ) (t : Text) → is_letter c ≡ true → starts (keep c t) ≡ true
starts-keep c [] h = ground (arith, h)
starts-keep c (d ∷ ds) h = h

starts-trim_end : (t : Text) → starts t ≡ true → starts (trim_end t) ≡ true
unfolding trim_end
starts-trim_end [] h = refl
starts-trim_end (c ∷ cs) h = starts-keep c (trim_end cs) h

ends-keep : (c : ℕ) (t : Text) → ends t ≡ true → ends (keep c t) ≡ true
ends-keep c [] h = ground arith
ends-keep c (d ∷ ds) h = h

ends-trim_end : (t : Text) → ends (trim_end t) ≡ true
unfolding trim_end
ends-trim_end [] = refl
ends-trim_end (c ∷ cs) = ends-keep c (trim_end cs) (ends-trim_end cs)

length-keep : (c : ℕ) (t : Text) → length (keep c t) ≤ suc (length t)
length-keep c [] = ground arith
length-keep c (d ∷ ds) = ground arith

length-trim_end : (t : Text) → length (trim_end t) ≤ length t
unfolding trim_end
length-trim_end [] = ground arith
length-trim_end (c ∷ cs) = ground (arith, length-keep c (trim_end cs), length-trim_end cs)

trim_end_same : (t : Text) → ends t ≡ true → trim_end t ≡ t
unfolding trim_end
trim_end_same [] h = refl
trim_end_same (c ∷ []) h = ground (arith, h)
trim_end_same (c ∷ d ∷ ds) h = ap (keep c) (trim_end_same (d ∷ ds) h)

sanitized-IsName : (lower : Text → Text) (t : Text) → IsName (sanitize_resource_name lower t)
unfolding sanitize_resource_name
sanitized-IsName lower t =
    let cut = take 250 (collapse false (lower t)) in
    record {
      plain = single-trim_end false (trim_front cut) (
          single-trim_front false cut
            (single-take 250 false (collapse false (lower t)) (single-collapse false (lower t))));
      short = ground (
        arith,
        length-trim_end (trim_front cut),
        length-trim_front cut,
        length-take 250 (collapse false (lower t)),
      );
      first = starts-trim_end (trim_front cut) (starts-trim_front cut);
      last = ends-trim_end (trim_front cut);
    }

sanitize_same :
    (lower : Text → Text) (t : Text) → lower t ≡ t → IsName t → sanitize_resource_name lower t ≡ t
unfolding sanitize_resource_name
sanitize_same lower t l n = rw l (
    rw (collapse_same false t n.plain)
      (rw (take_same 250 t n.short) (rw (trim_front_same t n.first) (trim_end_same t n.last))))

-- If lower-casing leaves alone a text of lower-case letters, digits and single dashes, then the
-- sanitizer always gives a text of at most 250 such characters that is empty or begins and ends
-- with a letter, leaves such texts alone, and so does nothing the second time.
pub sanitize_resource_name-IsName :
    (lower : Text → Text)
    → ((t : Text) → single false t ≡ true → lower t ≡ t)
    → (name : Text)
    → IsName (sanitize_resource_name lower name)
      × (IsName name → sanitize_resource_name lower name ≡ name)
      × (sanitize_resource_name lower (sanitize_resource_name lower name)
          ≡ sanitize_resource_name lower name)
sanitize_resource_name-IsName lower fixed name =
    let good = sanitized-IsName lower name in
    (
      good,
      λ n. sanitize_same lower name (fixed name n.plain) n,
      sanitize_same lower (sanitize_resource_name lower name)
          (fixed (sanitize_resource_name lower name) good.plain) good,
    )
