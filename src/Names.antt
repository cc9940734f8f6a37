-- ===== src/Names.antt =====
-- pepr/operator/controllers/utils.ts: `sanitizeResourceName`, over code points. `lower` stands for
-- `toLowerCase`.
pub mod Laws
pub mod Tests
pub mod Generated
use uds_core.Prelude.{
  ℕ, suc, zero, Bool, true, false, ◌&&◌, ◌||◌, List, [], ◌∷◌, leb, if◌then◌else◌,
}

abbrev pub Text : Type 0
Text = List ℕ

abbrev pub is_letter : ℕ → Bool
is_letter c = leb b'a' c && leb c b'z'

abbrev pub is_alnum : ℕ → Bool
is_alnum c = is_letter c || leb b'0' c && leb c b'9'

-- `.replace(/[^a-z0-9]+/g, "-")`; the flag says that the run has its dash already.
unfoldable pub collapse : Bool → Text → Text
collapse run [] = []
collapse run (c ∷ cs) =
    let after = collapse false cs in
    let later = collapse true cs in
    if is_alnum c then c ∷ after else if run then later else b'-' ∷ later

-- `.slice(0, n)`
unfoldable pub take : ℕ → Text → Text
take zero cs = []
take (suc n) [] = []
take (suc n) (c ∷ cs) = c ∷ take n cs

-- `.replace(/^[^a-z]+|[^a-z]+$/g, "")`
unfoldable pub trim_front : Text → Text
trim_front [] = []
trim_front (c ∷ cs) = let rest = trim_front cs in if is_letter c then c ∷ cs else rest

abbrev pub keep : ℕ → Text → Text
keep c [] = if is_letter c then c ∷ [] else []
keep c (d ∷ ds) = c ∷ d ∷ ds

unfoldable pub trim_end : Text → Text
trim_end [] = []
trim_end (c ∷ cs) = keep c (trim_end cs)

unfoldable pub sanitize_resource_name : (Text → Text) → Text → Text
sanitize_resource_name lower name = trim_end (trim_front (take 250 (collapse false (lower name))))
