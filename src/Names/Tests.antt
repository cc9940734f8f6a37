-- ===== src/Names/Tests.antt =====
-- A run of the sanitizer.
use uds_core.Prelude.{
  ◌+◌, Bool, true, false, [], ◌∷◌, ◌&&◌, leb, if◌then◌else◌, ◌≡◌, refl, arith, codes, map,
}
use uds_core.Names.{Text, sanitize_resource_name, collapse, take, trim_front, trim_end}
use uds_core.Names.Laws.{single, IsName, sanitize_resource_name-IsName}

-- Lower-casing of ASCII texts.
abbrev ascii_lower : Text → Text
ascii_lower cs = map (λ c. if leb b'A' c && leb c b'Z' then c + 32 else c) cs

ascii_lower_same : (r : Bool) (t : Text) → single r t ≡ true → ascii_lower t ≡ t
ascii_lower_same r [] h = refl
ascii_lower_same true (c ∷ cs) h =
    ground (arith, h, ascii_lower_same true cs, ascii_lower_same false cs)
ascii_lower_same false (c ∷ cs) h =
    ground (arith, h, ascii_lower_same true cs, ascii_lower_same false cs)

sanitize_test : sanitize_resource_name ascii_lower (codes "My_App v2.0") ≡ codes "my-app-v"
unfolding sanitize_resource_name collapse take trim_front trim_end
sanitize_test = refl

sanitize_resource_name-IsName_example :
    IsName (sanitize_resource_name ascii_lower (codes "My_App v2.0"))
    × (IsName (codes "My_App v2.0")
        → sanitize_resource_name ascii_lower (codes "My_App v2.0") ≡ codes "My_App v2.0")
    × (sanitize_resource_name ascii_lower (sanitize_resource_name ascii_lower (codes "My_App v2.0"))
        ≡ sanitize_resource_name ascii_lower (codes "My_App v2.0"))
sanitize_resource_name-IsName_example =
    sanitize_resource_name-IsName ascii_lower (ascii_lower_same false) (codes "My_App v2.0")
