-- ===== src/Policies/Numbers.antt =====
-- Numbers as pepr/policies/security.ts reads them: `parseInt` of a label, and `===`.
use uds_core.Prelude.{
  ℕ, zero, suc, ◌+◌, ◌-◌, ◌*◌, Bool, false, ◌&&◌, ◌||◌, Option, none, some, [], ◌∷◌, nat_eq, leb,
  ltb, if◌then◌else◌, String, codes, ◌≡◌, refl,
}
use uds_core.Policies.Pod.{Number, nat, neg, nan}
use uds_core.Policies.Image.{Text, trim_start}

abbrev pub number_is : ℕ → Number → Bool
number_is k (nat n) = nat_eq n k
number_is k (neg n) = false
number_is k nan = false

-- `x === k` where `x` may be undefined.
abbrev pub opt_number_is : ℕ → Option Number → Bool
opt_number_is k none = false
opt_number_is k (some n) = number_is k n

-- The value of a digit, 36 for no digit.
abbrev digit : ℕ → ℕ
digit c =
    if leb b'0' c && leb c b'9'
    then c - b'0'
    else if leb b'a' c && leb c b'z'
    then c - 87
    else if leb b'A' c && leb c b'Z'
    then c - 55
    else 36

digits : ℕ → ℕ → Text → ℕ
digits radix acc [] = acc
digits radix acc (c ∷ cs) =
    let rest = digits radix (acc * radix + digit c) cs in if ltb (digit c) radix then rest else acc

-- At least one digit is wanted.
unsigned : ℕ → Text → Option ℕ
unfolding digits
unsigned radix [] = none
unsigned radix (c ∷ cs) = if ltb (digit c) radix then some (digits radix 0 (c ∷ cs)) else none

-- `0x` and `0X` switch to radix 16.
magnitude : Text → Option ℕ
unfolding unsigned
magnitude (a ∷ b ∷ cs) =
    if nat_eq a b'0' && (nat_eq b b'x' || nat_eq b b'X')
    then unsigned 16 cs
    else unsigned 10 (a ∷ b ∷ cs)
magnitude cs = unsigned 10 cs

abbrev positive : Option ℕ → Number
positive none = nan
positive (some n) = nat n

-- -0 is === 0.
abbrev negative : Option ℕ → Number
negative none = nan
negative (some zero) = nat 0
negative (some (suc n)) = neg n

signed : Text → Number
unfolding magnitude
signed [] = nan
signed (c ∷ cs) =
    if nat_eq c b'-'
    then negative (magnitude cs)
    else if nat_eq c b'+'
    then positive (magnitude cs)
    else positive (magnitude (c ∷ cs))

unfoldable pub parse_int : String → Number
unfolding signed trim_start
parse_int s = signed (trim_start (codes s))

parse_int_tests :
    (parse_int "1000" ≡ nat 1000)
    × (parse_int " -12abc" ≡ neg 11)
    × (parse_int "0x1F" ≡ nat 31)
    × (parse_int "abc" ≡ nan)
    × (parse_int "-0" ≡ nat 0)
unfolding parse_int
parse_int_tests = (refl, refl, refl, refl, refl)
