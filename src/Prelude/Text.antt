-- ===== src/Prelude/Text.antt =====
-- Texts: the tests of strings that the program uses.
use Prim.Native.Nat.{ℕ, zero, suc, ◌/◌, ◌%◌}
use mathlib.Core.Path.{◌≡◌, refl}
use Prim.Native.Char.{code}
use Prim.Native.String
use Prim.Native.String.{String}
use mathlib.Core.Bool.{Bool, true, false, ◌&&◌, ◌||◌}
use mathlib.Core.List.{List, [], ◌∷◌}
use mathlib.Core.Option.{Option, none, some}
use text.Mathlib.Text.{◌==◌}
use uds_core.Prelude.Lists.{any}
use uds_core.Prelude.Tests.{nat_eq, ltb, if◌then◌else◌}

-- `xs.includes(s)`
abbrev pub includes : List String → String → Bool
includes xs s = any (λ x. x == s) xs

-- The code points of a text.
abbrev pub codes : String → List ℕ
codes String.[] = []
codes (String.◌∷◌ c s) = code c ∷ codes s

-- `s` as a condition: the empty string is falsy.
abbrev pub truthy : String → Bool
truthy String.[] = false
truthy (String.◌∷◌ c s) = true

-- An absent string is falsy too.
abbrev pub given : Option String → Bool
given none = false
given (some s) = truthy s

-- `a || b` on strings that may be absent.
abbrev pub or_else : Option String → Option String → Option String
or_else none b = b
or_else (some String.[]) b = b
or_else (some (String.◌∷◌ c s)) b = some (String.◌∷◌ c s)

-- `o === s`
abbrev pub opt_eq : Option String → String → Bool
opt_eq none s = false
opt_eq (some t) s = t == s

-- The pieces of a template literal, and `xs.join(sep)`.
abbrev pub concat : List String → String
concat [] = ""
concat (x ∷ xs) = String.◌++◌ x (concat xs)

abbrev pub join : String → List String → String
join sep [] = ""
join sep (x ∷ []) = x
join sep (x ∷ y ∷ xs) = String.◌++◌ x (String.◌++◌ sep (join sep (y ∷ xs)))

-- A text within a text, over code points.
abbrev pub starts_with : List ℕ → List ℕ → Bool
starts_with cs [] = true
starts_with [] (d ∷ ds) = false
starts_with (c ∷ cs) (d ∷ ds) = nat_eq c d && starts_with cs ds

abbrev pub contains : List ℕ → List ℕ → Bool
contains [] ds = starts_with [] ds
contains (c ∷ cs) ds = starts_with (c ∷ cs) ds || contains cs ds

-- A template literal shows an absent value as this word.
abbrev pub printed : Option String → String
printed none = "undefined"
printed (some s) = s

-- The decimal digits of a number, as a template literal shows it. The fuel is the number itself
-- plus one, more than it has digits.
abbrev digit_text : ℕ → String
digit_text d =
    if nat_eq d 0
    then "0"
    else if nat_eq d 1
    then "1"
    else if nat_eq d 2
    then "2"
    else if nat_eq d 3
    then "3"
    else if nat_eq d 4
    then "4"
    else if nat_eq d 5
    then "5"
    else if nat_eq d 6
    then "6"
    else if nat_eq d 7
    then "7"
    else if nat_eq d 8
    then "8"
    else "9"

show_fuel : ℕ → ℕ → String
show_fuel zero n = ""
show_fuel (suc f) n =
    let rest = String.◌++◌ (show_fuel f (n / 10)) (digit_text (n % 10)) in
    if ltb n 10 then digit_text n else rest

unfoldable pub show : ℕ → String
unfolding show_fuel
show n = show_fuel (suc n) n

abbrev pub printed_nat : Option ℕ → String
printed_nat none = "undefined"
printed_nat (some n) = show n

show_test : show 8443 ≡ "8443"
unfolding show
show_test = refl
