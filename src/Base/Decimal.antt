-- ===== src/Base/Decimal.antt =====
-- Decimal numerals: `%d` of fmt, and strconv.ParseUint at base 10.
use Prim.Native.Nat.{ℕ, zero, suc, ◌+◌, ◌-◌, ◌*◌, ◌/◌, ◌%◌, ◌^◌, ◌<◌}
use mathlib.Core.Path.{◌≡◌, refl, sym, ap, ◌∙◌}
use mathlib.Core.Bool.{Bool, true, false, not, ◌&&◌}
use mathlib.Core.Option.{Option, none, some}
use mathlib.Core.List.{[], ◌∷◌}
use native.Mathlib.Omega.{arith}
use gocsi.Base.Tests.{ltb, leb, if◌then◌else◌}
use gocsi.Base.Strings.{Text, is_empty}

abbrev pub is_digit : ℕ → Bool
is_digit c = leb b'0' c && leb c b'9'

unfoldable pub all_digits : Text → Bool
all_digits [] = true
all_digits (c ∷ s) = is_digit c && all_digits s

-- The number that digits spell behind `n`.
unfoldable pub value : ℕ → Text → ℕ
value n [] = n
value n (c ∷ s) = value (n * 10 + (c - b'0')) s

-- The fuel bounds the number of digits.
print_from : ℕ → ℕ → Text → Text
print_from zero n out = out
print_from (suc fuel) n out =
    let more = print_from fuel (n / 10) ((b'0' + n % 10) ∷ out) in
    if ltb n 10 then (b'0' + n) ∷ out else more

unfoldable pub itoa : ℕ → Text
unfolding print_from
itoa n = print_from (suc n) n []

unfoldable pub parse_uint : ℕ → Text → Option ℕ
unfolding all_digits value
parse_uint bits s =
    if not (is_empty s) && all_digits s && ltb (value 0 s) (2 ^ bits)
    then some (value 0 s)
    else none

value-print_from :
    (fuel n : ℕ) (out : Text) → n < fuel → value 0 (print_from fuel n out) ≡ value n out
unfolding value print_from
value-print_from zero n out h = absurd (omega arith)
value-print_from (suc fuel) n out h =
    ground (arith, value-print_from fuel (n / 10) ((b'0' + n % 10) ∷ out))

pub value-itoa : (n : ℕ) → value 0 (itoa n) ≡ n
unfolding itoa
value-itoa n = value-print_from (suc n) n [] (omega arith) ∙ (unfold value in refl)

all_digits-print_from :
    (fuel n : ℕ) (out : Text) → all_digits out ≡ true → all_digits (print_from fuel n out) ≡ true
unfolding all_digits print_from
all_digits-print_from zero n out h = h
all_digits-print_from (suc fuel) n out h =
    ground (arith, all_digits-print_from fuel (n / 10) ((b'0' + n % 10) ∷ out))

pub all_digits-itoa : (n : ℕ) → all_digits (itoa n) ≡ true
unfolding itoa
all_digits-itoa n = all_digits-print_from (suc n) n [] (unfold all_digits in refl)

print_from-cons :
    (fuel n : ℕ) (c : ℕ) (out : Text) → (d : ℕ) × (s : Text) × (print_from fuel n (c ∷ out) ≡ d ∷ s)
unfolding print_from
print_from-cons zero n c out = (c, out, refl)
print_from-cons (suc fuel) n c out =
    let (d, s, e) = print_from-cons fuel (n / 10) (b'0' + n % 10) (c ∷ out) in
    (if ltb n 10 then b'0' + n else d, if ltb n 10 then c ∷ out else s, ground arith)

-- A numeral has a first digit.
pub itoa-cons : (n : ℕ) → (d : ℕ) × (s : Text) × (itoa n ≡ d ∷ s)
unfolding itoa print_from
itoa-cons n =
    let (d, s, e) = print_from-cons n (n / 10) (b'0' + n % 10) [] in
    (if ltb n 10 then b'0' + n else d, if ltb n 10 then [] else s, ground arith)

pub is_empty-itoa : (n : ℕ) → is_empty (itoa n) ≡ false
is_empty-itoa n = let (d, s, e) = itoa-cons n in rw e

pub parse_uint-itoa : (bits n : ℕ) → n < 2 ^ bits → parse_uint bits (itoa n) ≡ some n
unfolding parse_uint
parse_uint-itoa bits n h = simp (is_empty-itoa, all_digits-itoa, value-itoa) (ground arith)

pub parse_uint-lt : (bits : ℕ) (s : Text) (n : ℕ) → parse_uint bits s ≡ some n → n < 2 ^ bits
unfolding parse_uint
parse_uint-lt bits s n h = ground arith

pub itoa-injective : (m n : ℕ) → itoa m ≡ itoa n → m ≡ n
itoa-injective m n e = sym (value-itoa m) ∙ ap (value 0) e ∙ value-itoa n
