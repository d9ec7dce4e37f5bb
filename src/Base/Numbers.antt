-- ===== src/Base/Numbers.antt =====
-- strconv.ParseInt and Atoi, and strconv.ParseUint at base 8.
use Prim.Native.Nat.{ℕ, zero, suc, ◌+◌, ◌-◌, ◌*◌, ◌^◌}
use mathlib.Core.Bool.{Bool, true, false, not, ◌&&◌}
use mathlib.Core.Option.{Option, none, some}
use mathlib.Core.List.{[], ◌∷◌}
use gocsi.Base.Tests.{nat_eq, ltb, leb, if◌then◌else◌, ℤ, pos, negsuc}
use gocsi.Base.Strings.{Text, is_empty}
use gocsi.Base.Decimal.{all_digits, value}

abbrev is_octal : ℕ → Bool
is_octal c = leb b'0' c && leb c b'7'

all_octal : Text → Bool
all_octal [] = true
all_octal (c ∷ s) = is_octal c && all_octal s

octal_value : ℕ → Text → ℕ
octal_value n [] = n
octal_value n (c ∷ s) = octal_value (n * 8 + (c - b'0')) s

-- `ParseUint(s, 8, bits)`; `none` is its error.
unfoldable pub parse_octal : ℕ → Text → Option ℕ
unfolding all_octal octal_value
parse_octal bits s =
    if not (is_empty s) && all_octal s && ltb (octal_value 0 s) (2 ^ bits)
    then some (octal_value 0 s)
    else none

abbrev pub negate : ℕ → ℤ
negate zero = pos 0
negate (suc n) = negsuc n

-- The digits of a numeral whose magnitude has a bound.
abbrev magnitude : ℕ → Text → Option ℕ
magnitude bound s =
    if not (is_empty s) && all_digits s && leb (value 0 s) bound then some (value 0 s) else none

abbrev signed : (ℕ → ℤ) → Option ℕ → Option ℤ
signed f none = none
signed f (some n) = some (f n)

-- `ParseInt(s, 10, bits)`; `none` is its error.
unfoldable pub parse_int : ℕ → Text → Option ℤ
unfolding all_digits value
parse_int bits [] = none
parse_int bits (c ∷ s) =
    if nat_eq c b'-'
    then signed negate (magnitude (2 ^ (bits - 1)) s)
    else if nat_eq c b'+'
    then signed pos (magnitude (2 ^ (bits - 1) - 1) s)
    else signed pos (magnitude (2 ^ (bits - 1) - 1) (c ∷ s))

-- `Atoi`, of 64-bit integers.
unfoldable pub atoi : Text → Option ℤ
unfolding parse_int
atoi s = parse_int 64 s

abbrev pub int_eq : ℤ → ℤ → Bool
int_eq (pos m) (pos n) = nat_eq m n
int_eq (negsuc m) (negsuc n) = nat_eq m n
int_eq (pos m) (negsuc n) = false
int_eq (negsuc m) (pos n) = false
