-- ===== src/Utils/Versions.antt =====
-- utils/utils.go: the comparison, the parser and the printer of CSI versions.
pub mod Order
pub mod RoundTrip
pub mod Fuel
use gocsi.Base.{
  ℕ, zero, suc, ◌+◌, ◌-◌, ◌%◌, ◌^◌, Bool, true, false, Option, none, some, List, [], ◌∷◌, ◌++◌,
  Text, text, is_empty, is_digit, value, itoa, nat_eq, ltb, leb, length, if◌then◌else◌, ℤ, pos,
  negsuc, ◌≡◌, refl,
}
use gocsi.Csi.{Version}

-- The tests on one field of two versions; `rest` is what follows them.
compare_field : ℕ → ℕ → ℤ → ℤ
compare_field a b rest = if ltb b a then negsuc 0 else if ltb a b then pos 1 else rest

-- `CompareVersions`: -1 if a > b, 0 if they are equal, 1 if a < b.
unfoldable pub compare_versions : Option Version → Option Version → ℤ
unfolding compare_field
compare_versions none none = pos 0
compare_versions (some a) none = negsuc 0
compare_versions none (some b) = pos 1
compare_versions (some a) (some b) =
    compare_field a.major b.major
      (compare_field a.minor b.minor (compare_field a.patch b.patch (pos 0)))

-- `SprintfVersion`
unfoldable pub sprintf_version : Version → Text
sprintf_version v = itoa v.major ++ b'.' ∷ (itoa v.minor ++ b'.' ∷ itoa v.patch)

-- The longest prefix of digits, and the rest.
unfoldable pub span_digits : Text → Text × Text
span_digits [] = ([], [])
span_digits (c ∷ s) =
    let rest = span_digits s in if is_digit c then (c ∷ rest.0, rest.1) else ([], c ∷ s)

-- `(\d+)` at the head of a text.
digits : Text → Option (Text × Text)
unfolding span_digits
digits s = let (m, rest) = span_digits s in if is_empty m then none else some (m, rest)

-- `\.` at the head of a text.
dot : Text → Option Text
dot [] = none
dot (c ∷ s) = if nat_eq c b'.' then some s else none

infixl 5 ◌>>=◌
abbrev ◌>>=◌ {ℓ κ} : {A : Type ℓ} {B : Type κ} → Option A → (A → Option B) → Option B
none >>= f = none
some a >>= f = f a

-- `uint32(i)` for `i, _ := strconv.Atoi(m)`: a numeral past the int64 range gives its maximum.
atoi_uint32 : Text → ℕ
unfolding value
atoi_uint32 m =
    let i = value 0 m in if leb i (2 ^ 63 - 1) then i % 2 ^ 32 else (2 ^ 63 - 1) % 2 ^ 32

-- A match of `(\d+)\.(\d+)\.(\d+)` at the head of a text. Digits are matched greedily: a dot cannot
-- stand where a shorter match would end.
match_version : Text → Option (Version × Text)
unfolding digits dot atoi_uint32
match_version s = do
  (major, s₁) ← digits s
  s₂ ← dot s₁
  (minor, s₃) ← digits s₂
  s₄ ← dot s₃
  (patch, rest) ← digits s₄
  let v : Version = record {
    major = atoi_uint32 major;
    minor = atoi_uint32 minor;
    patch = atoi_uint32 patch;
  }
  some (v, rest)

-- `FindAllStringSubmatch`: the leftmost matches that do not overlap. Each round takes a character.
pub find_versions : ℕ → Text → List Version
unfolding match_version
find_versions zero s = []
find_versions (suc fuel) [] = []
find_versions (suc fuel) (c ∷ s) = elim (match_version (c ∷ s)) [
  | none ↦ find_versions fuel s
  | some (v, rest) ↦ v ∷ find_versions fuel rest
]

-- `ParseVersions`
unfoldable pub parse_versions : Text → List Version
unfolding find_versions
parse_versions s = find_versions (length s) s

abbrev pub head? : List Version → Option Version
head? [] = none
head? (v ∷ vs) = some v

-- `ParseVersion`; `none` is the result false.
unfoldable pub parse_version : Text → Option Version
unfolding parse_versions
parse_version s = head? (parse_versions s)
