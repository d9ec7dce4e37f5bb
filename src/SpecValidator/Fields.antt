-- ===== src/SpecValidator/Fields.antt =====
-- `validateFieldSizes`: the limits on the strings and the maps of a message.
pub mod Order
use gocsi.Base.{
  ℕ, ◌+◌, ◌≤◌, ◌≡◌, ◌≢◌, ◌↔◌, refl, arith, ltb, none, some, List, [], ◌∷◌, ◌++◌, Text, text, itoa,
  length, All,
}
use gocsi.Csi.Reflect.{Field, string_field, map_field, other_field}
use gocsi.SpecValidator.Errors.{FailsWith, passing, FailsWith->>, code_rules}
use gocsi.Status.{Check, pass, panics, ◌>>◌, fail_if, invalid_argument}

abbrev pub max_field_string : ℕ
max_field_string = 128

abbrev pub max_field_map : ℕ
max_field_map = 4096

-- "exceeds size limit: %s: max=%d, size=%d" behind the field's part
pub size_message : Text → ℕ → ℕ → Text
size_message part max size =
    text "exceeds size limit: "
    ++ (part ++ (text ": max=" ++ (itoa max ++ (text ", size=" ++ itoa size))))

-- `name[key]`, and `name[key]=` for the value
pub keyed : Text → Text → Text → Text
keyed name key close = name ++ (text "[" ++ (key ++ close))

-- The loop over the entries, in the order that the map gives them; `size` is their total so far.
check_entries : Text → ℕ → List (Text × Text) → Check
check_entries name size [] =
    fail_if (ltb max_field_map size) invalid_argument (size_message name max_field_map size)
check_entries name size ((k, v) ∷ es) = do
  fail_if (ltb max_field_string (length k)) invalid_argument
      (size_message (keyed name k (text "]")) max_field_string (length k))
  fail_if (ltb max_field_string (length v)) invalid_argument
      (size_message (keyed name k (text "]=")) max_field_string (length v))
  check_entries name (size + length k + length v) es

unfoldable pub check_field : Field → Check
unfolding check_entries
check_field (string_field name v) =
    fail_if (ltb max_field_string (length v)) invalid_argument
      (size_message name max_field_string (length v))
check_field (map_field name none) = pass
check_field (map_field name (some [])) = pass
check_field (map_field name (some (e ∷ es))) = check_entries name 0 (e ∷ es)
check_field (other_field name v) = pass

-- `validateFieldSizes`, over the fields that reflection finds.
unfoldable pub validate_field_sizes : List Field → Check
unfolding check_field
validate_field_sizes [] = pass
validate_field_sizes (f ∷ fs) = do check_field f; validate_field_sizes fs

-- The bytes of the keys and the values.
abbrev pub total : List (Text × Text) → ℕ
total [] = 0
total ((k, v) ∷ es) = length k + length v + total es

abbrev pub FitsEntry : Text × Text → Type 0
FitsEntry (k, v) = (length k ≤ max_field_string) × (length v ≤ max_field_string)

abbrev pub FitsMap : List (Text × Text) → Type 0
FitsMap es = All FitsEntry es × (total es ≤ max_field_map)

-- What the limits ask of a field.
abbrev pub Fits : Field → Type 0
Fits (string_field name v) = length v ≤ max_field_string
Fits (map_field name none) = Unit
Fits (map_field name (some es)) = FitsMap es
Fits (other_field name v) = Unit

check_entries-eq-pass_iff :
    (name : Text) (size : ℕ) (es : List (Text × Text))
    → (check_entries name size es ≡ pass) ↔ (All FitsEntry es × (size + total es ≤ max_field_map))
unfolding check_entries
check_entries-eq-pass_iff name size [] = ground arith
check_entries-eq-pass_iff name size ((k, v) ∷ es) =
    ground (arith, check_entries-eq-pass_iff name (size + length k + length v) es)

check_field-eq-pass_iff : (f : Field) → (check_field f ≡ pass) ↔ Fits f
unfolding check_field
check_field-eq-pass_iff (string_field name v) = ground arith
check_field-eq-pass_iff (map_field name none) = (λ _. tt, λ _. refl)
check_field-eq-pass_iff (map_field name (some [])) = (λ _. (tt, omega arith), λ _. refl)
check_field-eq-pass_iff (map_field name (some (e ∷ es))) =
    ground (arith, check_entries-eq-pass_iff name 0 (e ∷ es))
check_field-eq-pass_iff (other_field name v) = (λ _. tt, λ _. refl)

-- The fields of a message pass exactly when every string has at most 128 bytes, and every map has
-- keys and values of at most 128 bytes each and of at most 4096 bytes together.
pub validate_field_sizes-eq-pass_iff :
    (fs : List Field) → (validate_field_sizes fs ≡ pass) ↔ All Fits fs
unfolding validate_field_sizes
validate_field_sizes-eq-pass_iff [] = (λ _. tt, λ _. refl)
validate_field_sizes-eq-pass_iff (f ∷ fs) =
    ground (arith, check_field-eq-pass_iff f, validate_field_sizes-eq-pass_iff fs)

check_entries-FailsWith :
    (name : Text) (size : ℕ) (es : List (Text × Text))
    → FailsWith invalid_argument (check_entries name size es)
unfolding check_entries
check_entries-FailsWith name size [] = search code_rules
check_entries-FailsWith name size ((k, v) ∷ es) =
    search (code_rules, check_entries-FailsWith name (size + length k + length v) es)

check_field-FailsWith : (f : Field) → FailsWith invalid_argument (check_field f)
unfolding check_field
check_field-FailsWith (map_field name (some (e ∷ es))) = check_entries-FailsWith name 0 (e ∷ es)
check_field-FailsWith _ = search code_rules

pub validate_field_sizes-FailsWith :
    (fs : List Field) → FailsWith invalid_argument (validate_field_sizes fs)
unfolding validate_field_sizes
validate_field_sizes-FailsWith [] = passing
validate_field_sizes-FailsWith (f ∷ fs) =
    FailsWith->> (check_field-FailsWith f) (validate_field_sizes-FailsWith fs)

-- No check of the sizes panics.
check_entries_returns :
    (name : Text) (size : ℕ) (es : List (Text × Text)) → check_entries name size es ≢ panics
unfolding check_entries
check_entries_returns name size [] = ground arith
check_entries_returns name size ((k, v) ∷ es) =
    ground (arith, check_entries_returns name (size + length k + length v) es)

check_field_returns : (f : Field) → check_field f ≢ panics
unfolding check_field
check_field_returns (string_field name v) = ground arith
check_field_returns (map_field name none) = λ h. cc
check_field_returns (map_field name (some [])) = λ h. cc
check_field_returns (map_field name (some (e ∷ es))) = check_entries_returns name 0 (e ∷ es)
check_field_returns (other_field name v) = λ h. cc

pub validate_field_sizes_returns : (fs : List Field) → validate_field_sizes fs ≢ panics
unfolding validate_field_sizes
validate_field_sizes_returns [] = λ h. cc
validate_field_sizes_returns (f ∷ fs) =
    ground (arith, check_field_returns f, validate_field_sizes_returns fs)
