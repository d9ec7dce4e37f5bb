-- ===== src/Csc/VarTypes.antt =====
-- csc/cmd/vartypes.go: the values of flags. `Set` returns the error and the new value; a value that is
-- set twice keeps what the first call left.
pub mod RoundTrip
use gocsi.Base.{
  ℕ, ◌+◌, Bool, true, false, Option, none, some, List, [], ◌∷◌, ◌++◌, Text, text, nat_eq, cut,
  split, split_n, lookup, insert, parse_int, ℤ, pos, negsuc, leb, ◌==◌, ◌||◌, EqualFold,
  if◌then◌else◌,
}
use gocsi.Csi.{GoMap, Version, AccessType, block, mount, VolumeCapability}
use gocsi.Context.{or_empty}
use gocsi.Status.{Error, plain}
use gocsi.Utils.Versions.{parse_version}

add_parts : List Text → List (Text × Text) → List (Text × Text)
add_parts [] m = m
add_parts (v ∷ vs) m = let p = cut b'=' v in add_parts vs (insert p.0 (or_empty p.1) m)

-- `mapOfStringArg.Set`: the first call makes the map.
unfoldable pub set_map : Text → GoMap → Option Error × GoMap
unfolding add_parts
set_map val none = (none, some (add_parts (split b',' val) []))
set_map val (some m) = (none, some (add_parts (split b',' val) m))

abbrev zero_version : Version
zero_version = record { major = 0; minor = 0; patch = 0 }

-- `csiVersionArg.Set`: a text without a version resets the value.
unfoldable pub set_version : Text → Option Error × Version
set_version val = elim (parse_version val) [
  | some v ↦ (none, v)
  | none ↦ (some (plain (text "invalid versions: " ++ val)), zero_version)
]

-- `VolumeCapability_AccessMode_Mode_value` and `VolumeCapability_AccessMode_Mode_name`
abbrev pub mode_values : List (Text × ℕ)
mode_values =
    (text "UNKNOWN", 0)
    ∷ (text "SINGLE_NODE_WRITER", 1)
    ∷ (text "SINGLE_NODE_READER_ONLY", 2)
    ∷ (text "MULTI_NODE_READER_ONLY", 3)
    ∷ (text "MULTI_NODE_SINGLE_WRITER", 4)
    ∷ (text "MULTI_NODE_MULTI_WRITER", 5)
    ∷ []

-- The access mode of a number: none if no mode has the number, and then no error either.
abbrev named_mode : ℤ → Option ℕ
named_mode (pos n) = if leb n 5 then some n else none
named_mode (negsuc n) = none

pub data Mode : Type 0 where
  mode : Option ℕ → Mode
  no_number : Mode

abbrev mode_of_number : Option ℤ → Mode
mode_of_number none = no_number
mode_of_number (some i) = mode (named_mode i)

mode_of : Text → Mode
mode_of sz_mode = elim (lookup sz_mode mode_values) [
  | some i ↦ mode (some i)
  | none ↦ mode_of_number (parse_int 32 sz_mode)
]

-- A capability, or none for the error "invalid volume capability".
abbrev mount_of : Option ℕ → List Text → Option VolumeCapability
mount_of m [] = none
mount_of m (fs ∷ []) = some (record {
  access_type = some (mount (some (record { fs_type = fs; mount_flags = [] })));
  access_mode = m;
})
mount_of m (fs ∷ flags ∷ _) = some (record {
  access_type = some (mount (some (record { fs_type = fs; mount_flags = split b',' flags })));
  access_mode = m;
})

module _ (fold : EqualFold) (number_error : Text → Text) where
  open fold use {equal_fold}

  -- The access type, of the parts behind the mode.
  type_of : Option ℕ → Text → List Text → Option VolumeCapability
  type_of m sz_type rest =
      if sz_type == text "1" || equal_fold sz_type (text "block")
      then some (record { access_type = some (block (some tt)); access_mode = m })
      else if sz_type == text "2" || equal_fold sz_type (text "mount")
      then mount_of m rest
      else none

  add_capability :
      Text → Option VolumeCapability → List VolumeCapability → Option Error × List VolumeCapability
  add_capability val none caps = (some (plain (text "invalid volume capability: " ++ val)), caps)
  add_capability val (some c) caps = (none, caps ++ c ∷ [])

  set_mode :
      Text
      → Text
      → Mode
      → Text
      → List Text
      → List VolumeCapability
      → Option Error × List VolumeCapability
  unfolding type_of add_capability
  set_mode val sz_mode no_number sz_type rest caps = (
    some (plain (text "invalid access mode: " ++ (sz_mode ++ (text ": " ++ number_error sz_mode)))),
    caps,
  )
  set_mode val sz_mode (mode m) sz_type rest caps = add_capability val (type_of m sz_type rest) caps

  set_parts : Text → List Text → List VolumeCapability → Option Error × List VolumeCapability
  unfolding set_mode mode_of
  set_parts val [] caps = (some (plain (text "invalid volume capability: " ++ val)), caps)
  set_parts val (a ∷ []) caps = (some (plain (text "invalid volume capability: " ++ val)), caps)
  set_parts val (a ∷ b ∷ rest) caps = set_mode val a (mode_of a) b rest caps

  -- `volumeCapabilitySliceArg.Set`
  unfoldable pub set_capability :
      Text → List VolumeCapability → Option Error × List VolumeCapability
  unfolding set_parts
  set_capability val caps = set_parts val (split_n 4 b',' val) caps

-- `docTypeArg.Set`
unfoldable pub set_doc_type : (Text → Text) → Text → Text → Option Error × Text
set_doc_type to_lower val old =
    let val' = to_lower val in
    if val' == text "md" || (val' == text "man" || val' == text "rst")
    then (none, val')
    else (some (plain (text "invalid doc type: " ++ val')), old)
