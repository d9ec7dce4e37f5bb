-- ===== src/Utils/Parsing.antt =====
-- utils/utils.go: `ParseMap` and `ParseSlice`, and the constructors of capabilities. The reader of
-- encoding/csv and `strings.TrimSpace` are parameters.
use gocsi.Base.{ℕ, none, some, List, [], ◌∷◌, Text, cut, insert, is_empty, if◌then◌else◌}
use gocsi.Csi.{GoMap, block, mount, VolumeCapability}
use gocsi.Context.{or_empty}

-- What `Read` of a csv reader with `TrimLeadingSpace` returns for its first record.
pub data Csv : Type 0 where
  record_of : List Text → Csv
  end_of_file : Csv
  syntax_error : Csv

pub record Tools : Type 0 where
  pub trim_space : Text → Text
  pub read_csv : Text → Csv

-- A result, or the panic on a syntax error.
pub data Parsed (A : Type 0) : Type 0 where
  parsed : A → Parsed A
  panics : Parsed A

-- The loop over the fields of the record: a key that is given twice has its last value.
unfoldable pub add_pairs : List Text → List (Text × Text) → List (Text × Text)
add_pairs [] m = m
add_pairs (field ∷ fields) m =
    let p = cut b'=' field in add_pairs fields (insert p.0 (or_empty p.1) m)

map_of_record : Csv → Parsed GoMap
unfolding add_pairs
map_of_record (record_of fields) = parsed (some (add_pairs fields []))
map_of_record end_of_file = parsed none
map_of_record syntax_error = panics

slice_of_record : Csv → Parsed (List Text)
slice_of_record (record_of fields) = parsed fields
slice_of_record end_of_file = parsed []
slice_of_record syntax_error = panics

module _ (tools : Tools) where
  open tools use {trim_space, read_csv}

  -- `ParseMap`
  unfoldable pub parse_map : Text → Parsed GoMap
  unfolding map_of_record
  parse_map line =
      let line' = trim_space line in
      if is_empty line' then parsed none else map_of_record (read_csv line')

  -- `ParseSlice`; a nil slice and one without elements are the same list.
  unfoldable pub parse_slice : Text → Parsed (List Text)
  unfolding slice_of_record
  parse_slice line =
      let line' = trim_space line in
      if is_empty line' then parsed [] else slice_of_record (read_csv line')

-- `NewMountCapability`
unfoldable pub new_mount_capability : ℕ → Text → List Text → VolumeCapability
new_mount_capability mode fs_type mount_flags = record {
  access_type = some (mount (some (record { fs_type = fs_type; mount_flags = mount_flags })));
  access_mode = some mode;
}

-- `NewBlockCapability`
unfoldable pub new_block_capability : ℕ → VolumeCapability
new_block_capability mode = record { access_type = some (block (some tt)); access_mode = some mode }
