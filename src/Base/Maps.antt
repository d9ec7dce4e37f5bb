-- ===== src/Base/Maps.antt =====
-- Go maps with text keys, as lists of entries: a write replaces the entry, or adds one at the end.
use mathlib.Core.Path.{◌≡◌, refl}
use mathlib.Core.Option.{Option, none, some}
use mathlib.Core.List.{List, [], ◌∷◌}
use native.Mathlib.Omega.{arith}
use gocsi.Base.Tests.{if◌then◌else◌}
use gocsi.Base.Strings.{Text, ◌==◌, ==_iff}

module _ {ℓ} {V : Type ℓ} where
  -- `m[key]`
  unfoldable pub lookup : Text → List (Text × V) → Option V
  lookup key [] = none
  lookup key ((found, value) ∷ entries) = if found == key then some value else lookup key entries

  -- `delete(m, key)`
  unfoldable pub delete : Text → List (Text × V) → List (Text × V)
  delete key [] = []
  delete key (entry ∷ entries) =
      let kept = delete key entries in if entry.0 == key then kept else entry ∷ kept

  -- `m[key] = value`
  unfoldable pub insert : Text → V → List (Text × V) → List (Text × V)
  insert key value [] = (key, value) ∷ []
  insert key value (entry ∷ entries) =
      let more = insert key value entries in
      if entry.0 == key then (key, value) ∷ entries else entry ∷ more

  pub lookup-insert :
      (key other : Text) (value : V) (entries : List (Text × V))
      → lookup other (insert key value entries)
        ≡ (if key == other then some value else lookup other entries)
  unfolding lookup insert
  lookup-insert key other value [] = refl
  lookup-insert key other value ((at, old) ∷ entries) = ground (
    arith,
    lookup-insert key other value entries,
    ==_iff at other,
    ==_iff at key,
    ==_iff key other,
  )

  pub lookup-delete :
      (key other : Text) (entries : List (Text × V))
      → lookup other (delete key entries) ≡ (if key == other then none else lookup other entries)
  unfolding lookup delete
  lookup-delete key other [] = ground arith
  lookup-delete key other ((at, old) ∷ entries) =
      ground
        (arith, lookup-delete key other entries, ==_iff at other, ==_iff at key, ==_iff key other)
