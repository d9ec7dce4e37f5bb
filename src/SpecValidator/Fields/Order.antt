-- ===== src/SpecValidator/Fields/Order.antt =====
-- `validateFieldSizes` ranges over maps, whose order Go leaves open: what the order changes.
use mathlib.Core.List.{Permᴰ}
use mathlib.Core.List.Permᴰ
use mathlib.Core.Path.{subst}
use gocsi.Base.{◌≡◌, ◌≢◌, ◌↔◌, refl, sym, ◌∙◌, arith, some, List, [], ◌∷◌, Text, All}
use gocsi.Csi.Reflect.{Field, map_field}
use gocsi.SpecValidator.Fields.{
  validate_field_sizes, total, FitsEntry, FitsMap, Fits, validate_field_sizes-eq-pass_iff,
  validate_field_sizes-FailsWith, validate_field_sizes_returns,
}
use gocsi.Status.{Check, pass, fail, panics, Code, invalid_argument, Error, status_error}
use gocsi.SpecValidator.Errors.{FailsWith, passing, panicking, failing}

-- Two lists of the fields of one message: the entries of each map may come in another order.
pub data Reordered : List Field → List Field → Type 0 where
  done : Reordered [] []
  same : (f : Field) {fs gs : List Field} → Reordered fs gs → Reordered (f ∷ fs) (f ∷ gs)
  mixed :
      (name : Text) {es es' : List (Text × Text)} {fs gs : List Field}
      → Permᴰ es es'
      → Reordered fs gs
      → Reordered (map_field name (some es) ∷ fs) (map_field name (some es') ∷ gs)

Reordered-symm : {fs gs : List Field} → Reordered fs gs → Reordered gs fs
Reordered-symm done = done
Reordered-symm (same f r) = same f (Reordered-symm r)
Reordered-symm (mixed name p r) = mixed name (Permᴰ.symm p) (Reordered-symm r)

total-Permᴰ : {es es' : List (Text × Text)} → Permᴰ es es' → total es ≡ total es'
total-Permᴰ Permᴰ.nil = refl
total-Permᴰ (Permᴰ.cons {a = a} e p) = rw (sym e, total-Permᴰ p) refl
total-Permᴰ (Permᴰ.swap {a = a} {b = b} e e') = rw (sym e, sym e') (omega arith)
total-Permᴰ (Permᴰ.trans p q) = total-Permᴰ p ∙ total-Permᴰ q

module _ {A : Type 0} (P : A → Type 0) where
  All-Permᴰ : {xs ys : List A} → Permᴰ xs ys → All P xs → All P ys
  All-Permᴰ Permᴰ.nil h = h
  All-Permᴰ (Permᴰ.cons e p) (h, hs) = (subst P e h, All-Permᴰ p hs)
  All-Permᴰ (Permᴰ.swap e e') (h, rest) = (subst P e' rest.0, (subst P e h, rest.1))
  All-Permᴰ (Permᴰ.trans p q) h = All-Permᴰ q (All-Permᴰ p h)

FitsMap-Permᴰ : {es es' : List (Text × Text)} → Permᴰ es es' → FitsMap es → FitsMap es'
FitsMap-Permᴰ p (entries, whole) = (All-Permᴰ FitsEntry p entries, rw (total-Permᴰ p) at whole)

All-Reordered : {fs gs : List Field} → Reordered fs gs → All Fits fs → All Fits gs
All-Reordered done h = h
All-Reordered (same f r) (h, hs) = (h, All-Reordered r hs)
All-Reordered (mixed name p r) (h, hs) = (FitsMap-Permᴰ p h, All-Reordered r hs)

-- A check that neither passes nor panics fails with its code.
must_fail :
    {c : Code} (x : Check)
    → FailsWith c x
    → x ≢ pass
    → x ≢ panics
    → (m : Text) × (x ≡ fail (status_error c m))
must_fail _ passing np nn = absurd (np refl)
must_fail _ panicking np nn = absurd (nn refl)
must_fail _ (failing m) np nn = (m, refl)

-- The order in which the entries of the maps of a message come does not decide whether its fields
-- pass; where they fail, they fail in each order, with an error of the code InvalidArgument.
pub validate_field_sizes-Reordered :
    (fs gs : List Field)
    → Reordered fs gs
    → ((validate_field_sizes fs ≡ pass) ↔ (validate_field_sizes gs ≡ pass))
      × ((e : Error)
          → validate_field_sizes fs ≡ fail e
          → (m : Text) × (validate_field_sizes gs ≡ fail (status_error invalid_argument m)))
validate_field_sizes-Reordered fs gs r =
    let here = validate_field_sizes-eq-pass_iff fs in
    let there = validate_field_sizes-eq-pass_iff gs in
    let back : validate_field_sizes gs ≡ pass → validate_field_sizes fs ≡ pass =
      λ h. here.1 (All-Reordered (Reordered-symm r) (there.0 h)) in
    (
      (λ h. there.1 (All-Reordered r (here.0 h)), back),
      λ e failed.
          must_fail (validate_field_sizes gs) (validate_field_sizes-FailsWith gs)
            (λ h. let passed = back h in absurd (cc)) (validate_field_sizes_returns gs),
    )
