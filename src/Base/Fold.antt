-- ===== src/Base/Fold.antt =====
-- `strings.EqualFold`: equality under Unicode case folding, by what is documented of it. The fold of
-- the ASCII letters alone is an instance.
use Prim.Native.Nat.{ℕ, ◌+◌}
use mathlib.Core.Path.{◌≡◌, refl, sym, ◌∙◌}
use mathlib.Core.Bool.{Bool, true, ◌&&◌}
use mathlib.Core.List.{[], ◌∷◌, map}
use native.Mathlib.Omega.{arith}
use gocsi.Base.Tests.{leb, if◌then◌else◌}
use gocsi.Base.Strings.{Text, ◌==◌, ==_refl, ==_sound, ==_iff}
use gocsi.Base.Decimal.{all_digits}

pub record EqualFold : Type 0 where
  pub equal_fold : Text → Text → Bool
  pub fold_refl : (s : Text) → equal_fold s s ≡ true
  pub fold_symm : (s t : Text) → equal_fold s t ≡ true → equal_fold t s ≡ true
  pub fold_trans :
      (s t u : Text) → equal_fold s t ≡ true → equal_fold t u ≡ true → equal_fold s u ≡ true
  -- a digit has no other case
  pub fold_digits : (s t : Text) → all_digits s ≡ true → equal_fold s t ≡ true → s ≡ t

abbrev lower : ℕ → ℕ
lower c = if leb b'A' c && leb c b'Z' then c + 32 else c

pub lower_digits : (s t : Text) → all_digits s ≡ true → map lower s ≡ map lower t → s ≡ t
unfolding all_digits
lower_digits [] [] h e = refl
lower_digits [] (b ∷ t) h e = cc
lower_digits (a ∷ s) [] h e = cc
lower_digits (a ∷ s) (b ∷ t) h e = ground (arith, lower_digits s t)

ascii_equal : Text → Text → Bool
ascii_equal s t = map lower s == map lower t

unfoldable pub ascii_fold : EqualFold
unfolding ascii_equal
ascii_fold = record {
  equal_fold = ascii_equal;
  fold_refl = λ s. ==_refl (map lower s);
  fold_symm = λ s t h. (==_iff _ _).1 (sym (==_sound _ _ h));
  fold_trans = λ s t u h k. (==_iff _ _).1 (==_sound _ _ h ∙ ==_sound _ _ k);
  fold_digits = λ s t h k. lower_digits s t h (==_sound _ _ k);
}
