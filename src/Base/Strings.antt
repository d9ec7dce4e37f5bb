-- ===== src/Base/Strings.antt =====
-- Go strings as lists of bytes. `text` is shut, so that a literal is one name to the tactics.
use Prim.Native.Nat.{ℕ}
use Prim.Native.Char.{code}
use Prim.Native.String.{String}
use mathlib.Core.Path.{◌≡◌, refl}
use mathlib.Core.Logic.{◌↔◌, ◌≢◌}
use mathlib.Core.Bool.{Bool, true, false, ◌&&◌}
use mathlib.Core.List.{List, [], ◌∷◌}
use native.Mathlib.Omega.{arith}
use gocsi.Base.Tests.{nat_eq}

abbrev pub Text : Type 0
Text = List ℕ

unfoldable pub text : String → Text
text String.[] = []
text (String.◌∷◌ c s) = code c ∷ text s

abbrev pub is_empty : Text → Bool
is_empty [] = true
is_empty (c ∷ s) = false

infix 50 ◌==◌
unfoldable pub ◌==◌ : Text → Text → Bool
[] == [] = true
(a ∷ s) == (b ∷ t) = nat_eq a b && s == t
_ == _ = false

pub ==_refl : (s : Text) → (s == s) ≡ true
unfolding ◌==◌
==_refl [] = refl
==_refl (a ∷ s) = ground (arith, ==_refl s)

pub ==_sound : (s t : Text) → (s == t) ≡ true → s ≡ t
unfolding ◌==◌
==_sound [] [] h = refl
==_sound (a ∷ s) (b ∷ t) h = ground (arith, ==_sound s t)
==_sound [] (b ∷ t) h = cc
==_sound (a ∷ s) [] h = cc

pub ==_iff : (s t : Text) → ((s == t) ≡ true) ↔ (s ≡ t)
==_iff s t = (==_sound s t, λ e. ground (arith, ==_refl s, e))

pub ==_ne : (s t : Text) → s ≢ t → (s == t) ≡ false
==_ne s t h = ground (arith, ==_iff s t)
