-- ===== src/Base/Split.antt =====
-- `strings.SplitN` and `strings.Split` at a separator of one byte.
use Prim.Native.Nat.{ℕ, zero, suc}
use mathlib.Core.Path.{◌≡◌, ◌∙◌, refl, ap}
use mathlib.Core.Bool.{false}
use mathlib.Core.Option.{Option, none, some}
use mathlib.Core.List.{List, [], ◌∷◌, ◌++◌}
use native.Mathlib.Omega.{arith}
use gocsi.Base.Tests.{nat_eq, if◌then◌else◌}
use gocsi.Base.Lists.{All}
use gocsi.Base.Strings.{Text}

-- The part before the first separator, and the part behind it if there is one: `SplitN` with n = 2.
unfoldable pub cut : ℕ → Text → Text × Option Text
cut sep [] = ([], none)
cut sep (c ∷ s) =
    let rest = cut sep s in if nat_eq c sep then ([], some s) else (c ∷ rest.0, rest.1)

abbrev cut_rest : (Text → List Text) → Text × Option Text → List Text
cut_rest again (a, none) = a ∷ []
cut_rest again (a, some b) = a ∷ again b

-- `SplitN` with n ≥ 0
unfoldable pub split_n : ℕ → ℕ → Text → List Text
unfolding cut
split_n zero sep s = []
split_n (suc zero) sep s = s ∷ []
split_n (suc (suc n)) sep s = cut_rest (split_n (suc n) sep) (cut sep s)

-- Puts a byte before the first of the parts.
abbrev cons_head : ℕ → List Text → List Text
cons_head c [] = (c ∷ []) ∷ []
cons_head c (p ∷ ps) = (c ∷ p) ∷ ps

-- `Split`
unfoldable pub split : ℕ → Text → List Text
split sep [] = [] ∷ []
split sep (c ∷ s) = let rest = split sep s in if nat_eq c sep then [] ∷ rest else cons_head c rest

-- No byte of the text is the separator.
abbrev pub IsFree : ℕ → Text → Type 0
IsFree sep s = All (λ c. nat_eq c sep ≡ false) s

pub cut-separated : (sep : ℕ) (s t : Text) → IsFree sep s → cut sep (s ++ sep ∷ t) ≡ (s, some t)
unfolding cut
cut-separated sep [] t h = ground arith
cut-separated sep (c ∷ s) t (hc, h) = rw hc (rw (cut-separated sep s t h) refl)

pub cut_whole : (sep : ℕ) (s : Text) → IsFree sep s → cut sep s ≡ (s, none)
unfolding cut
cut_whole sep [] h = refl
cut_whole sep (c ∷ s) (hc, h) = rw hc (rw (cut_whole sep s h) refl)

-- The parts with the separator between them.
abbrev pub join : ℕ → List Text → Text
join sep [] = []
join sep (p ∷ []) = p
join sep (p ∷ q ∷ ps) = p ++ (sep ∷ join sep (q ∷ ps))

split-separated :
    (sep : ℕ) (s t : Text) → IsFree sep s → split sep (s ++ (sep ∷ t)) ≡ s ∷ split sep t
unfolding split
split-separated sep [] t h = ground arith
split-separated sep (c ∷ s) t (hc, h) = rw hc (rw (split-separated sep s t h) refl)

split_whole : (sep : ℕ) (s : Text) → IsFree sep s → split sep s ≡ s ∷ []
unfolding split
split_whole sep [] h = refl
split_whole sep (c ∷ s) (hc, h) = rw hc (rw (split_whole sep s h) refl)

pub split-join :
    (sep : ℕ) (p : Text) (ps : List Text)
    → IsFree sep p
    → All (IsFree sep) ps
    → split sep (join sep (p ∷ ps)) ≡ p ∷ ps
split-join sep p [] h hs = split_whole sep p h
split-join sep p (q ∷ ps) h (hq, hs) =
    split-separated sep p (join sep (q ∷ ps)) h ∙ ap (◌∷◌ p) (split-join sep q ps hq hs)
