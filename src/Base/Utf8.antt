-- ===== src/Base/Utf8.antt =====
-- How `range` reads a string: rune by rune, where a byte that starts no valid UTF-8 sequence stands
-- for the rune U+FFFD.
use Prim.Native.Nat.{ℕ, zero, suc}
use mathlib.Core.Bool.{Bool, true, false, ◌&&◌}
use mathlib.Core.Option.{Option, none, some}
use mathlib.Core.List.{[], ◌∷◌}
use gocsi.Base.Tests.{leb, ltb, if◌then◌else◌}
use gocsi.Base.Strings.{Text}

abbrev between : ℕ → ℕ → ℕ → Bool
between lo hi c = leb lo c && leb c hi

-- How many bytes of this kind follow, the first of them in a range of its own.
follow : ℕ → ℕ → ℕ → Text → Bool
follow lo hi zero s = true
follow lo hi (suc n) [] = false
follow lo hi (suc n) (c ∷ s) = between lo hi c && follow 128 191 n s

abbrev if_follow : ℕ → ℕ → ℕ → Text → Option ℕ
if_follow lo hi n s = if follow lo hi n s then some n else none

-- The number of bytes behind the first byte of a rune; `none` if the bytes are no rune.
rune_rest : ℕ → Text → Option ℕ
unfolding follow
rune_rest c s =
    if ltb c 128
    then some 0
    else if between 194 223 c
    then if_follow 128 191 1 s
    else if between 224 239 c
    then if_follow (if leb c 224 then 160 else 128) (if between 237 237 c then 159 else 191) 2 s
    else if between 240 244 c
    then if_follow (if leb c 240 then 144 else 128) (if leb 244 c then 143 else 191) 3 s
    else none

-- The runes of a string, encoded again; `n` is the number of bytes left of the present rune.
runes : ℕ → Text → Text
unfolding rune_rest
runes n [] = []
runes (suc n) (c ∷ s) = c ∷ runes n s
runes zero (c ∷ s) = elim (rune_rest c s) [
  | some n ↦ c ∷ runes n s
  | none ↦ 239 ∷ 191 ∷ 189 ∷ runes zero s
]

unfoldable pub range_text : Text → Text
unfolding runes
range_text s = runes 0 s
