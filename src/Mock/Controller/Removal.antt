-- ===== src/Mock/Controller/Removal.antt =====
-- The removal of `DeleteVolume` in mock/service/controller.go.
use mathlib.Core.List.{append_assoc}
use gocsi.Base.{
  ℕ, ◌+◌, ◌-◌, ◌<◌, ◌≡◌, refl, ap, sym, ◌∙◌, arith, List, [], ◌∷◌, ◌++◌, length, take, drop, set,
  length-append, length-take, length-drop,
}
use gocsi.Csi.{VolumeInfo}
use gocsi.Mock.Controller.{copy_down, no_volume, remove_at}

module _ {ℓ} {A : Type ℓ} where
  take-set : (xs ys : List A) (z : A) → take (length xs) (set (xs ++ ys) (length xs) z) ≡ xs
  take-set [] ys z = refl
  take-set (x ∷ xs) ys z = ap (λ l. x ∷ l) (take-set xs ys z)

  length-kept :
      (xs : List A) (i : ℕ) → i < length xs → length (take i xs ++ drop (i + 1) xs) ≡ length xs - 1
  length-kept xs i h =
      let a = length-append (take i xs) (drop (i + 1) xs) in
      let b = length-take i xs in let c = length-drop (i + 1) xs in ground arith

-- For an index in range, the copy to the front, the write of a zero value at the end and the cut are
-- the removal of the one volume at that index.
pub remove_at_lem :
    (vols : List VolumeInfo) (i : ℕ)
    → i < length vols
    → remove_at vols i ≡ take i vols ++ drop (i + 1) vols
unfolding remove_at copy_down
remove_at_lem vols i h =
    let kept = take i vols ++ drop (i + 1) vols in
    let last = drop (length vols - 1) vols in
    let size : length kept ≡ length vols - 1 = length-kept vols i h in
    let assoc : kept ++ last ≡ take i vols ++ (drop (i + 1) vols ++ last) =
      append_assoc (take i vols) (drop (i + 1) vols) last in
    ap (λ l. take (length vols - 1) (set l (length vols - 1) no_volume)) (sym assoc)
    ∙ ap (λ n. take n (set (kept ++ last) n no_volume)) (sym size)
    ∙ take-set kept last no_volume
