-- ===== src/Mock/Service/Find.antt =====
-- What the loop of `findVolNoLock` in mock/service/service.go finds.
use gocsi.Base.{
  ℕ, suc, ◌+◌, ◌-◌, ◌<◌, ◌≤◌, ◌≡◌, refl, ap, ◌∙◌, arith, true, false, Option, none, some, List, [],
  ◌∷◌, ◌++◌, Text, text, ◌==◌, length, get_elem?, EqualFold, Bool-cases, inl, inr, if◌then◌else◌,
}
use gocsi.Csi.{VolumeInfo}
use gocsi.Mock.Service.{Service, find_vol_no_lock, attribute, folds_to, is_match, find_from}

module _ (fold : EqualFold) where
  open fold use {equal_fold}

  pub is_match-id :
      (v : Text) (vi : VolumeInfo) → is_match fold (text "id") v vi ≡ equal_fold v vi.id
  unfolding is_match ◌==◌ text
  is_match-id v vi = refl

  pub is_match-name :
      (v : Text) (vi : VolumeInfo) (n : Text)
      → attribute vi (text "name") ≡ some n
      → is_match fold (text "name") v vi ≡ equal_fold v n
  unfolding is_match folds_to ◌==◌ text
  is_match-name v vi n e = ap (folds_to fold v) e

  folds_to-some :
      (v : Text) (o : Option Text)
      → folds_to fold v o ≡ true
      → (n : Text) × (o ≡ some n) × (equal_fold v n ≡ true)
  unfolding folds_to
  folds_to-some v none h = absurd (cc)
  folds_to-some v (some n) h = (n, refl, h)

  -- A match by name is a name.
  pub is_match-some :
      (v : Text) (vi : VolumeInfo)
      → is_match fold (text "name") v vi ≡ true
      → (n : Text) × (attribute vi (text "name") ≡ some n) × (equal_fold v n ≡ true)
  unfolding is_match ◌==◌ text
  is_match-some v vi h = folds_to-some v (attribute vi (text "name")) h

  pub find_from-hit :
      (k v : Text) (i : ℕ) (vi : VolumeInfo) (vols : List VolumeInfo)
      → is_match fold k v vi ≡ true
      → find_from fold k v i (vi ∷ vols) ≡ some (i, vi)
  unfolding find_from
  find_from-hit k v i vi vols e = rw e

  pub find_from-miss :
      (k v : Text) (i : ℕ) (vi : VolumeInfo) (vols : List VolumeInfo)
      → is_match fold k v vi ≡ false
      → find_from fold k v i (vi ∷ vols) ≡ find_from fold k v (i + 1) vols
  unfolding find_from
  find_from-miss k v i vi vols e = rw e

  pub find_from-nil : (k v : Text) (i : ℕ) → find_from fold k v i [] ≡ none
  unfolding find_from
  find_from-nil k v i = refl

  -- A volume that is found is the one at its index, and it matches.
  pub find_from-some :
      (k v : Text) (i : ℕ) (vols : List VolumeInfo) (j : ℕ) (vi : VolumeInfo)
      → find_from fold k v i vols ≡ some (j, vi)
      → (i ≤ j)
        × (j < i + length vols)
        × (get_elem? vols (j - i) ≡ some vi)
        × (is_match fold k v vi ≡ true)
  unfolding find_from
  find_from-some k v i [] j vi e = ground arith
  find_from-some k v i (x ∷ vols) j vi e = elim (Bool-cases (is_match fold k v x)) [
    | inl hit ↦
        let same : Path (Option (ℕ × VolumeInfo)) (some (i, x)) (some (j, vi)) = rw hit at e in
        let low : i ≡ j = cc in
        let vol : x ≡ vi = cc in
        let at : j - i ≡ 0 = omega arith in
        let first : get_elem? (x ∷ vols) (j - i) ≡ some vi =
          ap (λ n. get_elem? (x ∷ vols) n) at ∙ ap some vol in
        (omega arith, omega arith, first, rw vol at hit)
    | inr miss ↦
        let (lo, hi, here, match) = find_from-some k v (i + 1) vols j vi (rw miss at e) in
        let at : j - i ≡ suc (j - (i + 1)) = omega arith in
        let next : get_elem? (x ∷ vols) (j - i) ≡ some vi =
          ap (λ n. get_elem? (x ∷ vols) n) at ∙ here in
        (omega arith, omega arith, next, match)
  ]

  pub find_from-append :
      (k v : Text) (i : ℕ) (vols : List VolumeInfo) (x : VolumeInfo)
      → find_from fold k v i vols ≡ none
      → find_from fold k v i (vols ++ x ∷ [])
        ≡ (if is_match fold k v x then some (i + length vols, x) else none)
  unfolding find_from
  find_from-append k v i [] x e = ground arith
  find_from-append k v i (y ∷ vols) x e = elim (Bool-cases (is_match fold k v y)) [
    | inl hit ↦ absurd (ground arith)
    | inr miss ↦
        let ih = find_from-append k v (i + 1) vols x (rw miss at e) in
        let at : i + 1 + length vols ≡ i + suc (length vols) = omega arith in
        rw miss (ih ∙ ap (λ n. if is_match fold k v x then some (n, x) else none) at)
  ]

  -- What the search finds is found again with more volumes behind.
  pub find_from-append_some :
      (k v : Text) (i : ℕ) (vols : List VolumeInfo) (x : VolumeInfo) (found : ℕ × VolumeInfo)
      → find_from fold k v i vols ≡ some found
      → find_from fold k v i (vols ++ x ∷ []) ≡ some found
  unfolding find_from
  find_from-append_some k v i [] x found e = ground arith
  find_from-append_some k v i (y ∷ vols) x found e = elim (Bool-cases (is_match fold k v y)) [
    | inl hit ↦ rw hit (rw hit at e)
    | inr miss ↦ rw miss (find_from-append_some k v (i + 1) vols x found (rw miss at e))
  ]

  -- What the search finds is in the list, at the index that it gives.
  pub find_vol_no_lock-some :
      (s : Service) (k v : Text) (j : ℕ) (vi : VolumeInfo)
      → find_vol_no_lock fold s k v ≡ some (j, vi)
      → (j < length s.vols) × (get_elem? s.vols j ≡ some vi) × (is_match fold k v vi ≡ true)
  unfolding find_vol_no_lock
  find_vol_no_lock-some s k v j vi e =
      let (lo, hi, here, match) = find_from-some k v 0 s.vols j vi e in
      let at : j ≡ j - 0 = omega arith in
      (omega arith, ap (λ n. get_elem? s.vols n) at ∙ here, match)
