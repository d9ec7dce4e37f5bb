-- ===== src/Mock/Identity.antt =====
-- The ids that mock/service/service.go gives to the volumes.
use gocsi.Base.{
  ℕ, zero, suc, ◌+◌, ◌<◌, ◌≤◌, ◌≡◌, ap, sym, ◌∙◌, arith, true, false, Bool-cases, inl, inr, Option,
  none, some, List, [], ◌∷◌, ◌++◌, Text, text, get_elem?, set, take, drop, itoa, itoa-injective,
  all_digits-itoa, EqualFold,
}
use gocsi.Csi.{VolumeInfo}
use gocsi.Mock.Service.Find.{
  is_match-id, find_from-hit, find_from-miss, find_from-nil, find_from-some,
}
use gocsi.Mock.Service.{Service, is_match, find_from}

abbrev pub HasMap : VolumeInfo → Type 0
HasMap v = (m : List (Text × Text)) × (v.attributes ≡ some m)

-- The ids are numbers above `lo`, at most `hi`, and they increase; no map is nil.
pub data Issued : ℕ → ℕ → List VolumeInfo → Type 0 where
  nil : {lo hi : ℕ} → Issued lo hi []
  cons :
      {lo hi : ℕ} {v : VolumeInfo} {vs : List VolumeInfo} (k : ℕ)
      → lo < k
      → k ≤ hi
      → v.id ≡ itoa k
      → HasMap v
      → Issued k hi vs
      → Issued lo hi (v ∷ vs)

abbrev pub WellFormed : Service → Type 0
WellFormed s = Issued 0 s.vols_nid s.vols

lower : {lo lo' hi : ℕ} {vs : List VolumeInfo} → lo' ≤ lo → Issued lo hi vs → Issued lo' hi vs
lower le nil = nil
lower le (cons k a b e m rest) = cons k (omega arith) b e m rest

pub Issued-append :
    {lo hi : ℕ} {vs : List VolumeInfo} (k : ℕ) (v : VolumeInfo)
    → lo ≤ hi
    → hi < k
    → v.id ≡ itoa k
    → HasMap v
    → Issued lo hi vs
    → Issued lo k (vs ++ v ∷ [])
Issued-append k v l h e m nil = cons k (omega arith) (omega arith) e m nil
Issued-append k v l h e m (cons j a b e' m' rest) =
    cons j a (omega arith) e' m' (Issued-append k v b h e m rest)

pub Issued-remove :
    {lo hi : ℕ} {vs : List VolumeInfo} (i : ℕ)
    → Issued lo hi vs
    → Issued lo hi (take i vs ++ drop (suc i) vs)
Issued-remove zero nil = nil
Issued-remove zero (cons k a b e m rest) = lower (omega arith) rest
Issued-remove (suc i) nil = nil
Issued-remove (suc i) (cons k a b e m rest) = cons k a b e m (Issued-remove i rest)

pub Issued-set :
    {lo hi : ℕ} {vs : List VolumeInfo} (i : ℕ) (v w : VolumeInfo)
    → get_elem? vs i ≡ some v
    → w.id ≡ v.id
    → HasMap w
    → Issued lo hi vs
    → Issued lo hi (set vs i w)
Issued-set i v w g e m nil = nil
Issued-set zero v w g e m (cons {v = u} k a b e' m' rest) =
    let same : u ≡ v = cc in cons k a b (e ∙ ap (λ x. x.id) (sym same) ∙ e') m rest
Issued-set (suc i) v w g e m (cons k a b e' m' rest) =
    cons k a b e' m' (Issued-set i v w g e m rest)

pub Issued-map :
    {lo hi : ℕ} {vs : List VolumeInfo} (i : ℕ) (v : VolumeInfo)
    → get_elem? vs i ≡ some v
    → Issued lo hi vs
    → HasMap v
Issued-map i v g nil = absurd cc
Issued-map zero v g (cons {v = u} k a b e m rest) = let same : u ≡ v = cc in rw same at m
Issued-map (suc i) v g (cons k a b e m rest) = Issued-map i v g rest

module _ (fold : EqualFold) where
  open fold use {equal_fold}

  -- A text that folds to one number folds to no other.
  other_number :
      (w : Text) (j k : ℕ) → j < k → equal_fold w (itoa j) ≡ true → equal_fold w (itoa k) ≡ false
  other_number w j k h e = elim (Bool-cases (equal_fold w (itoa k))) [
    | inl both ↦
        let flip = fold.fold_symm w (itoa j) e in
        let folded = fold.fold_trans (itoa j) w (itoa k) flip both in
        let same : j ≡ k =
          itoa-injective j k (fold.fold_digits (itoa j) (itoa k) (all_digits-itoa j) folded) in
        absurd (omega arith)
    | inr miss ↦ miss
  ]

  -- Above the number of a volume, no volume has its id.
  later_none :
      {lo hi : ℕ} {vs : List VolumeInfo} (w : Text) (i j : ℕ)
      → j ≤ lo
      → equal_fold w (itoa j) ≡ true
      → Issued lo hi vs
      → find_from fold (text "id") w i vs ≡ none
  later_none w i j h e nil = find_from-nil fold (text "id") w i
  later_none w i j h e (cons {v = u} {vs = us} k a b e' m rest) =
      let miss : is_match fold (text "id") w u ≡ false =
        is_match-id fold w u ∙ ap (equal_fold w) e' ∙ other_number w j k (omega arith) e in
      find_from-miss fold (text "id") w i u us miss ∙ later_none w (i + 1) j (omega arith) e rest

  -- The removal of the volume that the search by id finds leaves nothing for it to find.
  pub removed_none :
      {lo hi : ℕ} {vs : List VolumeInfo} (w : Text) (i i' d : ℕ) (v : VolumeInfo)
      → Issued lo hi vs
      → find_from fold (text "id") w i vs ≡ some (i + d, v)
      → find_from fold (text "id") w i' (take d vs ++ drop (suc d) vs) ≡ none
  removed_none w i i' d v nil e = absurd (ground (arith, find_from-nil fold (text "id") w i))
  removed_none w i i' zero v (cons {v = u} {vs = us} k a b e' m rest) e =
      elim (Bool-cases (is_match fold (text "id") w u)) [
        | inl hit ↦
            later_none w i' k (omega arith)
              (sym (ap (equal_fold w) e') ∙ sym (is_match-id fold w u) ∙ hit) rest
        | inr miss ↦
            let (above, _, _, _) =
              find_from-some fold (text "id") w (i + 1) us (i + 0) v
                (sym (find_from-miss fold (text "id") w i u us miss) ∙ e) in
            absurd (omega arith)
      ]
  removed_none w i i' (suc d) v (cons {v = u} {vs = us} k a b e' m rest) e =
      elim (Bool-cases (is_match fold (text "id") w u)) [
        | inl hit ↦
            let both : Path (Option (ℕ × VolumeInfo)) (some (i, u)) (some (i + suc d, v)) =
              sym (find_from-hit fold (text "id") w i u us hit) ∙ e in
            let same : i ≡ i + suc d = cc in absurd (omega arith)
        | inr miss ↦
            let at : i + suc d ≡ i + 1 + d = omega arith in
            let found : find_from fold (text "id") w (i + 1) us ≡ some (i + 1 + d, v) =
              sym (find_from-miss fold (text "id") w i u us miss) ∙ e ∙ ap (λ n. some (n, v)) at in
            find_from-miss fold (text "id") w i' u (take d us ++ drop (suc d) us) miss
            ∙ removed_none w (i + 1) (i' + 1) d v rest found
      ]
