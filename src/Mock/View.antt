-- ===== src/Mock/View.antt =====
-- The volumes of mock/service/service.go by their ids, without their order.
use mathlib.Core.Option
use gocsi.Base.{
  ℕ, zero, suc, ◌+◌, ◌<◌, ◌≤◌, ◌≡◌, ◌≢◌, refl, ap, sym, ◌∙◌, arith, true, false, Bool-cases, inl,
  inr, Option, none, some, List, [], ◌∷◌, ◌++◌, Text, text, ◌==◌, ==_iff, ==_refl, get_elem?, set,
  take, drop, itoa, itoa-injective, all_digits, all_digits-itoa, EqualFold, if◌then◌else◌,
}
use gocsi.Csi.{VolumeInfo}
use gocsi.Mock.Identity.{Issued, nil, cons}
use gocsi.Mock.Service.Find.{is_match-id, find_from-hit, find_from-miss, find_from-nil}
use gocsi.Mock.Service.{is_match, find_from}

-- The volume that an id stands for.
abbrev pub View : Type 0
View = Text → Option VolumeInfo

abbrev pub at : List VolumeInfo → View
at [] w = none
at (v ∷ vs) w = if w == v.id then some v else at vs w

abbrev pub update : View → Text → Option VolumeInfo → View
update a k o w = if w == k then o else a w

-- The ids of a part of the list are above the bound.
pub Issued-above :
    {lo hi : ℕ} {vs : List VolumeInfo} (i : ℕ) (v : VolumeInfo)
    → Issued lo hi vs
    → get_elem? vs i ≡ some v
    → (j : ℕ) × (lo < j) × (j ≤ hi) × (v.id ≡ itoa j)
Issued-above i v nil g = absurd cc
Issued-above zero v (cons {v = u} k a b e m rest) g =
    let same : u ≡ v = cc in (k, a, b, ap (λ x. x.id) (sym same) ∙ e)
Issued-above (suc i) v (cons k a b e m rest) g =
    let (j, low, high, named) = Issued-above i v rest g in (j, omega arith, high, named)

-- Different numbers give different ids.
ids_apart : (s t : Text) (j k : ℕ) → s ≡ itoa j → t ≡ itoa k → j ≢ k → (s == t) ≡ false
ids_apart s t j k es et h = elim (Bool-cases (s == t)) [
  | inl same ↦ absurd (h (itoa-injective j k (sym es ∙ (==_iff s t).0 same ∙ et)))
  | inr apart ↦ apart
]

-- An id that is not above the bound stands for nothing.
pub at_below :
    {lo hi : ℕ} {vs : List VolumeInfo} (j : ℕ) → j ≤ lo → Issued lo hi vs → at vs (itoa j) ≡ none
at_below j h nil = refl
at_below j h (cons {v = u} {vs = us} k a b e m rest) =
    rw (ids_apart (itoa j) u.id j k refl e (λ d. absurd (omega arith)))
      (at_below j (omega arith) rest)

pub at_above :
    {lo hi : ℕ} {vs : List VolumeInfo} (j : ℕ) → hi < j → Issued lo hi vs → at vs (itoa j) ≡ none
at_above j h nil = refl
at_above j h (cons {v = u} {vs = us} k a b e m rest) =
    rw (ids_apart (itoa j) u.id j k refl e (λ d. absurd (omega arith))) (at_above j h rest)

-- The volume at an index is the one of its id.
pub at-get_elem? :
    {lo hi : ℕ} {vs : List VolumeInfo} (i : ℕ) (v : VolumeInfo)
    → Issued lo hi vs
    → get_elem? vs i ≡ some v
    → at vs v.id ≡ some v
at-get_elem? i v nil g = absurd cc
at-get_elem? zero v (cons {v = u} k a b e m rest) g =
    let same : u ≡ v = cc in rw same (rw (==_refl v.id) refl)
at-get_elem? (suc i) v (cons {v = u} k a b e m rest) g =
    let (j, low, high, named) = Issued-above i v rest g in
    rw (ids_apart v.id u.id j k named e (λ d. absurd (omega arith))) (at-get_elem? i v rest g)

-- A write to the volume at an index, which keeps its id.
pub at-set :
    {lo hi : ℕ} {vs : List VolumeInfo} (i : ℕ) (v x : VolumeInfo) (w : Text)
    → Issued lo hi vs
    → get_elem? vs i ≡ some v
    → x.id ≡ v.id
    → at (set vs i x) w ≡ update (at vs) v.id (some x) w
at-set i v x w nil g e = absurd cc
at-set zero v x w (cons {v = u} {vs = us} k a b eu m rest) g e =
    let same : u ≡ v = cc in ground (arith, same, e, ==_iff w x.id, ==_iff w v.id, ==_iff w u.id)
at-set (suc i) v x w (cons {v = u} {vs = us} k a b eu m rest) g e =
    let (j, low, high, named) = Issued-above i v rest g in
    let apart : (v.id == u.id) ≡ false =
      ids_apart v.id u.id j k named eu (λ d. absurd (omega arith)) in
    ground (arith, at-set i v x w rest g e, ==_iff w u.id, ==_iff w v.id, ==_iff v.id u.id)

-- The removal of the volume at an index.
pub at_removed :
    {lo hi : ℕ} {vs : List VolumeInfo} (i : ℕ) (v : VolumeInfo) (w : Text)
    → Issued lo hi vs
    → get_elem? vs i ≡ some v
    → at (take i vs ++ drop (suc i) vs) w ≡ update (at vs) v.id none w
at_removed i v w nil g = absurd cc
at_removed zero v w (cons {v = u} {vs = us} k a b eu m rest) g =
    let same : u ≡ v = cc in
    let gone : w ≡ v.id → at us w ≡ none =
      λ d. ap (at us) (d ∙ ap (λ y. y.id) (sym same) ∙ eu) ∙ at_below k (omega arith) rest in
    ground (arith, same, gone, ==_iff w v.id, ==_iff w u.id)
at_removed (suc i) v w (cons {v = u} {vs = us} k a b eu m rest) g =
    let (j, low, high, named) = Issued-above i v rest g in
    let apart : (v.id == u.id) ≡ false =
      ids_apart v.id u.id j k named eu (λ d. absurd (omega arith)) in
    ground (arith, at_removed i v w rest g, ==_iff w u.id, ==_iff w v.id, ==_iff v.id u.id)

-- A volume behind the others.
pub at-append :
    (vs : List VolumeInfo) (x : VolumeInfo) (w : Text)
    → at vs x.id ≡ none
    → at (vs ++ x ∷ []) w ≡ update (at vs) x.id (some x) w
at-append [] x w h = refl
at-append (v ∷ vs) x w h =
    ground (arith, at-append vs x w, ==_iff w v.id, ==_iff w x.id, ==_iff x.id v.id)

-- What an id stands for is in the list.
pub at-some :
    (vs : List VolumeInfo) (w : Text) (u : VolumeInfo)
    → at vs w ≡ some u
    → (i : ℕ) × (get_elem? vs i ≡ some u) × (u.id ≡ w)
at-some [] w u h = absurd cc
at-some (v ∷ vs) w u h = elim (Bool-cases (w == v.id)) [
  | inl same ↦ (0, ground arith, ground (arith, ==_iff w v.id))
  | inr apart ↦ let (i, here, named) = at-some vs w u (ground arith) in (suc i, here, named)
]

module _ (fold : EqualFold) where
  open fold use {equal_fold}

  -- A text that folds to the id of a volume is the id.
  equal_fold-id : (w t : Text) (k : ℕ) → t ≡ itoa k → equal_fold w t ≡ (w == t)
  equal_fold-id w t k e = elim (Bool-cases (equal_fold w t)) [
    | inl both ↦
        let digits : all_digits t ≡ true = ap all_digits e ∙ all_digits-itoa k in
        let same : t ≡ w = fold.fold_digits t w digits (fold.fold_symm w t both) in
        both ∙ sym (ap (λ y. w == y) same ∙ ==_refl w)
    | inr apart ↦ elim (Bool-cases (w == t)) [
      | inl same ↦
          let match : equal_fold w t ≡ true =
            ap (λ y. equal_fold y t) ((==_iff w t).0 same) ∙ fold.fold_refl t in
          absurd (cc)
      | inr other ↦ apart ∙ sym other
    ]
  ]

  is_match_at :
      (w : Text) (u : VolumeInfo) (k : ℕ)
      → u.id ≡ itoa k
      → is_match fold (text "id") w u ≡ (w == u.id)
  is_match_at w u k e = is_match-id fold w u ∙ equal_fold-id w u.id k e

  -- The search by id finds the volume of the id.
  pub find_from-at :
      {lo hi : ℕ} {vs : List VolumeInfo} (w : Text) (i : ℕ)
      → Issued lo hi vs
      → Option.map (λ p. p.1) (find_from fold (text "id") w i vs) ≡ at vs w
  find_from-at w i nil = ap (Option.map (λ p. p.1)) (find_from-nil fold (text "id") w i)
  find_from-at w i (cons {v = u} {vs = us} k a b e m rest) = elim (Bool-cases (w == u.id)) [
    | inl same ↦
        ap (Option.map (λ p. p.1))
          (find_from-hit fold (text "id") w i u us (is_match_at w u k e ∙ same))
        ∙ rw same refl
    | inr other ↦
        ap (Option.map (λ p. p.1))
          (find_from-miss fold (text "id") w i u us (is_match_at w u k e ∙ other))
        ∙ find_from-at w (i + 1) rest
        ∙ rw other refl
  ]

  -- A search that finds nothing met no match.
  pub find_from-none :
      (k w : Text) (i j : ℕ) (vs : List VolumeInfo) (u : VolumeInfo)
      → find_from fold k w i vs ≡ none
      → get_elem? vs j ≡ some u
      → is_match fold k w u ≡ false
  find_from-none k w i j [] u h g = absurd cc
  find_from-none k w i zero (v ∷ vs) u h g = elim (Bool-cases (is_match fold k w v)) [
    | inl hit ↦ let found = find_from-hit fold k w i v vs hit in absurd (cc)
    | inr miss ↦ let same : v ≡ u = cc in rw same at miss
  ]
  find_from-none k w i (suc j) (v ∷ vs) u h g = elim (Bool-cases (is_match fold k w v)) [
    | inl hit ↦ let found = find_from-hit fold k w i v vs hit in absurd (cc)
    | inr miss ↦ find_from-none k w (i + 1) j vs u (sym (find_from-miss fold k w i v vs miss) ∙ h) g
  ]
