-- ===== src/Utils/Versions/Fuel.antt =====
-- How many rounds the loop of ParseVersions takes: utils/utils.go.
use gocsi.Base.{
  ℕ, zero, suc, ◌<◌, ◌≤◌, ◌≡◌, refl, ap, arith, inl, inr, Option, Option-cases, none, some, [], ◌∷◌,
  Text, length,
}
use gocsi.Csi.{Version}
use gocsi.Utils.Versions.{
  span_digits, digits, dot, ◌>>=◌, match_version, find_versions, parse_versions,
}

span_digits-length : (s : Text) → length (span_digits s).1 ≤ length s
unfolding span_digits
span_digits-length [] = omega arith
span_digits-length (c ∷ s) = ground (arith, span_digits-length s)

digits-length : (s m r : Text) → digits s ≡ some (m, r) → length r < length s
unfolding digits span_digits
digits-length [] m r h = cc
digits-length (c ∷ s) m r h = ground (arith, h, span_digits-length s)

dot-length : (s r : Text) → dot s ≡ some r → length r < length s
unfolding dot
dot-length [] r h = cc
dot-length (c ∷ s) r h = ground arith

>>=-eq-some :
    {A B : Type 0} (m : Option A) (f : A → Option B) {b : B}
    → (m >>= f) ≡ some b
    → (a : A) × (m ≡ some a) × (f a ≡ some b)
>>=-eq-some (some a) f h = (a, refl, h)
>>=-eq-some none f h = cc

-- A match takes a character at least.
match_version-length :
    (s : Text) (v : Version) (rest : Text)
    → match_version s ≡ some (v, rest)
    → length rest < length s
unfolding match_version
match_version-length s v rest h =
    let (a, e1, h1) = >>=-eq-some (digits s) _ h in
    let (b, e2, h2) = >>=-eq-some (dot a.1) _ h1 in
    let (c, e3, h3) = >>=-eq-some (digits b) _ h2 in
    let (d, e4, h4) = >>=-eq-some (dot c.1) _ h3 in
    let (e, e5, h5) = >>=-eq-some (digits d) _ h4 in
    let last : e.1 ≡ rest = cc in
    omega (
      arith,
      ap length last,
      digits-length s a.0 a.1 e1,
      dot-length a.1 b e2,
      digits-length b c.0 c.1 e3,
      dot-length c.1 d e4,
      digits-length d e.0 e.1 e5,
    )

-- Any two amounts of fuel that are enough find the same versions.
find_versions_agree :
    (n m : ℕ) (s : Text) → length s ≤ n → length s ≤ m → find_versions n s ≡ find_versions m s
unfolding find_versions
find_versions_agree zero zero s h k = refl
find_versions_agree zero (suc m) [] h k = refl
find_versions_agree zero (suc m) (c ∷ s) h k = absurd (omega arith)
find_versions_agree (suc n) zero [] h k = refl
find_versions_agree (suc n) zero (c ∷ s) h k = absurd (omega arith)
find_versions_agree (suc n) (suc m) [] h k = refl
find_versions_agree (suc n) (suc m) (c ∷ s) h k = elim (Option-cases (match_version (c ∷ s))) [
  | inl miss ↦ rw (miss, find_versions) (find_versions_agree n m s (omega arith) (omega arith))
  | inr ((v, rest), hit) ↦
      let shorter = match_version-length (c ∷ s) v rest hit in
      rw (hit, find_versions)
        (ap (λ vs. v ∷ vs) (find_versions_agree n m rest (omega arith) (omega arith)))
]

-- The loop of ParseVersions ends within as many rounds as the text has bytes: with that much fuel, or
-- with more, it finds all the versions that it ever finds.
find_versions-parse_versions :
    (n : ℕ) (s : Text) → length s ≤ n → find_versions n s ≡ parse_versions s
unfolding parse_versions
find_versions-parse_versions n s h = find_versions_agree n (length s) s h (omega arith)
