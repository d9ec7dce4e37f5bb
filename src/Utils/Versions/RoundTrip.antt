-- ===== src/Utils/Versions/RoundTrip.antt =====
-- What `SprintfVersion` prints, `ParseVersion` reads back.
use mathlib.Core.List.{append_assoc}
use gocsi.Base.{
  ℕ, zero, suc, ◌^◌, ◌≤◌, ◌<◌, ◌≡◌, refl, ap, ◌∙◌, true, false, none, some, List, [], ◌∷◌, ◌++◌,
  Text, is_digit, all_digits, itoa, length, arith, All, length-append, all_digits-itoa, value-itoa,
  is_empty-itoa, itoa-cons,
}
use gocsi.Csi.{Version}
use gocsi.Utils.Versions.{
  sprintf_version, span_digits, digits, atoi_uint32, match_version, find_versions, parse_versions,
}

-- The text does not begin with a digit.
abbrev pub NoDigit : Text → Type 0
NoDigit [] = Unit
NoDigit (c ∷ s) = is_digit c ≡ false

span_digits_of_digits :
    (m rest : Text) → all_digits m ≡ true → NoDigit rest → span_digits (m ++ rest) ≡ (m, rest)
unfolding span_digits all_digits
span_digits_of_digits [] [] h k = refl
span_digits_of_digits [] (c ∷ s) h k = ground arith
span_digits_of_digits (c ∷ m) rest h k = ground (arith, span_digits_of_digits m rest)

digits-itoa : (n : ℕ) (rest : Text) → NoDigit rest → digits (itoa n ++ rest) ≡ some (itoa n, rest)
unfolding digits
digits-itoa n rest k =
    rw (span_digits_of_digits (itoa n) rest (all_digits-itoa n) k) (rw is_empty-itoa)

atoi_uint32-itoa : (n : ℕ) → n < 2 ^ 32 → atoi_uint32 (itoa n) ≡ n
unfolding atoi_uint32
atoi_uint32-itoa n h = rw value-itoa (ground arith)

-- Every field is a uint32.
pub record IsVersion (v : Version) : Type 0 where
  pub major : v.major < 2 ^ 32
  pub minor : v.minor < 2 ^ 32
  pub patch : v.patch < 2 ^ 32

match_version-sprintf_version :
    (v : Version) (rest : Text)
    → IsVersion v
    → NoDigit rest
    → match_version (sprintf_version v ++ rest) ≡ some (v, rest)
unfolding match_version sprintf_version
match_version-sprintf_version v rest h k = simp (
  append_assoc,
  digits-itoa v.major (b'.' ∷ (itoa v.minor ++ b'.' ∷ (itoa v.patch ++ rest))) refl,
  digits-itoa v.minor (b'.' ∷ (itoa v.patch ++ rest)) refl,
  digits-itoa v.patch rest k,
  atoi_uint32-itoa v.major h.major,
  atoi_uint32-itoa v.minor h.minor,
  atoi_uint32-itoa v.patch h.patch,
)

sprintf_version-cons : (v : Version) → (c : ℕ) × (s : Text) × (sprintf_version v ≡ c ∷ s)
unfolding sprintf_version
sprintf_version-cons v =
    let (c, s, e) = itoa-cons v.major in
    (c, s ++ b'.' ∷ (itoa v.minor ++ b'.' ∷ itoa v.patch), rw e)

find_versions_hit :
    (fuel c : ℕ) (s : Text) (v : Version) (rest : Text)
    → match_version (c ∷ s) ≡ some (v, rest)
    → find_versions (suc fuel) (c ∷ s) ≡ v ∷ find_versions fuel rest
unfolding find_versions
find_versions_hit fuel c s v rest e = rw (e, find_versions)

find_versions_miss :
    (fuel c : ℕ) (s : Text)
    → match_version (c ∷ s) ≡ none
    → find_versions (suc fuel) (c ∷ s) ≡ find_versions fuel s
unfolding find_versions
find_versions_miss fuel c s e = rw (e, find_versions)

-- Reading a version leaves fuel for the rest.
find_versions-sprintf_version :
    (fuel : ℕ) (v : Version) (rest : Text)
    → IsVersion v
    → NoDigit rest
    → length (sprintf_version v ++ rest) ≤ fuel
    → (more : ℕ) × (length rest ≤ more)
      × (find_versions fuel (sprintf_version v ++ rest) ≡ v ∷ find_versions more rest)
find_versions-sprintf_version zero v rest h k fits =
    let (c, s, e) = sprintf_version-cons v in
    absurd (omega (arith, length-append (sprintf_version v) rest, ap length e))
find_versions-sprintf_version (suc fuel) v rest h k fits =
    let (c, s, e) = sprintf_version-cons v in
    let m : match_version (c ∷ (s ++ rest)) ≡ some (v, rest) =
      rw e at (match_version-sprintf_version v rest h k) in
    (
      fuel,
      omega (arith, length-append (sprintf_version v) rest, ap length e),
      rw e (find_versions_hit fuel c (s ++ rest) v rest m),
    )

-- No character of the text is a digit.
abbrev pub HasNoDigits : Text → Type 0
HasNoDigits = All (λ c. is_digit c ≡ false)

match_version_of_NoDigit : (s : Text) → NoDigit s → match_version s ≡ none
unfolding match_version span_digits
match_version_of_NoDigit [] h = refl
match_version_of_NoDigit (c ∷ s) h = ground arith

find_versions-append :
    (fuel : ℕ) (sep s : Text)
    → HasNoDigits sep
    → length (sep ++ s) ≤ fuel
    → (more : ℕ) × (length s ≤ more) × (find_versions fuel (sep ++ s) ≡ find_versions more s)
find_versions-append fuel [] s h fits = (fuel, fits, refl)
find_versions-append zero (c ∷ sep) s h fits = absurd (omega arith)
find_versions-append (suc fuel) (c ∷ sep) s (h, hs) fits =
    let (more, fits', e) = find_versions-append fuel sep s hs (omega arith) in
    let skip = find_versions_miss fuel c (sep ++ s) (match_version_of_NoDigit (c ∷ (sep ++ s)) h) in
    (more, fits', skip ∙ e)

-- Each version behind the separator.
abbrev separated : Text → List Version → Text
separated sep [] = []
separated sep (v ∷ vs) = sep ++ (sprintf_version v ++ separated sep vs)

-- A list of versions as it is written in `X_CSI_SUPPORTED_VERSIONS`.
abbrev pub listing : Text → List Version → Text
listing sep [] = []
listing sep (v ∷ vs) = sprintf_version v ++ separated sep vs

NoDigit-separated :
    (c : ℕ) (sep : Text) (vs : List Version) → is_digit c ≡ false → NoDigit (separated (c ∷ sep) vs)
NoDigit-separated c sep [] h = tt
NoDigit-separated c sep (v ∷ vs) h = h

find_versions-separated :
    (fuel c : ℕ) (sep : Text) (vs : List Version)
    → HasNoDigits (c ∷ sep)
    → All IsVersion vs
    → length (separated (c ∷ sep) vs) ≤ fuel
    → find_versions fuel (separated (c ∷ sep) vs) ≡ vs
find_versions-separated zero c sep [] h all fits = unfold find_versions in refl
find_versions-separated (suc fuel) c sep [] h all fits = unfold find_versions in refl
find_versions-separated fuel c sep (v ∷ vs) h (hv, all) fits =
    let rest : Text = separated (c ∷ sep) vs in
    let (f₁, fits₁, e₁) = find_versions-append fuel (c ∷ sep) (sprintf_version v ++ rest) h fits in
    let (f₂, fits₂, e₂) =
      find_versions-sprintf_version f₁ v rest hv (NoDigit-separated c sep vs h.0) fits₁ in
    e₁ ∙ e₂ ∙ ap (◌∷◌ v) (find_versions-separated f₂ c sep vs h all fits₂)

-- A list of versions with uint32 fields, printed one behind the other with a separator that is not
-- empty and has no digits, is parsed to that list.
pub parse_versions-listing :
    (c : ℕ) (sep : Text) (vs : List Version)
    → HasNoDigits (c ∷ sep)
    → All IsVersion vs
    → parse_versions (listing (c ∷ sep) vs) ≡ vs
unfolding parse_versions
parse_versions-listing c sep [] h all = unfold find_versions in refl
parse_versions-listing c sep (v ∷ vs) h (hv, all) =
    let rest : Text = separated (c ∷ sep) vs in
    let (f, fits, e) =
      find_versions-sprintf_version (length (sprintf_version v ++ rest)) v rest hv
        (NoDigit-separated c sep vs h.0) (omega arith) in
    e ∙ ap (◌∷◌ v) (find_versions-separated f c sep vs h all fits)
