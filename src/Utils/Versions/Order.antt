-- ===== src/Utils/Versions/Order.antt =====
-- `CompareVersions` is the comparison of a linear order, with nil below every version.
use gocsi.Base.{zero, suc, Option, ◌≡◌, ◌≢◌, ◌↔◌, arith, ℤ, pos, negsuc}
use gocsi.Csi.{Version}
use gocsi.Utils.Versions.{compare_versions}

-- The result for the versions exchanged.
abbrev pub flip : ℤ → ℤ
flip (pos n) = elim n [ zero ↦ pos 0 | suc m ↦ negsuc m ]
flip (negsuc n) = pos (suc n)

-- Two versions, or nils, compare as 0 exactly when they are equal.
pub compare_versions-eq-zero_iff : (a b : Option Version) → (compare_versions a b ≡ pos 0) ↔ (a ≡ b)
unfolding compare_versions
compare_versions-eq-zero_iff a b = ground arith

-- Exchanging the two versions negates the result.
pub compare_versions-flip :
    (a b : Option Version) → compare_versions b a ≡ flip (compare_versions a b)
unfolding compare_versions
compare_versions-flip a b = ground arith

-- If a is not below b and b is not below c, then a is not below c, and it is equal to c only if the
-- three are equal.
pub compare_versions_trans :
    (a b c : Option Version)
    → compare_versions a b ≢ pos 1
    → compare_versions b c ≢ pos 1
    → (compare_versions a c ≢ pos 1) × (compare_versions a c ≡ pos 0 → (a ≡ b) × (b ≡ c))
unfolding compare_versions
compare_versions_trans a b c h k = ground arith
