-- ===== src/Tests/Tools.antt =====
-- utils on concrete inputs.
use gocsi.Base.{ℕ, ◌+◌, ◌*◌, ◌≡◌, refl, arith, none, some, [], ◌∷◌, text, negsuc}
use mathlib.Core.List.{foldr}
use gocsi.Csi.{Version}
use gocsi.Utils.Versions.{compare_versions, parse_versions}
use gocsi.Utils.Versions.RoundTrip.{IsVersion, listing, parse_versions-listing}
use gocsi.Utils.Chain.{Interceptor, bc, chain_unary_server, chain_unary_server-foldr}

abbrev v010 : Version
v010 = record { major = 0; minor = 1; patch = 0 }

abbrev v110 : Version
v110 = record { major = 1; minor = 1; patch = 0 }

v010_fits : IsVersion v010
v010_fits = record { major = omega arith; minor = omega arith; patch = omega arith }

v110_fits : IsVersion v110
v110_fits = record { major = omega arith; minor = omega arith; patch = omega arith }

parse_versions-listing_example :
    parse_versions (listing (b',' ∷ b' ' ∷ []) (v010 ∷ v110 ∷ [])) ≡ v010 ∷ v110 ∷ []
parse_versions-listing_example =
    parse_versions-listing b',' (b' ' ∷ []) (v010 ∷ v110 ∷ []) (refl, (refl, tt))
      (v010_fits, (v110_fits, tt))

above : compare_versions (some v110) (some v010) ≡ negsuc 0
unfolding compare_versions
above = refl

above_nil : compare_versions (some v010) none ≡ negsuc 0
unfolding compare_versions
above_nil = refl

-- Interceptors on numbers: each shows in the result where it stands in the chain.
abbrev append_digit : ℕ → Interceptor ℕ ℕ ℕ ℕ
append_digit d ctx req info next = next (ctx + 1) (req * 10 + d)

abbrev finish : ℕ → ℕ → ℕ
finish ctx req = req * 10 + ctx

chain_unary_server-foldr_example :
    chain_unary_server (append_digit 1 ∷ append_digit 2 ∷ append_digit 3 ∷ []) 0 7 0 finish
    ≡ foldr (bc 0) finish (append_digit 1 ∷ append_digit 2 ∷ append_digit 3 ∷ []) 0 7
chain_unary_server-foldr_example =
    chain_unary_server-foldr (append_digit 1 ∷ append_digit 2 ∷ append_digit 3 ∷ []) 0 7 0 finish

two_versions :
    parse_versions (text "v0.1.0, 1.22.3.4-beta")
    ≡ record { major = 0; minor = 1; patch = 0 } ∷ record { major = 1; minor = 22; patch = 3 } ∷ []
unfolding parse_versions text
two_versions = refl
