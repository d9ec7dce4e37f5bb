-- ===== src/Utils/Success.antt =====
-- `IsSuccess` and `IsSuccessfulResponse` of utils/utils.go.
use mathlib.Core.Logic.{ite}
use gocsi.Base.{
  ◌≡◌, ◌↔◌, ◌⊎◌, arith, Bool, true, false, Option, none, some, List, [], ◌∷◌, ◌||◌, Text, ◌==◌,
  if◌then◌else◌,
}
use gocsi.Status.{Status, Code, Code-discrete, Error, status, plain, ok, already_exists, not_found}
use gocsi.Status.{Status, create_volume, delete_volume}
use gocsi.Utils.Methods.{method_name}

abbrev pub same_code : Code → Code → Bool
same_code a b = ite (Code-discrete a b) true false

unfoldable pub is_listed : Code → List Code → Bool
is_listed c [] = false
is_listed c (d ∷ ds) = same_code c d || is_listed c ds

-- `IsSuccess`; an error that `status.FromError` does not know is returned as it is.
unfoldable pub is_success : Option Error → List Code → Option Error
unfolding is_listed
is_success none codes = none
is_success (some (plain m)) codes = some (plain m)
is_success (some (status st)) codes =
    if same_code st.code ok
    then none
    else if is_listed st.code codes
    then none
    else some (status st)

-- `IsSuccessfulResponse`
unfoldable pub is_successful_response : Text → Option Error → Option Error
unfolding is_success
is_successful_response method err =
    if method == method_name create_volume
    then is_success err (already_exists ∷ [])
    else if method == method_name delete_volume
    then is_success err (not_found ∷ [])
    else err

-- An error that is not nil is cleared exactly when it is an RPC status whose code is OK or listed.
pub is_success-eq-none_iff :
    (e : Error) (codes : List Code)
    → (is_success (some e) codes ≡ none)
      ↔ ((st : Status) × (e ≡ status st) × ((st.code ≡ ok) ⊎ (is_listed st.code codes ≡ true)))
unfolding is_success
is_success-eq-none_iff (plain m) codes = (λ h. cc, λ h. cc (h.1))
is_success-eq-none_iff (status st) codes = ground arith
