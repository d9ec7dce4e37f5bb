-- ===== src/SpecValidator/Requests/Codes.antt =====
-- The codes of the errors of the request checks.
use gocsi.Base.{
  Bool-cases, inl, inr, Text, Bool, true, false, Option, none, some, List, [], ◌∷◌, ◌≡◌,
}
use gocsi.Csi.{Version, GoMap, Request}
use gocsi.Csi.Reflect.{get_version}
use gocsi.Status.{Check, fail, ◌>>◌, Error, status_error, invalid_argument}
use gocsi.SpecValidator.{Opts}
use gocsi.SpecValidator.Errors.{
  FailsWith, passing, failing, FailsWith->>, FailsWith-message, code_rules,
}
use gocsi.SpecValidator.Fields.{validate_field_sizes-FailsWith}
use gocsi.SpecValidator.Capabilities.{
  validate_volume_capability_arg-FailsWith, validate_volume_capabilities_arg-FailsWith,
}
use gocsi.SpecValidator.Requests.{
  is_supported, check_version, version_checks, validate_request_version, require_text, require_map,
  when, validate_by_type, validate_request,
}

require_text-FailsWith :
    (t : Option Text) (what : Text) → FailsWith invalid_argument (require_text t what)
unfolding require_text
require_text-FailsWith none what = passing
require_text-FailsWith (some t) what = search code_rules

require_map-FailsWith :
    (m : Option GoMap) (what : Text) → FailsWith invalid_argument (require_map m what)
unfolding require_map
require_map-FailsWith none what = passing
require_map-FailsWith (some m) what = search code_rules

when-FailsWith :
    (b : Bool) (c : Check) → FailsWith invalid_argument c → FailsWith invalid_argument (when b c)
unfolding when
when-FailsWith true c h = h
when-FailsWith false c h = passing

ruleset request_rules = (
  code_rules, require_text-FailsWith, require_map-FailsWith, when-FailsWith,
  validate_field_sizes-FailsWith, validate_volume_capability_arg-FailsWith,
  validate_volume_capabilities_arg-FailsWith,
)

validate_by_type-FailsWith :
    (s : Opts) (req : Request) → FailsWith invalid_argument (validate_by_type s req)
unfolding validate_by_type
validate_by_type-FailsWith s (Request.create_volume r) = search request_rules
validate_by_type-FailsWith s (Request.controller_publish_volume r) = search request_rules
validate_by_type-FailsWith s (Request.validate_volume_capabilities r) = search request_rules
validate_by_type-FailsWith s (Request.get_capacity r) = search request_rules
validate_by_type-FailsWith s (Request.node_publish_volume r) = search request_rules
validate_by_type-FailsWith s (Request.node_unpublish_volume r) = search request_rules
validate_by_type-FailsWith s _ = passing

validate_request-FailsWith :
    (s : Opts) (method : Text) (req : Request)
    → FailsWith invalid_argument (validate_request s method req)
unfolding validate_request
validate_request-FailsWith s method req =
    search (request_rules, validate_by_type-FailsWith) depth 12

check_version-FailsWith :
    (vs : List Version) (v : Option (Option Version))
    → FailsWith invalid_argument (check_version vs v)
unfolding check_version
check_version-FailsWith vs none = passing
check_version-FailsWith vs (some none) = failing _
check_version-FailsWith vs (some (some v)) = elim (Bool-cases (is_supported v vs)) [
  | inl h ↦ rw h passing
  | inr h ↦ rw h (failing _)
]

version_checks-FailsWith :
    (vs : List Version) (req : Request) → FailsWith invalid_argument (version_checks vs req)
unfolding version_checks
version_checks-FailsWith [] req = passing
version_checks-FailsWith (v ∷ vs) req = check_version-FailsWith (v ∷ vs) (get_version req)

validate_request_version-FailsWith :
    (s : Opts) (req : Request) → FailsWith invalid_argument (validate_request_version s req)
unfolding validate_request_version
validate_request_version-FailsWith s req = version_checks-FailsWith s.supported_versions req

-- Whatever the options, an error of the version test or of the request check is an RPC status with
-- the code InvalidArgument.
pub request_error-IsInvalidArgument :
    (s : Opts) (method : Text) (req : Request) (e : Error)
    → (do validate_request_version s req; validate_request s method req) ≡ fail e
    → (m : Text) × (e ≡ status_error invalid_argument m)
request_error-IsInvalidArgument s method req e h =
    FailsWith-message
      (FailsWith->> (validate_request_version-FailsWith s req)
        (validate_request-FailsWith s method req))
      h
