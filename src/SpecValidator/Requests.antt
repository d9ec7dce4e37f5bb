-- ===== src/SpecValidator/Requests.antt =====
-- `validateRequestVersion`, `validateRequest` and the functions for single requests.
pub mod Conformance
pub mod Codes
use gocsi.Base.{
  Bool, true, false, Option, none, some, List, [], ◌∷◌, ◌++◌, Text, text, is_empty, nat_eq, ℤ, pos,
  negsuc, if◌then◌else◌, ◌&&◌,
}
use gocsi.Csi.{Version, GoMap, len, Request, NodePublishVolumeRequest}
use gocsi.Csi.Reflect.{
  get_version, get_volume_id, get_node_id, get_user_credentials, get_volume_attributes,
  request_fields,
}
use gocsi.Status.{Check, pass, fail, ◌>>◌, fail_if, status_error, invalid_argument}
use gocsi.Utils.Versions.{compare_versions, sprintf_version}
use gocsi.SpecValidator.{Opts, contains}
use gocsi.SpecValidator.Fields.{validate_field_sizes}
use gocsi.SpecValidator.Capabilities.{
  validate_volume_capability_arg, validate_volume_capabilities_arg,
}

abbrev is_zero : ℤ → Bool
is_zero (pos n) = nat_eq n 0
is_zero (negsuc n) = false

-- The loop over the supported versions, with its break.
unfoldable pub is_supported : Version → List Version → Bool
is_supported v [] = false
is_supported v (w ∷ ws) =
    if is_zero (compare_versions (some v) (some w)) then true else is_supported v ws

check_version : List Version → Option (Option Version) → Check
unfolding is_supported
check_version supported none = pass
check_version supported (some none) = fail (status_error invalid_argument (text "nil: Version"))
check_version supported (some (some v)) =
    if is_supported v supported
    then pass
    else fail (status_error invalid_argument (text "invalid: Version=" ++ sprintf_version v))

version_checks : List Version → Request → Check
unfolding check_version
version_checks [] req = pass
version_checks (v ∷ vs) req = check_version (v ∷ vs) (get_version req)

unfoldable pub validate_request_version : Opts → Request → Check
unfolding version_checks
validate_request_version s req = version_checks s.supported_versions req

-- `required: …` for a getter that finds an empty string; a request without the getter passes.
require_text : Option Text → Text → Check
require_text none what = pass
require_text (some t) what = fail_if (is_empty t) invalid_argument (text "required: " ++ what)

-- The same for a map of no entries.
require_map : Option GoMap → Text → Check
require_map none what = pass
require_map (some m) what = fail_if (nat_eq (len m) 0) invalid_argument (text "required: " ++ what)

-- `if b { … }`
when : Bool → Check → Check
when true c = c
when false c = pass

validate_node_publish_volume_request : Opts → NodePublishVolumeRequest → Check
validate_node_publish_volume_request s r = do
  fail_if (is_empty r.target_path) invalid_argument (text "required: TargetPath")
  fail_if (s.requires_pub_vol_info && nat_eq (len r.publish_volume_info) 0) invalid_argument
      (text "required: PublishVolumeInfo")
  validate_volume_capability_arg r.volume_capability true

-- The switch on the type of the request, with the functions that it calls.
validate_by_type : Opts → Request → Check
unfolding validate_node_publish_volume_request
validate_by_type s (Request.create_volume r) = do
  fail_if (is_empty r.name) invalid_argument (text "required: Name")
  validate_volume_capabilities_arg r.volume_capabilities true
validate_by_type s (Request.controller_publish_volume r) =
    validate_volume_capability_arg r.volume_capability true
validate_by_type s (Request.validate_volume_capabilities r) =
    validate_volume_capabilities_arg r.volume_capabilities true
validate_by_type s (Request.get_capacity r) =
    validate_volume_capabilities_arg r.volume_capabilities false
validate_by_type s (Request.node_publish_volume r) = validate_node_publish_volume_request s r
validate_by_type s (Request.node_unpublish_volume r) =
    fail_if (is_empty r.target_path) invalid_argument (text "required: TargetPath")
validate_by_type s _ = pass

unfoldable pub validate_request : Opts → Text → Request → Check
unfolding require_text require_map when validate_by_type
validate_request s method req = do
  validate_field_sizes (request_fields req)
  require_text (get_volume_id req) (text "VolumeID")
  when s.requires_node_id (require_text (get_node_id req) (text "NodeID"))
  when (contains s.requires_credentials method)
      (require_map (get_user_credentials req) (text "UserCredentials"))
  when s.requires_vol_attribs (require_map (get_volume_attributes req) (text "VolumeAttributes"))
  validate_by_type s req
