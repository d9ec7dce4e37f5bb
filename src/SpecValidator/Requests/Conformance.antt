-- ===== src/SpecValidator/Requests/Conformance.antt =====
-- What `validateRequest` and `validateRequestVersion` accept, stated without their order of tests.
use gocsi.Base.{
  ◌<◌, ◌≡◌, ◌≢◌, ◌↔◌, ◌⊎◌, inl, refl, arith, Bool, true, false, Option, none, some, List, [], ◌∷◌,
  Text, text, is_empty, All,
}
use gocsi.Csi.{Version, GoMap, len, Request}
use gocsi.Csi.Reflect.{
  get_version, get_volume_id, get_node_id, get_user_credentials, get_volume_attributes,
  request_fields,
}
use gocsi.Status.{Check, pass, ◌>>◌}
use gocsi.Utils.Versions.Order.{compare_versions-eq-zero_iff}
use gocsi.SpecValidator.{Opts, contains}
use gocsi.SpecValidator.Fields.{Fits, validate_field_sizes-eq-pass_iff}
use gocsi.SpecValidator.Capabilities.{
  IsCapability, validate_volume_capability_arg-eq-pass_iff,
  validate_volume_capabilities_arg-eq-pass_iff,
}
use gocsi.SpecValidator.Requests.{
  is_supported, check_version, version_checks, validate_request_version, require_text, require_map,
  when, validate_by_type, validate_request,
}

-- A getter, where there is one, finds a text that is not empty.
abbrev pub HasText : Option Text → Type 0
HasText none = Unit
HasText (some t) = t ≢ []

-- A getter, where there is one, finds a map with an entry.
abbrev pub HasEntries : Option GoMap → Type 0
HasEntries none = Unit
HasEntries (some m) = 0 < len m

-- What the CSI specification asks of single requests.
abbrev pub MeetsRules : Opts → Request → Type 0
MeetsRules s (Request.create_volume r) =
    (r.name ≢ []) × (r.volume_capabilities ≢ []) × All IsCapability r.volume_capabilities
MeetsRules s (Request.controller_publish_volume r) = IsCapability r.volume_capability
MeetsRules s (Request.validate_volume_capabilities r) =
    (r.volume_capabilities ≢ []) × All IsCapability r.volume_capabilities
MeetsRules s (Request.get_capacity r) = All IsCapability r.volume_capabilities
MeetsRules s (Request.node_publish_volume r) =
    (r.target_path ≢ [])
    × (s.requires_pub_vol_info ≡ true → 0 < len r.publish_volume_info)
    × IsCapability r.volume_capability
MeetsRules s (Request.node_unpublish_volume r) = r.target_path ≢ []
MeetsRules s _ = Unit

pub record Conforms (s : Opts) (method : Text) (req : Request) : Type 0 where
  pub sizes : All Fits (request_fields req)
  pub volume_id : HasText (get_volume_id req)
  pub node_id : s.requires_node_id ≡ true → HasText (get_node_id req)
  pub credentials :
      contains s.requires_credentials method ≡ true → HasEntries (get_user_credentials req)
  pub attributes : s.requires_vol_attribs ≡ true → HasEntries (get_volume_attributes req)
  pub rules : MeetsRules s req

require_text-eq-pass_iff :
    (t : Option Text) (what : Text) → (require_text t what ≡ pass) ↔ HasText t
unfolding require_text
require_text-eq-pass_iff none what = (λ _. tt, λ _. refl)
require_text-eq-pass_iff (some []) what = ground arith
require_text-eq-pass_iff (some (c ∷ t)) what = ground arith

require_map-eq-pass_iff :
    (m : Option GoMap) (what : Text) → (require_map m what ≡ pass) ↔ HasEntries m
unfolding require_map
require_map-eq-pass_iff none what = (λ _. tt, λ _. refl)
require_map-eq-pass_iff (some m) what = ground arith

when-eq-pass_iff : (b : Bool) (c : Check) → (when b c ≡ pass) ↔ (b ≡ true → c ≡ pass)
unfolding when
when-eq-pass_iff true c = (λ h _. h, λ h. h refl)
when-eq-pass_iff false c = (λ _ h. cc, λ _. refl)

>>-eq-pass_iff : (c d : Check) → ((c >> d) ≡ pass) ↔ ((c ≡ pass) × (d ≡ pass))
>>-eq-pass_iff c d = ground arith

is_empty-eq-true : (t : Text) → is_empty t ≡ true → t ≡ []
is_empty-eq-true [] h = refl
is_empty-eq-true (c ∷ t) h = cc

validate_by_type-eq-pass_iff :
    (s : Opts) (req : Request) → (validate_by_type s req ≡ pass) ↔ MeetsRules s req
unfolding validate_by_type
validate_by_type-eq-pass_iff s (Request.create_volume r) = ground (
  arith,
  validate_volume_capabilities_arg-eq-pass_iff r.volume_capabilities true,
  is_empty-eq-true r.name,
)
validate_by_type-eq-pass_iff s (Request.controller_publish_volume r) =
    validate_volume_capability_arg-eq-pass_iff r.volume_capability true
validate_by_type-eq-pass_iff s (Request.validate_volume_capabilities r) =
    ground (arith, validate_volume_capabilities_arg-eq-pass_iff r.volume_capabilities true)
validate_by_type-eq-pass_iff s (Request.get_capacity r) =
    ground (arith, validate_volume_capabilities_arg-eq-pass_iff r.volume_capabilities false)
validate_by_type-eq-pass_iff s (Request.node_publish_volume r) = ground (
  arith,
  validate_volume_capability_arg-eq-pass_iff r.volume_capability true,
  is_empty-eq-true r.target_path,
)
validate_by_type-eq-pass_iff s (Request.node_unpublish_volume r) =
    ground (arith, is_empty-eq-true r.target_path)
validate_by_type-eq-pass_iff s _ = (λ _. tt, λ _. refl)

-- A request passes exactly when its fields keep the size limits, its volume ID is not empty, the node
-- ID, the credentials and the volume attributes are there where the options require them, and it
-- meets the rules for its type.
pub validate_request-eq-pass_iff :
    (s : Opts) (method : Text) (req : Request)
    → (validate_request s method req ≡ pass) ↔ Conforms s method req
unfolding validate_request
validate_request-eq-pass_iff s method req = ground (
  arith,
  validate_field_sizes-eq-pass_iff (request_fields req),
  require_text-eq-pass_iff (get_volume_id req) (text "VolumeID"),
  when-eq-pass_iff s.requires_node_id (require_text (get_node_id req) (text "NodeID")),
  require_text-eq-pass_iff (get_node_id req) (text "NodeID"),
  when-eq-pass_iff (contains s.requires_credentials method)
      (require_map (get_user_credentials req) (text "UserCredentials")),
  require_map-eq-pass_iff (get_user_credentials req) (text "UserCredentials"),
  when-eq-pass_iff s.requires_vol_attribs
      (require_map (get_volume_attributes req) (text "VolumeAttributes")),
  require_map-eq-pass_iff (get_volume_attributes req) (text "VolumeAttributes"),
  validate_by_type-eq-pass_iff s req,
)

-- `v` is one of the versions.
abbrev pub IsOneOf : Version → List Version → Type 0
IsOneOf v [] = ⊥
IsOneOf v (w ∷ ws) = (v ≡ w) ⊎ IsOneOf v ws

is_supported_iff : (v : Version) (vs : List Version) → (is_supported v vs ≡ true) ↔ IsOneOf v vs
unfolding is_supported
is_supported_iff v [] = ground arith
is_supported_iff v (w ∷ ws) =
    ground (arith, compare_versions-eq-zero_iff (some v) (some w), is_supported_iff v ws)

-- The version of a request, where it has the field, is there and is one of these.
abbrev pub HasVersionOf : List Version → Option (Option Version) → Type 0
HasVersionOf vs none = Unit
HasVersionOf vs (some none) = ⊥
HasVersionOf vs (some (some v)) = IsOneOf v vs

check_version-eq-pass_iff :
    (vs : List Version) (o : Option (Option Version))
    → (check_version vs o ≡ pass) ↔ HasVersionOf vs o
unfolding check_version
check_version-eq-pass_iff vs none = (λ _. tt, λ _. refl)
check_version-eq-pass_iff vs (some none) = ground arith
check_version-eq-pass_iff vs (some (some v)) = ground (arith, is_supported_iff v vs)

version_checks-eq-pass_iff :
    (vs : List Version) (req : Request)
    → (version_checks vs req ≡ pass) ↔ ((vs ≡ []) ⊎ HasVersionOf vs (get_version req))
unfolding version_checks
version_checks-eq-pass_iff [] req = (λ _. inl refl, λ _. refl)
version_checks-eq-pass_iff (v ∷ vs) req =
    ground (arith, check_version-eq-pass_iff (v ∷ vs) (get_version req))

-- The version test passes exactly when no supported versions are configured, or the request has no
-- version field, or its version is not nil and is equal to one of them.
pub validate_request_version-eq-pass_iff :
    (s : Opts) (req : Request)
    → (validate_request_version s req ≡ pass)
      ↔ ((s.supported_versions ≡ []) ⊎ HasVersionOf s.supported_versions (get_version req))
unfolding validate_request_version
validate_request_version-eq-pass_iff s req = version_checks-eq-pass_iff s.supported_versions req
