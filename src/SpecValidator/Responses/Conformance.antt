-- ===== src/SpecValidator/Responses/Conformance.antt =====
-- What `validateResponse` accepts, stated without its order of tests.
use gocsi.Base.{
  ℕ, ◌+◌, ◌<◌, ◌≤◌, ◌≡◌, ◌≢◌, ◌↔◌, refl, arith, true, false, Option, none, some, List, [], ◌∷◌,
  Text, is_empty, length, All,
}
use gocsi.Csi.{len, VolumeInfo, GetPluginInfoResponse, Response}
use gocsi.Csi.Reflect.{response_fields}
use gocsi.Status.{pass, reply}
use gocsi.Utils.Methods.{is_nil_response}
use gocsi.SpecValidator.{Opts}
use gocsi.SpecValidator.Fields.{Fits, validate_field_sizes-eq-pass_iff}
use gocsi.SpecValidator.Patterns.{name_matches, version_matches}
use gocsi.SpecValidator.Responses.{
  is_hollow, is_hollow_list, validate_create_volume_response, check_list_entries, plugin_name_max,
  validate_get_plugin_info_response, response_by_type, validate_response,
}

-- An entry of a list of volumes: nothing is nil, the ID is not empty, the attributes are nil or not
-- empty.
abbrev pub IsEntry : Option (Option VolumeInfo) → Type 0
IsEntry none = ⊥
IsEntry (some none) = ⊥
IsEntry (some (some info)) = (info.id ≢ []) × (is_hollow info.attributes ≡ false)

-- What the CSI specification asks of single responses.
abbrev pub MeetsRules : Opts → Response → Type 0
MeetsRules s (Response.create_volume none) = ⊥
MeetsRules s (Response.create_volume (some info)) =
    (info.id ≢ []) × (s.requires_vol_attribs ≡ true → 0 < len info.attributes)
MeetsRules s (Response.controller_publish_volume info) =
    s.requires_pub_vol_info ≡ true → 0 < len info
MeetsRules s (Response.list_volumes r) = All IsEntry r.entries
MeetsRules s (Response.controller_get_capabilities caps) = is_hollow_list caps ≡ false
MeetsRules s (Response.get_supported_versions vs) = vs ≢ []
MeetsRules s (Response.get_plugin_info r) =
    (r.name ≢ [])
    × (length r.name ≤ plugin_name_max)
    × (name_matches r.name ≡ true)
    × (r.vendor_version ≢ [])
    × (version_matches r.vendor_version ≡ true)
    × (is_hollow r.manifest ≡ false)
MeetsRules s (Response.get_node_id id) = s.requires_node_id ≡ true → id ≢ []
MeetsRules s (Response.node_get_capabilities caps) = is_hollow_list caps ≡ false
MeetsRules s _ = Unit

is_empty-eq-true : (t : Text) → is_empty t ≡ true → t ≡ []
is_empty-eq-true [] h = refl
is_empty-eq-true (c ∷ t) h = cc

check_list_entries-eq-pass_iff :
    (i : ℕ) (es : List (Option (Option VolumeInfo)))
    → (check_list_entries i es ≡ pass) ↔ All IsEntry es
unfolding check_list_entries
check_list_entries-eq-pass_iff i [] = (λ _. tt, λ _. refl)
check_list_entries-eq-pass_iff i (none ∷ es) = ground arith
check_list_entries-eq-pass_iff i (some none ∷ es) = ground arith
check_list_entries-eq-pass_iff i (some (some info) ∷ es) =
    ground (arith, is_empty-eq-true info.id, check_list_entries-eq-pass_iff (i + 1) es)

plugin_info-eq-pass_iff :
    (s : Opts) (r : GetPluginInfoResponse)
    → (validate_get_plugin_info_response r ≡ pass) ↔ MeetsRules s (Response.get_plugin_info r)
unfolding validate_get_plugin_info_response
plugin_info-eq-pass_iff s r =
    ground (arith, is_empty-eq-true r.name, is_empty-eq-true r.vendor_version)

response_by_type-eq-pass_iff :
    (s : Opts) (r : Response) → (response_by_type s r ≡ pass) ↔ MeetsRules s r
unfolding response_by_type validate_create_volume_response
response_by_type-eq-pass_iff s (Response.create_volume none) = ground arith
response_by_type-eq-pass_iff s (Response.create_volume (some info)) =
    ground (arith, is_empty-eq-true info.id)
response_by_type-eq-pass_iff s (Response.controller_publish_volume info) = ground arith
response_by_type-eq-pass_iff s (Response.list_volumes r) =
    check_list_entries-eq-pass_iff 0 r.entries
response_by_type-eq-pass_iff s (Response.controller_get_capabilities caps) = ground arith
response_by_type-eq-pass_iff s (Response.get_supported_versions []) = ground arith
response_by_type-eq-pass_iff s (Response.get_supported_versions (v ∷ vs)) = ground arith
response_by_type-eq-pass_iff s (Response.get_plugin_info r) = plugin_info-eq-pass_iff s r
response_by_type-eq-pass_iff s (Response.get_node_id id) = ground (arith, is_empty-eq-true id)
response_by_type-eq-pass_iff s (Response.node_get_capabilities caps) = ground arith
response_by_type-eq-pass_iff s _ = (λ _. tt, λ _. refl)

-- A response that is not nil passes exactly when its fields keep the size limits and it meets the
-- rules for its type; this does not depend on the method.
pub validate_response-eq-pass_iff :
    (s : Opts) (method : Text) (r : Response)
    → (validate_response s method (reply r) ≡ pass)
      ↔ (All Fits (response_fields r) × MeetsRules s r)
unfolding validate_response is_nil_response
validate_response-eq-pass_iff s method r =
    ground (
      arith,
      validate_field_sizes-eq-pass_iff (response_fields r),
      response_by_type-eq-pass_iff s r,
    )
