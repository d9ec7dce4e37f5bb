-- ===== src/SpecValidator/Responses.antt =====
-- `validateResponse` and the functions for single responses. The patterns of the plug-in's name and
-- vendor version are in `Patterns`; a pattern that is written in the code compiles without error.
pub mod Conformance
pub mod Codes
use gocsi.Base.{
  ℕ, ◌+◌, Bool, false, not, Option, none, some, List, [], ◌∷◌, ◌++◌, Text, text, is_empty, itoa,
  length, nat_eq, ltb, if◌then◌else◌, ◌&&◌,
}
use gocsi.Csi.{GoMap, len, VolumeInfo, GetPluginInfoResponse, Response}
use gocsi.Csi.Reflect.{response_fields}
use gocsi.Status.{
  Check, pass, fail, panics, ◌>>◌, fail_if, status_error, internal, Reply, no_reply, nil_pointer,
  reply,
}
use gocsi.Utils.Methods.{is_nil_response}
use gocsi.SpecValidator.{Opts}
use gocsi.SpecValidator.Patterns.{name_matches, version_matches}
use gocsi.SpecValidator.Fields.{validate_field_sizes}

-- `m != nil && len(m) == 0`
abbrev pub is_hollow : GoMap → Bool
is_hollow none = false
is_hollow (some m) = nat_eq (length m) 0

abbrev pub is_hollow_list {ℓ} : {A : Type ℓ} → Option (List A) → Bool
is_hollow_list none = false
is_hollow_list (some l) = nat_eq (length l) 0

validate_create_volume_response : Opts → Option VolumeInfo → Check
validate_create_volume_response s none = fail (status_error internal (text "nil: VolumeInfo"))
validate_create_volume_response s (some info) = do
  fail_if (is_empty info.id) internal (text "empty: VolumeInfo.Id")
  fail_if (s.requires_vol_attribs && nat_eq (len info.attributes) 0) internal
      (text "non-nil, empty: VolumeInfo.Attributes")

entry_message : Text → ℕ → Text → Text
entry_message what i part = what ++ (text "Entries[" ++ (itoa i ++ (text "].VolumeInfo" ++ part)))

-- The loop over the entries; a nil entry is dereferenced.
check_list_entries : ℕ → List (Option (Option VolumeInfo)) → Check
unfolding entry_message
check_list_entries i [] = pass
check_list_entries i (none ∷ es) = panics
check_list_entries i (some none ∷ es) =
    fail (status_error internal (entry_message (text "nil: ") i []))
check_list_entries i (some (some info) ∷ es) = do
  fail_if (is_empty info.id) internal (entry_message (text "empty: ") i (text ".Id"))
  fail_if (is_hollow info.attributes) internal
      (entry_message (text "non-nil, empty: ") i (text ".Attributes"))
  check_list_entries (i + 1) es

abbrev pub plugin_name_max : ℕ
plugin_name_max = 63

name_size_message : Text → Text
name_size_message name =
    text "exceeds size limit: Name="
    ++ (name ++ (text ": max=" ++ (itoa plugin_name_max ++ (text ", size=" ++ itoa (length name)))))

validate_get_plugin_info_response : GetPluginInfoResponse → Check
unfolding name_size_message
validate_get_plugin_info_response r = do
  fail_if (is_empty r.name) internal (text "empty: Name")
  fail_if (ltb plugin_name_max (length r.name)) internal (name_size_message r.name)
  fail_if (not (name_matches r.name)) internal
      (text "invalid: Name=" ++ (r.name ++ text ": patt=^[\\w\\d]+\\.[\\w\\d\\.\\-_]*[\\w\\d]$"))
  fail_if (is_empty r.vendor_version) internal (text "empty: VendorVersion")
  fail_if (not (version_matches r.vendor_version)) internal (
      text "invalid: VendorVersion="
      ++ (r.vendor_version ++ text ": patt=^v?(\\d+\\.){2}(\\d+)(-.+)?$"))
  fail_if (is_hollow r.manifest) internal (text "non-nil, empty: Manifest")

-- The switch on the type of the response, with the functions that it calls.
response_by_type : Opts → Response → Check
unfolding validate_create_volume_response check_list_entries validate_get_plugin_info_response
response_by_type s (Response.create_volume info) = validate_create_volume_response s info
response_by_type s (Response.controller_publish_volume info) =
    fail_if (s.requires_pub_vol_info && nat_eq (len info) 0) internal
      (text "empty: PublishVolumeInfo")
response_by_type s (Response.list_volumes r) = check_list_entries 0 r.entries
response_by_type s (Response.controller_get_capabilities caps) =
    fail_if (is_hollow_list caps) internal (text "non-nil, empty: Capabilities")
response_by_type s (Response.get_supported_versions vs) =
    fail_if (nat_eq (length vs) 0) internal (text "empty: SupportedVersions")
response_by_type s (Response.get_plugin_info r) = validate_get_plugin_info_response r
response_by_type s (Response.get_node_id id) =
    fail_if (s.requires_node_id && is_empty id) internal (text "empty: NodeID")
response_by_type s (Response.node_get_capabilities caps) =
    fail_if (is_hollow_list caps) internal (text "non-nil, empty: Capabilities")
response_by_type s _ = pass

-- What follows the test for nil: reflection on a nil pointer of another type panics.
check_reply : Opts → Reply → Check
unfolding response_by_type
check_reply s no_reply = pass
check_reply s (nil_pointer kind) = panics
check_reply s (reply r) = do validate_field_sizes (response_fields r); response_by_type s r

unfoldable pub validate_response : Opts → Text → Reply → Check
unfolding check_reply
validate_response s method rep = if is_nil_response method rep then pass else check_reply s rep
