-- ===== src/Csi/Reflect.antt =====
-- What an assertion to a getter's interface, or reflection on the struct, sees of a message.
use gocsi.Base.{ℕ, Bool, Option, none, some, List, [], ◌∷◌, Text, text}
use gocsi.Csi.{
  Version, GoMap, CapacityRange, VolumeCapability, VolCaps, VolumeInfo, Request, Response,
}

-- The values of the fields that are neither strings nor maps.
pub data Value : Type 0 where
  version : Option Version → Value
  capacity_range : Option CapacityRange → Value
  capability : Option VolumeCapability → Value
  capabilities : VolCaps → Value
  flag : Bool → Value
  number : ℕ → Value
  volume_info : Option VolumeInfo → Value
  entries : List (Option (Option VolumeInfo)) → Value
  rpc_types : Option (List ℕ) → Value
  versions : List (Option Version) → Value

pub data Field : Type 0 where
  string_field : (name value : Text) → Field
  map_field : (name : Text) (value : GoMap) → Field
  other_field : (name : Text) (value : Value) → Field

-- `none`: the message has no such getter.
unfoldable pub get_version : Request → Option (Option Version)
get_version (Request.create_volume r) = some r.version
get_version (Request.delete_volume r) = some r.version
get_version (Request.controller_publish_volume r) = some r.version
get_version (Request.controller_unpublish_volume r) = some r.version
get_version (Request.validate_volume_capabilities r) = some r.version
get_version (Request.list_volumes r) = some r.version
get_version (Request.get_capacity r) = some r.version
get_version (Request.controller_get_capabilities v) = some v
get_version (Request.controller_probe v) = some v
get_version Request.get_supported_versions = none
get_version (Request.get_plugin_info v) = some v
get_version (Request.get_node_id v) = some v
get_version (Request.node_probe v) = some v
get_version (Request.node_get_capabilities v) = some v
get_version (Request.node_publish_volume r) = some r.version
get_version (Request.node_unpublish_volume r) = some r.version

unfoldable pub get_volume_id : Request → Option Text
get_volume_id (Request.delete_volume r) = some r.volume_id
get_volume_id (Request.controller_publish_volume r) = some r.volume_id
get_volume_id (Request.controller_unpublish_volume r) = some r.volume_id
get_volume_id (Request.validate_volume_capabilities r) = some r.volume_id
get_volume_id (Request.node_publish_volume r) = some r.volume_id
get_volume_id (Request.node_unpublish_volume r) = some r.volume_id
get_volume_id _ = none

unfoldable pub get_node_id : Request → Option Text
get_node_id (Request.controller_publish_volume r) = some r.node_id
get_node_id (Request.controller_unpublish_volume r) = some r.node_id
get_node_id _ = none

unfoldable pub get_user_credentials : Request → Option GoMap
get_user_credentials (Request.create_volume r) = some r.user_credentials
get_user_credentials (Request.delete_volume r) = some r.user_credentials
get_user_credentials (Request.controller_publish_volume r) = some r.user_credentials
get_user_credentials (Request.controller_unpublish_volume r) = some r.user_credentials
get_user_credentials (Request.node_publish_volume r) = some r.user_credentials
get_user_credentials (Request.node_unpublish_volume r) = some r.user_credentials
get_user_credentials _ = none

unfoldable pub get_volume_attributes : Request → Option GoMap
get_volume_attributes (Request.controller_publish_volume r) = some r.volume_attributes
get_volume_attributes (Request.validate_volume_capabilities r) = some r.volume_attributes
get_volume_attributes (Request.node_publish_volume r) = some r.volume_attributes
get_volume_attributes _ = none

abbrev version_field : Option Version → Field
version_field v = other_field (text "Version") (version v)

-- The fields of a request struct, in declaration order.
unfoldable pub request_fields : Request → List Field
request_fields (Request.create_volume r) =
    version_field r.version
    ∷ string_field (text "Name") r.name
    ∷ other_field (text "CapacityRange") (capacity_range r.capacity_range)
    ∷ other_field (text "VolumeCapabilities") (capabilities r.volume_capabilities)
    ∷ map_field (text "Parameters") r.parameters
    ∷ map_field (text "UserCredentials") r.user_credentials
    ∷ []
request_fields (Request.delete_volume r) =
    version_field r.version
    ∷ string_field (text "VolumeId") r.volume_id
    ∷ map_field (text "UserCredentials") r.user_credentials
    ∷ []
request_fields (Request.controller_publish_volume r) =
    version_field r.version
    ∷ string_field (text "VolumeId") r.volume_id
    ∷ string_field (text "NodeId") r.node_id
    ∷ other_field (text "VolumeCapability") (capability r.volume_capability)
    ∷ other_field (text "Readonly") (flag r.readonly)
    ∷ map_field (text "UserCredentials") r.user_credentials
    ∷ map_field (text "VolumeAttributes") r.volume_attributes
    ∷ []
request_fields (Request.controller_unpublish_volume r) =
    version_field r.version
    ∷ string_field (text "VolumeId") r.volume_id
    ∷ string_field (text "NodeId") r.node_id
    ∷ map_field (text "UserCredentials") r.user_credentials
    ∷ []
request_fields (Request.validate_volume_capabilities r) =
    version_field r.version
    ∷ string_field (text "VolumeId") r.volume_id
    ∷ other_field (text "VolumeCapabilities") (capabilities r.volume_capabilities)
    ∷ map_field (text "VolumeAttributes") r.volume_attributes
    ∷ []
request_fields (Request.list_volumes r) =
    version_field r.version
    ∷ other_field (text "MaxEntries") (number r.max_entries)
    ∷ string_field (text "StartingToken") r.starting_token
    ∷ []
request_fields (Request.get_capacity r) =
    version_field r.version
    ∷ other_field (text "VolumeCapabilities") (capabilities r.volume_capabilities)
    ∷ map_field (text "Parameters") r.parameters
    ∷ []
request_fields (Request.node_publish_volume r) =
    version_field r.version
    ∷ string_field (text "VolumeId") r.volume_id
    ∷ map_field (text "PublishVolumeInfo") r.publish_volume_info
    ∷ string_field (text "TargetPath") r.target_path
    ∷ other_field (text "VolumeCapability") (capability r.volume_capability)
    ∷ other_field (text "Readonly") (flag r.readonly)
    ∷ map_field (text "UserCredentials") r.user_credentials
    ∷ map_field (text "VolumeAttributes") r.volume_attributes
    ∷ []
request_fields (Request.node_unpublish_volume r) =
    version_field r.version
    ∷ string_field (text "VolumeId") r.volume_id
    ∷ string_field (text "TargetPath") r.target_path
    ∷ map_field (text "UserCredentials") r.user_credentials
    ∷ []
request_fields Request.get_supported_versions = []
request_fields (Request.controller_get_capabilities v) = version_field v ∷ []
request_fields (Request.controller_probe v) = version_field v ∷ []
request_fields (Request.get_plugin_info v) = version_field v ∷ []
request_fields (Request.get_node_id v) = version_field v ∷ []
request_fields (Request.node_probe v) = version_field v ∷ []
request_fields (Request.node_get_capabilities v) = version_field v ∷ []

unfoldable pub response_fields : Response → List Field
response_fields (Response.create_volume info) =
    other_field (text "VolumeInfo") (volume_info info) ∷ []
response_fields (Response.controller_publish_volume info) =
    map_field (text "PublishVolumeInfo") info ∷ []
response_fields (Response.validate_volume_capabilities r) =
    other_field (text "Supported") (flag r.supported) ∷ string_field (text "Message") r.message ∷ []
response_fields (Response.list_volumes r) =
    other_field (text "Entries") (entries r.entries)
    ∷ string_field (text "NextToken") r.next_token
    ∷ []
response_fields (Response.get_capacity n) = other_field (text "AvailableCapacity") (number n) ∷ []
response_fields (Response.controller_get_capabilities caps) =
    other_field (text "Capabilities") (rpc_types caps) ∷ []
response_fields (Response.get_supported_versions vs) =
    other_field (text "SupportedVersions") (versions vs) ∷ []
response_fields (Response.get_plugin_info r) =
    string_field (text "Name") r.name
    ∷ string_field (text "VendorVersion") r.vendor_version
    ∷ map_field (text "Manifest") r.manifest
    ∷ []
response_fields (Response.get_node_id id) = string_field (text "NodeId") id ∷ []
response_fields (Response.node_get_capabilities caps) =
    other_field (text "Capabilities") (rpc_types caps) ∷ []
response_fields _ = []
