-- ===== src/Csi.antt =====
-- The CSI messages that the code handles, as generated from the CSI specification
-- (vendor/github.com/container-storage-interface/spec/lib/go/csi/csi.pb.go): field for field.
-- A pointer is an `Option`, and so is a map or a slice whose nil the code tells from an empty one.
pub mod Reflect
use gocsi.Base.{ℕ, Bool, Option, none, some, List, [], Text, length}

pub record Version : Type 0 where
  pub major : ℕ
  pub minor : ℕ
  pub patch : ℕ

abbrev pub GoMap : Type 0
GoMap = Option (List (Text × Text))

-- `len` of a map: a nil map has no entries.
abbrev pub len : GoMap → ℕ
len none = 0
len (some entries) = length entries

pub record MountVolume : Type 0 where
  pub fs_type : Text
  pub mount_flags : List Text

-- The oneof's wrapper structs hold pointers, which may be nil.
pub data AccessType : Type 0 where
  block : Option (Unit {0}) → AccessType
  mount : Option MountVolume → AccessType

pub record VolumeCapability : Type 0 where
  pub access_type : Option AccessType
  pub access_mode : Option ℕ

pub record CapacityRange : Type 0 where
  pub required_bytes : ℕ
  pub limit_bytes : ℕ

pub record VolumeInfo : Type 0 where
  pub capacity_bytes : ℕ
  pub id : Text
  pub attributes : GoMap

abbrev pub VolCaps : Type 0
VolCaps = List (Option VolumeCapability)

pub record CreateVolumeRequest : Type 0 where
  pub version : Option Version
  pub name : Text
  pub capacity_range : Option CapacityRange
  pub volume_capabilities : VolCaps
  pub parameters : GoMap
  pub user_credentials : GoMap

pub record DeleteVolumeRequest : Type 0 where
  pub version : Option Version
  pub volume_id : Text
  pub user_credentials : GoMap

pub record ControllerPublishVolumeRequest : Type 0 where
  pub version : Option Version
  pub volume_id : Text
  pub node_id : Text
  pub volume_capability : Option VolumeCapability
  pub readonly : Bool
  pub user_credentials : GoMap
  pub volume_attributes : GoMap

pub record ControllerUnpublishVolumeRequest : Type 0 where
  pub version : Option Version
  pub volume_id : Text
  pub node_id : Text
  pub user_credentials : GoMap

pub record ValidateVolumeCapabilitiesRequest : Type 0 where
  pub version : Option Version
  pub volume_id : Text
  pub volume_capabilities : VolCaps
  pub volume_attributes : GoMap

pub record ListVolumesRequest : Type 0 where
  pub version : Option Version
  pub max_entries : ℕ
  pub starting_token : Text

pub record GetCapacityRequest : Type 0 where
  pub version : Option Version
  pub volume_capabilities : VolCaps
  pub parameters : GoMap

pub record NodePublishVolumeRequest : Type 0 where
  pub version : Option Version
  pub volume_id : Text
  pub publish_volume_info : GoMap
  pub target_path : Text
  pub volume_capability : Option VolumeCapability
  pub readonly : Bool
  pub user_credentials : GoMap
  pub volume_attributes : GoMap

pub record NodeUnpublishVolumeRequest : Type 0 where
  pub version : Option Version
  pub volume_id : Text
  pub target_path : Text
  pub user_credentials : GoMap

-- A request that is not nil. The requests whose only field is the version carry it alone.
pub data Request : Type 0 where
  create_volume : CreateVolumeRequest → Request
  delete_volume : DeleteVolumeRequest → Request
  controller_publish_volume : ControllerPublishVolumeRequest → Request
  controller_unpublish_volume : ControllerUnpublishVolumeRequest → Request
  validate_volume_capabilities : ValidateVolumeCapabilitiesRequest → Request
  list_volumes : ListVolumesRequest → Request
  get_capacity : GetCapacityRequest → Request
  controller_get_capabilities controller_probe : Option Version → Request
  get_supported_versions : Request
  get_plugin_info get_node_id node_probe node_get_capabilities : Option Version → Request
  node_publish_volume : NodePublishVolumeRequest → Request
  node_unpublish_volume : NodeUnpublishVolumeRequest → Request

pub record GetPluginInfoResponse : Type 0 where
  pub name : Text
  pub vendor_version : Text
  pub manifest : GoMap

pub record ListVolumesResponse : Type 0 where
  -- an entry is a pointer to a struct whose one field is a pointer
  pub entries : List (Option (Option VolumeInfo))
  pub next_token : Text

pub record ValidateVolumeCapabilitiesResponse : Type 0 where
  pub supported : Bool
  pub message : Text

-- A capability is its RPC type, a number of the generated enumeration.
pub data Response : Type 0 where
  create_volume : Option VolumeInfo → Response
  delete_volume : Response
  controller_publish_volume : (publish_volume_info : GoMap) → Response
  controller_unpublish_volume : Response
  validate_volume_capabilities : ValidateVolumeCapabilitiesResponse → Response
  list_volumes : ListVolumesResponse → Response
  get_capacity : (available_capacity : ℕ) → Response
  controller_get_capabilities : Option (List ℕ) → Response
  controller_probe : Response
  get_supported_versions : List (Option Version) → Response
  get_plugin_info : GetPluginInfoResponse → Response
  get_node_id : (node_id : Text) → Response
  node_publish_volume node_unpublish_volume node_probe : Response
  node_get_capabilities : Option (List ℕ) → Response
