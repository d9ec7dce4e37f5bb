-- ===== src/Csc/Commands.antt =====
-- csc/cmd: the commands for volumes, which send one request for each argument, in
-- controller_create_volume.go, controller_delete_volume.go, controller_publish_volume.go,
-- controller_unpublish_volume.go, controller_validate_volume_capabilities.go, node_publish_volume.go
-- and node_unpublish_volume.go.
pub mod Volumes
pub mod Single
pub mod Loop
pub mod Mock
use gocsi.Base.{
  ℕ, Bool, true, false, Option, none, some, List, [], ◌∷◌, ◌++◌, Text, text, ltb, ◌||◌, is_empty,
  if◌then◌else◌,
}
use gocsi.Csi.{
  Version, GoMap, VolCaps, VolumeCapability, CapacityRange, VolumeInfo, CreateVolumeRequest,
  DeleteVolumeRequest, ControllerPublishVolumeRequest, ControllerUnpublishVolumeRequest,
  ValidateVolumeCapabilitiesRequest, NodePublishVolumeRequest, NodeUnpublishVolumeRequest, Request,
  GetPluginInfoResponse, ListVolumesResponse, ValidateVolumeCapabilitiesResponse,
}
use gocsi.Status.{Error, Attempt, failed, got}

-- The fields of the response to a request.
abbrev pub Answer : Request → Type 0
Answer (Request.create_volume req) = Option VolumeInfo
Answer (Request.delete_volume req) = Unit
Answer (Request.controller_publish_volume req) = GoMap
Answer (Request.controller_unpublish_volume req) = Unit
Answer (Request.validate_volume_capabilities req) = ValidateVolumeCapabilitiesResponse
Answer (Request.list_volumes req) = ListVolumesResponse
Answer (Request.get_capacity req) = ℕ
Answer (Request.controller_get_capabilities v) = Option (List ℕ)
Answer (Request.controller_probe v) = Unit
Answer Request.get_supported_versions = List (Option Version)
Answer (Request.get_plugin_info v) = GetPluginInfoResponse
Answer (Request.get_node_id v) = Text
Answer (Request.node_probe v) = Unit
Answer (Request.node_get_capabilities v) = Option (List ℕ)
Answer (Request.node_publish_volume req) = Unit
Answer (Request.node_unpublish_volume req) = Unit

-- A call of the generated client returns a response or an error.
abbrev pub Client : Type 0 → Type 0
Client S = (req : Request) → S → Attempt (Answer req) × S

-- What a command writes to the standard output, and the error that it returns.
abbrev pub Ran : Type 0
Ran = Text × Option Error

abbrev pub wrote : Text → Ran
wrote out = (out, none)

-- What is left to packages fmt and text/template: `%q`, the order of a map, a capability's type, and
-- the template of the command.
pub record Printer : Type 0 where
  pub quote : Text → Text
  pub entries_of : GoMap → List (Text × Text)
  pub capability_text : ℕ → Text
  pub volume : Option VolumeInfo → Ran
  pub volumes : ListVolumesResponse → Ran
  pub versions : List (Option Version) → Ran
  pub plugin_info : GetPluginInfoResponse → Ran

-- `fmt.Println` of a text.
abbrev pub line : Text → Text
line t = t ++ text "\n"

module _ {S : Type 0} where
  -- `if err != nil { return err }`, and then what is printed of the response.
  abbrev pub with_answer : {A : Type 0} → (A → Ran) → Attempt A × S → Ran × S
  with_answer print (got a, st) = (print a, st)
  with_answer print (failed e, st) = (([], some e), st)

  abbrev pub prepend : Text → Ran × S → Ran × S
  prepend out ((more, err), st) = ((out ++ more, err), st)

  -- A round that ends with an error ends the loop.
  abbrev pub after_round : (S → Ran × S) → Ran × S → Ran × S
  after_round rest ((out, some e), st) = ((out, some e), st)
  after_round rest ((out, none), st) = prepend out (rest st)

  -- The loop over the arguments.
  unfoldable pub for_each : (Text → S → Ran × S) → List Text → S → Ran × S
  for_each round [] st = (([], none), st)
  for_each round (arg ∷ args) st = after_round (for_each round args) (round arg st)

-- The flags of the root command that the requests take.
pub record Root : Type 0 where
  pub version : Version
  pub user_creds : GoMap

pub record CreateFlags : Type 0 where
  pub req_bytes : ℕ
  pub lim_bytes : ℕ
  pub caps : VolCaps
  pub params : GoMap

pub record PublishFlags : Type 0 where
  pub node_id : Text
  pub caps : VolCaps
  pub attribs : GoMap

pub record ValidateFlags : Type 0 where
  pub attribs : GoMap
  pub caps : VolCaps

pub record NodePublishFlags : Type 0 where
  pub target_path : Text
  pub pub_vol_info : GoMap
  pub attribs : GoMap
  pub read_only : Bool
  pub caps : VolCaps

-- `req.CapacityRange`
abbrev pub capacity_range : ℕ → ℕ → Option CapacityRange
capacity_range req lim =
    if ltb 0 req || ltb 0 lim
    then some (record {
      required_bytes = if ltb 0 req then req else 0;
      limit_bytes = if ltb 0 lim then lim else 0;
    })
    else none

-- `req.VolumeCapability`: the first capability, if there is one.
abbrev pub first_cap : VolCaps → Option VolumeCapability
first_cap [] = none
first_cap (c ∷ caps) = c

abbrev pub create_request : Root → CreateFlags → Text → CreateVolumeRequest
create_request root f name = record {
  version = some root.version;
  name = name;
  capacity_range = capacity_range f.req_bytes f.lim_bytes;
  volume_capabilities = f.caps;
  parameters = f.params;
  user_credentials = root.user_creds;
}

abbrev pub delete_request : Root → Text → DeleteVolumeRequest
delete_request root id = record {
  version = some root.version;
  volume_id = id;
  user_credentials = root.user_creds;
}

abbrev pub publish_request : Root → PublishFlags → Text → ControllerPublishVolumeRequest
publish_request root f id = record {
  version = some root.version;
  volume_id = id;
  node_id = f.node_id;
  volume_capability = first_cap f.caps;
  readonly = false;
  user_credentials = root.user_creds;
  volume_attributes = f.attribs;
}

abbrev pub unpublish_request : Root → Text → Text → ControllerUnpublishVolumeRequest
unpublish_request root node_id id = record {
  version = some root.version;
  volume_id = id;
  node_id = node_id;
  user_credentials = root.user_creds;
}

abbrev pub validate_request : Root → ValidateFlags → Text → ValidateVolumeCapabilitiesRequest
validate_request root f id = record {
  version = some root.version;
  volume_id = id;
  volume_capabilities = f.caps;
  volume_attributes = f.attribs;
}

abbrev pub node_publish_request : Root → NodePublishFlags → Text → NodePublishVolumeRequest
node_publish_request root f id = record {
  version = some root.version;
  volume_id = id;
  publish_volume_info = f.pub_vol_info;
  target_path = f.target_path;
  volume_capability = first_cap f.caps;
  readonly = f.read_only;
  user_credentials = root.user_creds;
  volume_attributes = f.attribs;
}

abbrev pub node_unpublish_request : Root → Text → Text → NodeUnpublishVolumeRequest
node_unpublish_request root target_path id = record {
  version = some root.version;
  volume_id = id;
  target_path = target_path;
  user_credentials = root.user_creds;
}
