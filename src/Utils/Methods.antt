-- ===== src/Utils/Methods.antt =====
-- utils/utils_rpcs.go and `IsNilResponse` of utils/utils_middleware.go: the full names of the RPCs,
-- and the nil replies that hide in an interface.
use mathlib.Core.Logic.{ite}
use gocsi.Base.{
  Bool, true, false, Option, none, some, List, [], ◌∷◌, ◌++◌, ◌≡◌, ◌↔◌, ◌⊎◌, inl, refl, ap, arith,
  Text, text, ◌==◌, if◌then◌else◌,
}
use gocsi.Status.{
  Rpc, Rpc-discrete, create_volume, delete_volume, controller_publish_volume,
  controller_unpublish_volume, validate_volume_capabilities, list_volumes, get_capacity,
  controller_get_capabilities, controller_probe, get_supported_versions, get_plugin_info,
  get_node_id, node_publish_volume, node_unpublish_volume, node_probe, node_get_capabilities, Reply,
  no_reply, nil_pointer, reply,
}

namespace : Text
unfolding text
namespace = text "csi"

ctrl_svc : Text
unfolding namespace
ctrl_svc = text "/" ++ (namespace ++ text ".Controller/")

ident_svc : Text
unfolding namespace
ident_svc = text "/" ++ (namespace ++ text ".Identity/")

node_svc : Text
unfolding namespace
node_svc = text "/" ++ (namespace ++ text ".Node/")

-- The constants `CreateVolume`, `DeleteVolume` and so on.
unfoldable pub method_name : Rpc → Text
unfolding ctrl_svc ident_svc node_svc
method_name create_volume = ctrl_svc ++ text "CreateVolume"
method_name delete_volume = ctrl_svc ++ text "DeleteVolume"
method_name controller_publish_volume = ctrl_svc ++ text "ControllerPublishVolume"
method_name controller_unpublish_volume = ctrl_svc ++ text "ControllerUnpublishVolume"
method_name validate_volume_capabilities = ctrl_svc ++ text "ValidateVolumeCapabilities"
method_name list_volumes = ctrl_svc ++ text "ListVolumes"
method_name get_capacity = ctrl_svc ++ text "GetCapacity"
method_name controller_get_capabilities = ctrl_svc ++ text "ControllerGetCapabilities"
method_name controller_probe = ctrl_svc ++ text "ControllerProbe"
method_name get_supported_versions = ident_svc ++ text "GetSupportedVersions"
method_name get_plugin_info = ident_svc ++ text "GetPluginInfo"
method_name get_node_id = node_svc ++ text "GetNodeID"
method_name node_publish_volume = node_svc ++ text "NodePublishVolume"
method_name node_unpublish_volume = node_svc ++ text "NodeUnpublishVolume"
method_name node_probe = node_svc ++ text "NodeProbe"
method_name node_get_capabilities = node_svc ++ text "NodeGetCapabilities"

abbrev nil_entry : Rpc → Text × Rpc
nil_entry k = (method_name k, k)

-- The map of nil pointers, each by the type that it points to.
nil_responses : List (Text × Rpc)
nil_responses =
    nil_entry create_volume
    ∷ nil_entry delete_volume
    ∷ nil_entry controller_publish_volume
    ∷ nil_entry controller_unpublish_volume
    ∷ nil_entry validate_volume_capabilities
    ∷ nil_entry list_volumes
    ∷ nil_entry get_capacity
    ∷ nil_entry controller_get_capabilities
    ∷ nil_entry controller_probe
    ∷ nil_entry get_supported_versions
    ∷ nil_entry get_plugin_info
    ∷ nil_entry get_node_id
    ∷ nil_entry node_publish_volume
    ∷ nil_entry node_unpublish_volume
    ∷ nil_entry node_probe
    ∷ nil_entry node_get_capabilities
    ∷ []

index : Text → List (Text × Rpc) → Option Rpc
index m [] = none
index m ((k, v) ∷ rest) = if m == k then some v else index m rest

-- A missing method gives the nil interface, which no pointer equals.
is_nil_of : Option Rpc → Rpc → Bool
is_nil_of none kind = false
is_nil_of (some k) kind = ite (Rpc-discrete kind k) true false

-- `IsNilResponse`
unfoldable pub is_nil_response : Text → Reply → Bool
unfolding index is_nil_of nil_responses
is_nil_response m no_reply = true
is_nil_response m (nil_pointer kind) = is_nil_of (index m nil_responses) kind
is_nil_response m (reply r) = false

index-method_name : (k : Rpc) → index (method_name k) nil_responses ≡ some k
unfolding index nil_responses method_name text ◌==◌
index-method_name create_volume = refl
index-method_name _ = refl

-- No two RPCs share a full method name.
pub method_name-injective : (j k : Rpc) → method_name j ≡ method_name k → j ≡ k
method_name-injective j k e =
    ground (arith, index-method_name j, index-method_name k, ap (λ m. index m nil_responses) e)

-- For the method of an RPC, the replies that count as nil are the nil interface and the nil pointer
-- of the response type of that RPC, and no other reply.
pub is_nil_response-method_name_iff :
    (k : Rpc) (r : Reply)
    → (is_nil_response (method_name k) r ≡ true) ↔ ((r ≡ no_reply) ⊎ (r ≡ nil_pointer k))
unfolding is_nil_of is_nil_response
is_nil_response-method_name_iff k no_reply = (λ _. inl refl, λ _. refl)
is_nil_response-method_name_iff k (nil_pointer j) = ground (arith, index-method_name k)
is_nil_response-method_name_iff k (reply r) = (λ h. cc, ground arith)
