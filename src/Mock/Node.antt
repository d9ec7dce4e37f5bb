-- ===== src/Mock/Node.antt =====
-- mock/service/node.go.
use gocsi.Base.{
  Option, none, some, [], ◌∷◌, Text, text, is_empty, lookup, path_join, EqualFold, if◌then◌else◌,
}
use gocsi.Csi.{GoMap, NodePublishVolumeRequest, NodeUnpublishVolumeRequest, Response}
use gocsi.Status.{Outcome, replies, refuses, not_found, invalid_argument, already_exists}
use gocsi.Mock.Service.{Service, attribute, text_or_empty, find_vol_no_lock}
use gocsi.Mock.Controller.{write_attribute, delete_attribute}

unfoldable pub device_of : GoMap → Option Text
device_of none = none
device_of (some m) = lookup (text "device") m

module _ (fold : EqualFold) where
  -- What follows the test for the device.
  unfoldable pub publish : NodePublishVolumeRequest → Text → Service → Outcome × Service
  publish req device s = elim (find_vol_no_lock fold s (text "id") req.volume_id) [
    | none ↦ (refuses not_found req.volume_id, s)
    | some (i, v) ↦
        let key = path_join s.node_id req.target_path in
        if is_empty (text_or_empty (attribute v key))
        then write_attribute s i v key device (replies Response.node_publish_volume)
        else if req.readonly
        then (refuses already_exists req.volume_id, s)
        else (replies Response.node_publish_volume, s)
  ]

  unfoldable pub node_publish_volume : NodePublishVolumeRequest → Service → Outcome × Service
  unfolding device_of publish
  node_publish_volume req s = elim (device_of req.publish_volume_info) [
    | none ↦ (refuses invalid_argument (text "publish volume info 'device' key required"), s)
    | some device ↦ publish req device s
  ]

  unfoldable pub node_unpublish_volume : NodeUnpublishVolumeRequest → Service → Outcome × Service
  node_unpublish_volume req s = elim (find_vol_no_lock fold s (text "id") req.volume_id) [
    | none ↦ (refuses not_found req.volume_id, s)
    | some (i, v) ↦
        let key = path_join s.node_id req.target_path in
        if is_empty (text_or_empty (attribute v key))
        then (replies Response.node_unpublish_volume, s)
        else (replies Response.node_unpublish_volume, delete_attribute s i v key)
  ]

unfoldable pub get_node_id : Service → Outcome
get_node_id s = replies (Response.get_node_id s.node_id)

unfoldable pub node_probe : Outcome
node_probe = replies Response.node_probe

-- UNKNOWN
unfoldable pub node_get_capabilities : Outcome
node_get_capabilities = replies (Response.node_get_capabilities (some (0 ∷ [])))
