-- ===== src/Mock/Controller.antt =====
-- mock/service/controller.go, but `ListVolumes`, and mock/service/identity.go. A map write goes to the
-- stored volume: the entry that `findVol` returns shares its attributes with it.
pub mod Removal
use gocsi.Base.{
  ℕ, ◌+◌, ◌-◌, true, Option, none, some, List, [], ◌∷◌, ◌++◌, Text, text, is_empty, ltb, length,
  take, drop, set, insert, delete, path_join, EqualFold, if◌then◌else◌,
}
use gocsi.Csi.{
  GoMap, VolumeInfo, CapacityRange, CreateVolumeRequest, DeleteVolumeRequest,
  ControllerPublishVolumeRequest, ControllerUnpublishVolumeRequest, Response,
}
use gocsi.Status.{Outcome, panicked, replies, refuses, not_found, unimplemented}
use gocsi.Mock.Service
use gocsi.Mock.Service.{
  Service, gib100, tib100, new_volume, attribute, text_or_empty, find_vol_no_lock, find_vol_by_name,
}

unfoldable pub capacity_of : Option CapacityRange → ℕ
capacity_of none = gib100
capacity_of (some cr) =
    if ltb 0 cr.limit_bytes
    then cr.limit_bytes
    else if ltb 0 cr.required_bytes
    then cr.required_bytes
    else gib100

-- `copy(vols[i:], vols[i+1:])`: the last element stays where it was.
copy_down : List VolumeInfo → ℕ → List VolumeInfo
copy_down vols i = take i vols ++ (drop (i + 1) vols ++ drop (length vols - 1) vols)

abbrev no_volume : VolumeInfo
no_volume = record { capacity_bytes = 0; id = []; attributes = none }

-- The shift, the write of a zero value at the end, and the cut.
pub remove_at : List VolumeInfo → ℕ → List VolumeInfo
unfolding copy_down
remove_at vols i =
    let moved = copy_down vols i in take (length vols - 1) (set moved (length vols - 1) no_volume)

unfoldable pub dev_path_key : Text → Text
dev_path_key node_id = path_join node_id (text "dev")

published : Text → Outcome
published device =
    replies (Response.controller_publish_volume (some ((text "device", device) ∷ [])))

-- `v.Attributes[key] = value; s.vols[i] = v`. A write to a nil map panics.
unfoldable pub write_attribute :
    Service → ℕ → VolumeInfo → Text → Text → Outcome → Outcome × Service
write_attribute s i v key value done = elim v.attributes [
  | none ↦ (panicked, s)
  | some m ↦
      (done, record s { vols = set s.vols i (record v { attributes = some (insert key value m) }) })
]

unfoldable pub delete_key : Text → GoMap → GoMap
delete_key key none = none
delete_key key (some m) = some (delete key m)

-- `delete(v.Attributes, key); s.vols[i] = v`
unfoldable pub delete_attribute : Service → ℕ → VolumeInfo → Text → Service
unfolding delete_key
delete_attribute s i v key = record s {
  vols = set s.vols i (record v { attributes = delete_key key v.attributes });
}

module _ (fold : EqualFold) where
  -- The lookup holds the lock for reading, the append holds it for writing, and between the two the
  -- lock is free: here the two run without a request in between.
  unfoldable pub create_volume : CreateVolumeRequest → Service → Outcome × Service
  unfolding capacity_of new_volume
  create_volume req s = elim (find_vol_by_name fold s req.name) [
    | some (i, v) ↦ (replies (Response.create_volume (some v)), s)
    | none ↦
        let (v, s') = new_volume s req.name (capacity_of req.capacity_range) in
        (replies (Response.create_volume (some v)), record s' { vols = s.vols ++ v ∷ [] })
  ]

  unfoldable pub delete_volume : DeleteVolumeRequest → Service → Outcome × Service
  unfolding remove_at
  delete_volume req s = elim (find_vol_no_lock fold s (text "id") req.volume_id) [
    | none ↦ (replies Response.delete_volume, s)
    | some (i, v) ↦ (replies Response.delete_volume, record s { vols = remove_at s.vols i })
  ]

  unfoldable pub controller_publish_volume :
      ControllerPublishVolumeRequest → Service → Outcome × Service
  unfolding dev_path_key published write_attribute
  controller_publish_volume req s = elim (find_vol_no_lock fold s (text "id") req.volume_id) [
    | none ↦ (refuses not_found req.volume_id, s)
    | some (i, v) ↦
        let key = dev_path_key req.node_id in
        let device = text_or_empty (attribute v key) in
        if is_empty device
        then write_attribute s i v key (text "/dev/mock") (published (text "/dev/mock"))
        else (published device, s)
  ]

  unfoldable pub controller_unpublish_volume :
      ControllerUnpublishVolumeRequest → Service → Outcome × Service
  unfolding dev_path_key delete_attribute
  controller_unpublish_volume req s = elim (find_vol_no_lock fold s (text "id") req.volume_id) [
    | none ↦ (refuses not_found req.volume_id, s)
    | some (i, v) ↦
        let key = dev_path_key req.node_id in
        if is_empty (text_or_empty (attribute v key))
        then (replies Response.controller_unpublish_volume, s)
        else (replies Response.controller_unpublish_volume, delete_attribute s i v key)
  ]

-- The operations that only answer.
unfoldable pub validate_volume_capabilities : Outcome
validate_volume_capabilities =
    replies (Response.validate_volume_capabilities (record { supported = true; message = [] }))

unfoldable pub get_capacity : Outcome
get_capacity = replies (Response.get_capacity tib100)

-- CREATE_DELETE_VOLUME, PUBLISH_UNPUBLISH_VOLUME, LIST_VOLUMES, GET_CAPACITY
unfoldable pub controller_get_capabilities : Outcome
controller_get_capabilities =
    replies (Response.controller_get_capabilities (some (1 ∷ 2 ∷ 3 ∷ 4 ∷ [])))

unfoldable pub controller_probe : Outcome
controller_probe = replies Response.controller_probe

unfoldable pub get_supported_versions : Outcome
get_supported_versions = refuses unimplemented []

unfoldable pub get_plugin_info : Outcome
get_plugin_info = replies (
    Response.get_plugin_info (record {
      name = Service.name;
      vendor_version = Service.vendor_version;
      manifest = Service.manifest;
    }))
