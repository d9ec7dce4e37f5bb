-- ===== src/Mock/Server/Spec.antt =====
-- What a plug-in promises of its volumes, by their ids: the effects and the replies of mock/service,
-- without the order of the volumes and without the search.
use gocsi.Base.{
  ◌≡◌, true, false, none, some, List, [], ◌∷◌, Text, text, is_empty, insert, delete, path_join,
  EqualFold, itoa, ℕ,
}
use gocsi.Csi.{
  VolumeInfo, CreateVolumeRequest, DeleteVolumeRequest, ControllerPublishVolumeRequest,
  ControllerUnpublishVolumeRequest, NodePublishVolumeRequest, NodeUnpublishVolumeRequest, Request,
  Response,
}
use gocsi.Status.{Outcome, replies, refuses, not_found, invalid_argument, already_exists}
use gocsi.Mock.Service.{attribute, text_or_empty}
use gocsi.Mock.Controller.{capacity_of, dev_path_key}
use gocsi.Mock.Node.{device_of}
use gocsi.Mock.View.{View, update}

-- A request that only asks.
abbrev pub IsQuery : Request → Type 0
IsQuery (Request.create_volume req) = ⊥
IsQuery (Request.delete_volume req) = ⊥
IsQuery (Request.controller_publish_volume req) = ⊥
IsQuery (Request.controller_unpublish_volume req) = ⊥
IsQuery (Request.node_publish_volume req) = ⊥
IsQuery (Request.node_unpublish_volume req) = ⊥
IsQuery _ = Unit

-- The value of an attribute; a missing one and an empty one are alike.
abbrev pub value_of : VolumeInfo → Text → Text
value_of v key = text_or_empty (attribute v key)

abbrev pub Same : View → View → Type 0
Same b c = (w : Text) → b w ≡ c w

-- The attributes of `v` with one more, or with one less.
pub data Wrote (v : VolumeInfo) (key value : Text) : VolumeInfo → Type 0 where
  wrote :
      {m : List (Text × Text)}
      → v.attributes ≡ some m
      → Wrote v key value (record v { attributes = some (insert key value m) })

pub data Deleted (v : VolumeInfo) (key : Text) : VolumeInfo → Type 0 where
  deleted :
      {m : List (Text × Text)} {x : VolumeInfo}
      → v.attributes ≡ some m
      → x ≡ record v { attributes = some (delete key m) }
      → Deleted v key x

abbrev pub published : Text → Outcome
published device =
    replies (Response.controller_publish_volume (some ((text "device", device) ∷ [])))

abbrev pub new_info : CreateVolumeRequest → ℕ → VolumeInfo
new_info req nid = record {
  capacity_bytes = capacity_of req.capacity_range;
  id = itoa nid;
  attributes = some ((text "name", req.name) ∷ []);
}

-- What the service, at the node `node`, may answer and do with the volumes `a`.
module _ (fold : EqualFold) (node : Text) (a : View) where
  open fold use {equal_fold}

  abbrev pub IsNamed : Text → VolumeInfo → Type 0
  IsNamed n v = (t : Text) × (attribute v (text "name") ≡ some t) × (equal_fold n t ≡ true)

  pub data Promises : Request → Outcome → View → Type 0 where
    asked : {req : Request} {o : Outcome} {b : View} → IsQuery req → Same b a → Promises req o b
    -- A volume of that name is there.
    create_found :
        {req : CreateVolumeRequest} {b : View} (w : Text) (v : VolumeInfo)
        → a w ≡ some v
        → IsNamed req.name v
        → Same b a
        → Promises (Request.create_volume req) (replies (Response.create_volume (some v))) b
    -- No volume has that name, and the new one gets an id that none has.
    create_new :
        {req : CreateVolumeRequest} {b : View} (nid : ℕ)
        → ((w : Text) (v : VolumeInfo) → a w ≡ some v → ¬ IsNamed req.name v)
        → a (itoa nid) ≡ none
        → Same b (update a (itoa nid) (some (new_info req nid)))
        → Promises
            (Request.create_volume req)
            (replies (Response.create_volume (some (new_info req nid))))
            b
    delete_done :
        {req : DeleteVolumeRequest} {b : View}
        → Same b (update a req.volume_id none)
        → Promises (Request.delete_volume req) (replies Response.delete_volume) b
    publish_absent :
        {req : ControllerPublishVolumeRequest} {b : View}
        → a req.volume_id ≡ none
        → Same b a
        → Promises (Request.controller_publish_volume req) (refuses not_found req.volume_id) b
    publish_new :
        {req : ControllerPublishVolumeRequest} {b : View} (v x : VolumeInfo)
        → a req.volume_id ≡ some v
        → is_empty (value_of v (dev_path_key req.node_id)) ≡ true
        → Wrote v (dev_path_key req.node_id) (text "/dev/mock") x
        → Same b (update a req.volume_id (some x))
        → Promises (Request.controller_publish_volume req) (published (text "/dev/mock")) b
    publish_again :
        {req : ControllerPublishVolumeRequest} {b : View} (v : VolumeInfo)
        → a req.volume_id ≡ some v
        → is_empty (value_of v (dev_path_key req.node_id)) ≡ false
        → Same b a
        → Promises
            (Request.controller_publish_volume req)
            (published (value_of v (dev_path_key req.node_id)))
            b
    unpublish_absent :
        {req : ControllerUnpublishVolumeRequest} {b : View}
        → a req.volume_id ≡ none
        → Same b a
        → Promises (Request.controller_unpublish_volume req) (refuses not_found req.volume_id) b
    unpublish_again :
        {req : ControllerUnpublishVolumeRequest} {b : View} (v : VolumeInfo)
        → a req.volume_id ≡ some v
        → is_empty (value_of v (dev_path_key req.node_id)) ≡ true
        → Same b a
        → Promises
            (Request.controller_unpublish_volume req)
            (replies Response.controller_unpublish_volume)
            b
    unpublish_done :
        {req : ControllerUnpublishVolumeRequest} {b : View} (v x : VolumeInfo)
        → a req.volume_id ≡ some v
        → is_empty (value_of v (dev_path_key req.node_id)) ≡ false
        → Deleted v (dev_path_key req.node_id) x
        → Same b (update a req.volume_id (some x))
        → Promises
            (Request.controller_unpublish_volume req)
            (replies Response.controller_unpublish_volume)
            b
    node_no_device :
        {req : NodePublishVolumeRequest} {b : View}
        → device_of req.publish_volume_info ≡ none
        → Same b a
        → Promises
            (Request.node_publish_volume req)
            (refuses invalid_argument (text "publish volume info 'device' key required"))
            b
    node_absent :
        {req : NodePublishVolumeRequest} {b : View} (device : Text)
        → device_of req.publish_volume_info ≡ some device
        → a req.volume_id ≡ none
        → Same b a
        → Promises (Request.node_publish_volume req) (refuses not_found req.volume_id) b
    node_new :
        {req : NodePublishVolumeRequest} {b : View} (device : Text) (v x : VolumeInfo)
        → device_of req.publish_volume_info ≡ some device
        → a req.volume_id ≡ some v
        → is_empty (value_of v (path_join node req.target_path)) ≡ true
        → Wrote v (path_join node req.target_path) device x
        → Same b (update a req.volume_id (some x))
        → Promises (Request.node_publish_volume req) (replies Response.node_publish_volume) b
    node_again :
        {req : NodePublishVolumeRequest} {b : View} (device : Text) (v : VolumeInfo)
        → device_of req.publish_volume_info ≡ some device
        → a req.volume_id ≡ some v
        → is_empty (value_of v (path_join node req.target_path)) ≡ false
        → req.readonly ≡ false
        → Same b a
        → Promises (Request.node_publish_volume req) (replies Response.node_publish_volume) b
    node_readonly :
        {req : NodePublishVolumeRequest} {b : View} (device : Text) (v : VolumeInfo)
        → device_of req.publish_volume_info ≡ some device
        → a req.volume_id ≡ some v
        → is_empty (value_of v (path_join node req.target_path)) ≡ false
        → req.readonly ≡ true
        → Same b a
        → Promises (Request.node_publish_volume req) (refuses already_exists req.volume_id) b
    node_unpublish_absent :
        {req : NodeUnpublishVolumeRequest} {b : View}
        → a req.volume_id ≡ none
        → Same b a
        → Promises (Request.node_unpublish_volume req) (refuses not_found req.volume_id) b
    node_unpublish_again :
        {req : NodeUnpublishVolumeRequest} {b : View} (v : VolumeInfo)
        → a req.volume_id ≡ some v
        → is_empty (value_of v (path_join node req.target_path)) ≡ true
        → Same b a
        → Promises (Request.node_unpublish_volume req) (replies Response.node_unpublish_volume) b
    node_unpublish_done :
        {req : NodeUnpublishVolumeRequest} {b : View} (v x : VolumeInfo)
        → a req.volume_id ≡ some v
        → is_empty (value_of v (path_join node req.target_path)) ≡ false
        → Deleted v (path_join node req.target_path) x
        → Same b (update a req.volume_id (some x))
        → Promises (Request.node_unpublish_volume req) (replies Response.node_unpublish_volume) b
