-- ===== src/Mock/Kept.antt =====
-- What the operations of mock/service/controller.go and mock/service/node.go do to the state.
use gocsi.Base.{
  ℕ, suc, ◌+◌, ◌<◌, ◌≤◌, ◌%◌, ◌^◌, ◌≡◌, refl, ap, ◌∙◌, arith, Bool, true, false, inl, inr, some,
  ◌++◌, Text, text, length, get_elem?, take, drop, EqualFold, path_join, Option-cases, delete,
  if◌then◌else◌, is_empty,
}
use gocsi.Csi.{
  ControllerPublishVolumeRequest, ControllerUnpublishVolumeRequest, NodePublishVolumeRequest,
  NodeUnpublishVolumeRequest, VolumeInfo, CreateVolumeRequest, DeleteVolumeRequest,
}
use gocsi.Status.{Outcome}
use gocsi.Mock.Identity.{WellFormed, Issued-append, Issued-remove, Issued-set, Issued-map}
use gocsi.Mock.Service.Find.{find_vol_no_lock-some}
use gocsi.Mock.Service.{
  text_or_empty, attribute, Service, find_vol_no_lock, find_vol_by_name, new_volume,
}
use gocsi.Mock.Controller.Removal.{remove_at_lem}
use gocsi.Mock.Node.{device_of, publish, node_publish_volume, node_unpublish_volume}
use gocsi.Mock.Controller.{
  dev_path_key, controller_publish_volume, controller_unpublish_volume, create_volume,
  delete_volume, write_attribute, delete_attribute, remove_at, delete_key,
}

-- The state that a call leaves: well formed, with at most one more id given out, at the same node.
pub record Kept (s s' : Service) : Type 0 where
  pub formed : WellFormed s'
  pub at_most : s'.vols_nid ≤ s.vols_nid + 1
  pub same_node : s'.node_id ≡ s.node_id

pub same : (s : Service) → WellFormed s → Kept s s
same s w = record { formed = w; at_most = omega arith; same_node = refl }

either :
    {s : Service} (test : Bool) (a b : Outcome × Service)
    → Kept s a.1
    → Kept s b.1
    → Kept s (if test then a else b).1
either true a b p q = p
either false a b p q = q

-- The id of the volume that is written stays.
removed :
    (s : Service) (i : ℕ)
    → i < length s.vols
    → WellFormed s
    → Kept s (record s { vols = remove_at s.vols i })
removed s i h w =
    let at : i + 1 ≡ suc i = omega arith in
    let kept : remove_at s.vols i ≡ take i s.vols ++ drop (suc i) s.vols =
      remove_at_lem s.vols i h ∙ ap (λ n. take i s.vols ++ drop n s.vols) at in
    record { formed = rw kept (Issued-remove i w); at_most = omega arith; same_node = refl }

write_attribute-Kept :
    (s : Service) (i : ℕ) (v : VolumeInfo) (key value : Text) (done : Outcome)
    → get_elem? s.vols i ≡ some v
    → WellFormed s
    → Kept s (write_attribute s i v key value done).1
unfolding write_attribute
write_attribute-Kept s i v key value done g w =
    let (m, e) = Issued-map i v g w in
    rw e (record {
      formed = Issued-set i v _ g refl (_, refl) w;
      at_most = omega arith;
      same_node = refl;
    })

delete_attribute-Kept :
    (s : Service) (i : ℕ) (v : VolumeInfo) (key : Text)
    → get_elem? s.vols i ≡ some v
    → WellFormed s
    → Kept s (delete_attribute s i v key)
unfolding delete_attribute delete_key
delete_attribute-Kept s i v key g w =
    let (m, e) = Issued-map i v g w in
    record {
      formed = Issued-set i v _ g refl (delete key m, ap (delete_key key) e) w;
      at_most = omega arith;
      same_node = refl;
    }

module _ (fold : EqualFold) where
  pub create_volume-Kept :
      (req : CreateVolumeRequest) (s : Service)
      → s.vols_nid + 1 < 2 ^ 64
      → WellFormed s
      → Kept s (create_volume fold req s).1
  unfolding create_volume new_volume
  create_volume-Kept req s h w = elim (Option-cases (find_vol_by_name fold s req.name)) [
    | inl e ↦
        let id_fits : (s.vols_nid + 1) % 2 ^ 64 ≡ s.vols_nid + 1 = omega arith in
        rw (e, create_volume)
          (rw id_fits (record {
            formed = Issued-append (s.vols_nid + 1) _ (omega arith) (omega arith) refl (_, refl) w;
            at_most = omega arith;
            same_node = refl;
          }))
    | inr (found, e) ↦ rw (e, create_volume) (same s w)
  ]

  pub delete_volume-Kept :
      (req : DeleteVolumeRequest) (s : Service) → WellFormed s → Kept s (delete_volume fold req s).1
  unfolding delete_volume
  delete_volume-Kept req s w =
      elim (Option-cases (find_vol_no_lock fold s (text "id") req.volume_id)) [
        | inl e ↦ rw (e, delete_volume) (same s w)
        | inr ((i, v), e) ↦
            let (inside, here, _) = find_vol_no_lock-some fold s (text "id") req.volume_id i v e in
            rw (e, delete_volume) (removed s i inside w)
      ]

  pub controller_publish_volume-Kept :
      (req : ControllerPublishVolumeRequest) (s : Service)
      → WellFormed s
      → Kept s (controller_publish_volume fold req s).1
  unfolding controller_publish_volume
  controller_publish_volume-Kept req s w =
      elim (Option-cases (find_vol_no_lock fold s (text "id") req.volume_id)) [
        | inl e ↦ rw (e, controller_publish_volume) (same s w)
        | inr ((i, v), e) ↦
            let (inside, here, _) = find_vol_no_lock-some fold s (text "id") req.volume_id i v e in
            let key = dev_path_key req.node_id in
            rw (e, controller_publish_volume)
              (either (is_empty (text_or_empty (attribute v key))) _ _
                (write_attribute-Kept s i v key _ _ here w) (same s w))
      ]

  pub controller_unpublish_volume-Kept :
      (req : ControllerUnpublishVolumeRequest) (s : Service)
      → WellFormed s
      → Kept s (controller_unpublish_volume fold req s).1
  unfolding controller_unpublish_volume
  controller_unpublish_volume-Kept req s w =
      elim (Option-cases (find_vol_no_lock fold s (text "id") req.volume_id)) [
        | inl e ↦ rw (e, controller_unpublish_volume) (same s w)
        | inr ((i, v), e) ↦
            let (inside, here, _) = find_vol_no_lock-some fold s (text "id") req.volume_id i v e in
            let key = dev_path_key req.node_id in
            rw (e, controller_unpublish_volume)
              (either (is_empty (text_or_empty (attribute v key))) _ _ (same s w)
                (delete_attribute-Kept s i v key here w))
      ]

  pub node_unpublish_volume-Kept :
      (req : NodeUnpublishVolumeRequest) (s : Service)
      → WellFormed s
      → Kept s (node_unpublish_volume fold req s).1
  unfolding node_unpublish_volume
  node_unpublish_volume-Kept req s w =
      elim (Option-cases (find_vol_no_lock fold s (text "id") req.volume_id)) [
        | inl e ↦ rw (e, node_unpublish_volume) (same s w)
        | inr ((i, v), e) ↦
            let (inside, here, _) = find_vol_no_lock-some fold s (text "id") req.volume_id i v e in
            let key = path_join s.node_id req.target_path in
            rw (e, node_unpublish_volume)
              (either (is_empty (text_or_empty (attribute v key))) _ _ (same s w)
                (delete_attribute-Kept s i v key here w))
      ]

  publish-Kept :
      (req : NodePublishVolumeRequest) (device : Text) (s : Service)
      → WellFormed s
      → Kept s (publish fold req device s).1
  unfolding publish
  publish-Kept req device s w =
      elim (Option-cases (find_vol_no_lock fold s (text "id") req.volume_id)) [
        | inl e ↦ rw (e, publish) (same s w)
        | inr ((i, v), e) ↦
            let (inside, here, _) = find_vol_no_lock-some fold s (text "id") req.volume_id i v e in
            let key = path_join s.node_id req.target_path in
            rw (e, publish)
              (either (is_empty (text_or_empty (attribute v key))) _ _
                (write_attribute-Kept s i v key _ _ here w)
                (either req.readonly _ _ (same s w) (same s w)))
      ]

  pub node_publish_volume-Kept :
      (req : NodePublishVolumeRequest) (s : Service)
      → WellFormed s
      → Kept s (node_publish_volume fold req s).1
  unfolding node_publish_volume
  node_publish_volume-Kept req s w = elim (Option-cases (device_of req.publish_volume_info)) [
    | inl e ↦ rw (e, node_publish_volume) (same s w)
    | inr (device, e) ↦ rw (e, node_publish_volume) (publish-Kept req device s w)
  ]
