-- ===== src/Mock/Server/Calls.antt =====
-- What the calls of mock/service/controller.go and mock/service/node.go promise of the volumes, but
-- `CreateVolume`.
use mathlib.Core.Option
use gocsi.Base.{
  ℕ, suc, ◌+◌, ◌<◌, ◌≡◌, refl, ap, sym, ◌∙◌, arith, inl, inr, none, some, ◌++◌, Text, text, length,
  get_elem?, set, take, drop, EqualFold, path_join, Option-cases, Bool-cases, ==_iff, is_empty,
}
use gocsi.Csi.{
  Request, Response, DeleteVolumeRequest, ControllerPublishVolumeRequest,
  ControllerUnpublishVolumeRequest, NodePublishVolumeRequest, NodeUnpublishVolumeRequest,
  VolumeInfo,
}
use gocsi.Status.{Outcome, replies}
use gocsi.Mock.Identity.{WellFormed, Issued-map}
use gocsi.Mock.Service.Find.{find_vol_no_lock-some}
use gocsi.Mock.Service.{Service, find_vol_no_lock}
use gocsi.Mock.Controller.Removal.{remove_at_lem}
use gocsi.Mock.Controller.{
  dev_path_key, delete_volume, remove_at, controller_publish_volume, controller_unpublish_volume,
  write_attribute, delete_attribute, delete_key,
}
use gocsi.Mock.Node.{device_of, publish, node_publish_volume, node_unpublish_volume}
use gocsi.Mock.View.{View, at, update, at-set, at_removed, at-some, find_from-at}
use gocsi.Mock.Effects.{delete_volume-found, delete_volume-missing}
use gocsi.Mock.Server.Spec.{
  Promises, Same, delete_done, publish_absent, publish_new, publish_again, unpublish_absent,
  unpublish_again, unpublish_done, node_no_device, node_absent, node_new, node_again, node_readonly,
  node_unpublish_absent, node_unpublish_again, node_unpublish_done, Wrote, wrote, Deleted, deleted,
  value_of, published,
}

-- A call from `s`, and what it leaves.
abbrev pub Keeps : EqualFold → Service → Request → Outcome × Service → Type 0
Keeps fold s req r = Promises fold s.node_id (at s.vols) req r.0 (at r.1.vols)

pub unchanged : (s : Service) → Same (at s.vols) (at s.vols)
unchanged s w = refl

absent_update : (a : View) (k : Text) → a k ≡ none → Same a (update a k none)
absent_update a k e w = ground (arith, ==_iff w k, λ (d : w ≡ k). ap a d)

-- What the search by id finds, in the view.
record IsAt (s : Service) (w : Text) (i : ℕ) (v : VolumeInfo) : Type 0 where
  inside : i < length s.vols
  here : get_elem? s.vols i ≡ some v
  viewed : at s.vols w ≡ some v
  named : v.id ≡ w

module _ (fold : EqualFold) (s : Service) (formed : WellFormed s) where
  found-IsAt :
      (w : Text) (i : ℕ) (v : VolumeInfo)
      → find_vol_no_lock fold s (text "id") w ≡ some (i, v)
      → IsAt s w i v
  unfolding find_vol_no_lock
  found-IsAt w i v e =
      let (inside, here, match) = find_vol_no_lock-some fold s (text "id") w i v e in
      let viewed : at s.vols w ≡ some v =
        sym (find_from-at fold w 0 formed) ∙ ap (Option.map (λ p. p.1)) e in
      let (j, there, named) = at-some s.vols w v viewed in
      record { inside = inside; here = here; viewed = viewed; named = named }

  missing_at : (w : Text) → find_vol_no_lock fold s (text "id") w ≡ none → at s.vols w ≡ none
  unfolding find_vol_no_lock
  missing_at w e = sym (find_from-at fold w 0 formed) ∙ ap (Option.map (λ p. p.1)) e

  set-at :
      (w : Text) (i : ℕ) (v x : VolumeInfo)
      → IsAt s w i v
      → x.id ≡ v.id
      → Same (at (set s.vols i x)) (update (at s.vols) w (some x))
  set-at w i v x p e u =
      at-set i v x u formed p.here e ∙ ap (λ k. update (at s.vols) k (some x) u) p.named

  removed_at :
      (w : Text) (i : ℕ) (v : VolumeInfo)
      → IsAt s w i v
      → Same (at (remove_at s.vols i)) (update (at s.vols) w none)
  removed_at w i v p u =
      let next : i + 1 ≡ suc i = omega arith in
      ap (λ l. at l u)
        (remove_at_lem s.vols i p.inside ∙ ap (λ n. take i s.vols ++ drop n s.vols) next)
      ∙ at_removed i v u formed p.here
      ∙ ap (λ k. update (at s.vols) k none u) p.named

  write_attribute-at :
      (w : Text) (i : ℕ) (v : VolumeInfo) (key value : Text) (done : Outcome)
      → IsAt s w i v
      → (x : VolumeInfo) × (write_attribute s i v key value done
          ≡ (done, record s { vols = set s.vols i x }))
        × Wrote v key value x
        × Same (at (set s.vols i x)) (update (at s.vols) w (some x))
  unfolding write_attribute
  write_attribute-at w i v key value done p =
      let (m, e) = Issued-map i v p.here formed in (_, rw e refl, wrote e, set-at w i v _ p refl)

  abbrev without : VolumeInfo → Text → VolumeInfo
  without v key = record v { attributes = delete_key key v.attributes }

  delete_attribute-at :
      (w : Text) (i : ℕ) (v : VolumeInfo) (key : Text)
      → IsAt s w i v
      → Deleted v key (without v key)
        × Same (at (set s.vols i (without v key))) (update (at s.vols) w (some (without v key)))
  unfolding delete_key
  delete_attribute-at w i v key p =
      let (m, e) = Issued-map i v p.here formed in
      (deleted e (ap (λ a. record v { attributes = delete_key key a }) e), set-at w i v _ p refl)

  pub delete_volume-Keeps :
      (req : DeleteVolumeRequest)
      → Keeps fold s (Request.delete_volume req) (delete_volume fold req s)
  delete_volume-Keeps req =
      elim (Option-cases (find_vol_no_lock fold s (text "id") req.volume_id)) [
        | inl e ↦
            rw (delete_volume-missing fold req s e)
              (delete_done (absent_update (at s.vols) req.volume_id (missing_at req.volume_id e)))
        | inr ((i, v), e) ↦
            rw (delete_volume-found fold req s (i, v) e)
              (delete_done (removed_at req.volume_id i v (found-IsAt req.volume_id i v e)))
      ]

  pub controller_publish_volume-Keeps :
      (req : ControllerPublishVolumeRequest)
      → Keeps fold s (Request.controller_publish_volume req) (controller_publish_volume fold req s)
  unfolding controller_publish_volume
  controller_publish_volume-Keeps req =
      let key = dev_path_key req.node_id in
      elim (Option-cases (find_vol_no_lock fold s (text "id") req.volume_id)) [
        | inl e ↦
            rw (e, controller_publish_volume)
              (publish_absent (missing_at req.volume_id e) (unchanged s))
        | inr ((i, v), e) ↦
            let p = found-IsAt req.volume_id i v e in
            rw (e, controller_publish_volume)
              (elim (Bool-cases (is_empty (value_of v key))) [
                | inl free ↦
                    let (x, eq, w, same) =
                      write_attribute-at req.volume_id i v key (text "/dev/mock")
                        (published (text "/dev/mock")) p in
                    rw free (rw eq (publish_new v x p.viewed free w same))
                | inr taken ↦ rw taken (publish_again v p.viewed taken (unchanged s))
              ])
      ]

  pub controller_unpublish_volume-Keeps :
      (req : ControllerUnpublishVolumeRequest)
      → Keeps fold s
          (Request.controller_unpublish_volume req)
          (controller_unpublish_volume fold req s)
  unfolding controller_unpublish_volume delete_attribute
  controller_unpublish_volume-Keeps req =
      let key = dev_path_key req.node_id in
      elim (Option-cases (find_vol_no_lock fold s (text "id") req.volume_id)) [
        | inl e ↦
            rw (e, controller_unpublish_volume)
              (unpublish_absent (missing_at req.volume_id e) (unchanged s))
        | inr ((i, v), e) ↦
            let p = found-IsAt req.volume_id i v e in
            rw (e, controller_unpublish_volume)
              (elim (Bool-cases (is_empty (value_of v key))) [
                | inl free ↦ rw free (unpublish_again v p.viewed free (unchanged s))
                | inr taken ↦
                    let (w, same) = delete_attribute-at req.volume_id i v key p in
                    rw taken (unpublish_done v (without v key) p.viewed taken w same)
              ])
      ]

  pub node_unpublish_volume-Keeps :
      (req : NodeUnpublishVolumeRequest)
      → Keeps fold s (Request.node_unpublish_volume req) (node_unpublish_volume fold req s)
  unfolding node_unpublish_volume delete_attribute
  node_unpublish_volume-Keeps req =
      let key = path_join s.node_id req.target_path in
      elim (Option-cases (find_vol_no_lock fold s (text "id") req.volume_id)) [
        | inl e ↦
            rw (e, node_unpublish_volume)
              (node_unpublish_absent (missing_at req.volume_id e) (unchanged s))
        | inr ((i, v), e) ↦
            let p = found-IsAt req.volume_id i v e in
            rw (e, node_unpublish_volume)
              (elim (Bool-cases (is_empty (value_of v key))) [
                | inl free ↦ rw free (node_unpublish_again v p.viewed free (unchanged s))
                | inr taken ↦
                    let (w, same) = delete_attribute-at req.volume_id i v key p in
                    rw taken (node_unpublish_done v (without v key) p.viewed taken w same)
              ])
      ]

  publish-Keeps :
      (req : NodePublishVolumeRequest) (device : Text)
      → device_of req.publish_volume_info ≡ some device
      → Keeps fold s (Request.node_publish_volume req) (publish fold req device s)
  unfolding publish
  publish-Keeps req device d =
      let key = path_join s.node_id req.target_path in
      elim (Option-cases (find_vol_no_lock fold s (text "id") req.volume_id)) [
        | inl e ↦ rw (e, publish) (node_absent device d (missing_at req.volume_id e) (unchanged s))
        | inr ((i, v), e) ↦
            let p = found-IsAt req.volume_id i v e in
            rw (e, publish)
              (elim (Bool-cases (is_empty (value_of v key))) [
                | inl free ↦
                    let (x, eq, w, same) =
                      write_attribute-at req.volume_id i v key device
                        (replies Response.node_publish_volume) p in
                    rw free (rw eq (node_new device v x d p.viewed free w same))
                | inr taken ↦ elim (Bool-cases req.readonly) [
                  | inl ro ↦
                      rw taken (simp ro (node_readonly device v d p.viewed taken ro (unchanged s)))
                  | inr rw_ ↦
                      rw taken (simp rw_ (node_again device v d p.viewed taken rw_ (unchanged s)))
                ]
              ])
      ]

  pub node_publish_volume-Keeps :
      (req : NodePublishVolumeRequest)
      → Keeps fold s (Request.node_publish_volume req) (node_publish_volume fold req s)
  unfolding node_publish_volume
  node_publish_volume-Keeps req = elim (Option-cases (device_of req.publish_volume_info)) [
    | inl e ↦ rw (e, node_publish_volume) (node_no_device e (unchanged s))
    | inr (device, e) ↦ rw (e, node_publish_volume) (publish-Keeps req device e)
  ]
