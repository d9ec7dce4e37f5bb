-- ===== src/Mock/Effects.antt =====
-- What the calls to the mock service do, one after the other: mock/service/controller.go.
use gocsi.Base.{
  ℕ, suc, ◌+◌, ◌≡◌, refl, ap, sym, ◌∙◌, arith, Option-cases, inl, inr, none, some, [], ◌∷◌, ◌++◌,
  Text, text, ◌==◌, length, take, drop, EqualFold, lookup,
}
use gocsi.Csi.{Response, CreateVolumeRequest, DeleteVolumeRequest, VolumeInfo}
use gocsi.Status.{replies}
use gocsi.Mock.Identity.{WellFormed, removed_none}
use gocsi.Mock.Service.Find.{is_match-name, find_from-append, find_vol_no_lock-some}
use gocsi.Mock.Service.{Service, attribute, find_vol_no_lock, find_vol_by_name, new_volume}
use gocsi.Mock.Controller.Removal.{remove_at_lem}
use gocsi.Mock.Controller.{capacity_of, create_volume, delete_volume, remove_at}

module _ (fold : EqualFold) where
  pub create_volume-found :
      (req : CreateVolumeRequest) (s : Service) (found : ℕ × VolumeInfo)
      → find_vol_by_name fold s req.name ≡ some found
      → create_volume fold req s ≡ (replies (Response.create_volume (some found.1)), s)
  unfolding create_volume
  create_volume-found req s found e = rw (e, create_volume) refl

  pub create_volume-missing :
      (req : CreateVolumeRequest) (s : Service)
      → find_vol_by_name fold s req.name ≡ none
      → let made = new_volume s req.name (capacity_of req.capacity_range) in
        create_volume fold req s ≡ (
          replies (Response.create_volume (some made.0)),
          record made.1 { vols = s.vols ++ made.0 ∷ [] },
        )
  unfolding create_volume
  create_volume-missing req s e = rw (e, create_volume) refl

  find_vol_by_name-append :
      (s : Service) (v : VolumeInfo) (nid : ℕ) (n : Text)
      → attribute v (text "name") ≡ some n
      → find_vol_by_name fold s n ≡ none
      → find_vol_by_name fold (record s { vols = s.vols ++ v ∷ []; vols_nid = nid }) n
        ≡ some (length s.vols, v)
  unfolding find_vol_by_name find_vol_no_lock
  find_vol_by_name-append s v nid n named e =
      let at : 0 + length s.vols ≡ length s.vols = omega arith in
      let match = is_match-name fold n v n named ∙ fold.fold_refl n in
      find_from-append fold (text "name") n 0 s.vols v e ∙ rw match (ap (λ i. some (i, v)) at)

  pub new_volume-name :
      (s : Service) (n : Text) (c : ℕ) → attribute (new_volume s n c).0 (text "name") ≡ some n
  unfolding new_volume lookup ◌==◌ text
  new_volume-name s n c = refl

  -- A second `CreateVolume` with the same request answers what the first answered, and leaves the
  -- state as the first left it.
  pub create_volume-idempotent :
      (req : CreateVolumeRequest) (s : Service)
      → create_volume fold req (create_volume fold req s).1 ≡ create_volume fold req s
  unfolding new_volume
  create_volume-idempotent req s = elim (Option-cases (find_vol_by_name fold s req.name)) [
    | inr (found, e) ↦
        let once = create_volume-found req s found e in ap (λ r. create_volume fold req r.1) once
    | inl e ↦
        let (v, s') = new_volume s req.name (capacity_of req.capacity_range) in
        let once = create_volume-missing req s e in
        let again =
          find_vol_by_name-append s v s'.vols_nid req.name
            (new_volume-name s req.name (capacity_of req.capacity_range)) e in
        ap (λ r. create_volume fold req r.1) once
        ∙ create_volume-found req _ (length s.vols, v) again
        ∙ sym once
  ]

  pub delete_volume-found :
      (req : DeleteVolumeRequest) (s : Service) (found : ℕ × VolumeInfo)
      → find_vol_no_lock fold s (text "id") req.volume_id ≡ some found
      → delete_volume fold req s
        ≡ (replies Response.delete_volume, record s { vols = remove_at s.vols found.0 })
  unfolding delete_volume
  delete_volume-found req s found e = rw (e, delete_volume) refl

  pub delete_volume-missing :
      (req : DeleteVolumeRequest) (s : Service)
      → find_vol_no_lock fold s (text "id") req.volume_id ≡ none
      → delete_volume fold req s ≡ (replies Response.delete_volume, s)
  unfolding delete_volume
  delete_volume-missing req s e = rw (e, delete_volume) refl

  removed_gone :
      (s : Service) (w : Text) (i : ℕ) (v : VolumeInfo)
      → WellFormed s
      → find_vol_no_lock fold s (text "id") w ≡ some (i, v)
      → find_vol_no_lock fold (record s { vols = remove_at s.vols i }) (text "id") w ≡ none
  unfolding find_vol_no_lock
  removed_gone s w i v f e =
      let (inside, here, match) = find_vol_no_lock-some fold s (text "id") w i v e in
      let at : i + 1 ≡ suc i = omega arith in
      let kept : remove_at s.vols i ≡ take i s.vols ++ drop (suc i) s.vols =
        remove_at_lem s.vols i inside ∙ ap (λ n. take i s.vols ++ drop n s.vols) at in
      let from : i ≡ 0 + i = omega arith in
      rw kept (removed_none fold w 0 0 i v f (e ∙ ap (λ n. some (n, v)) from))

  -- After `DeleteVolume`, no volume has the id of the request, in a well-formed service.
  pub delete_volume-gone :
      (req : DeleteVolumeRequest) (s : Service)
      → WellFormed s
      → find_vol_no_lock fold (delete_volume fold req s).1 (text "id") req.volume_id ≡ none
  delete_volume-gone req s w =
      elim (Option-cases (find_vol_no_lock fold s (text "id") req.volume_id)) [
        | inl e ↦ rw (delete_volume-missing req s e) e
        | inr ((i, v), e) ↦
            rw (delete_volume-found req s (i, v) e) (removed_gone s req.volume_id i v w e)
      ]
