-- ===== src/Mock/Server/Refinement.antt =====
-- The mock service keeps its promises.
use gocsi.Base.{
  ℕ, ◌+◌, ◌<◌, ◌%◌, ◌^◌, ◌≡◌, ◌∙◌, arith, inl, inr, none, some, List, [], ◌∷◌, Text, text,
  EqualFold, itoa, Option-cases,
}
use gocsi.Csi.{Request, CreateVolumeRequest, VolumeInfo}
use gocsi.Status.{Outcome}
use gocsi.Mock.Identity.{WellFormed}
use gocsi.Mock.Service.Find.{find_vol_no_lock-some, is_match-name, is_match-some}
use gocsi.Mock.Service.{Service, find_vol_no_lock, find_vol_by_name, new_volume}
use gocsi.Mock.Controller.{create_volume}
use gocsi.Mock.View.{View, at, at-get_elem?, at-append, at_above, at-some, find_from-none}
use gocsi.Mock.Effects.{create_volume-found, create_volume-missing}
use gocsi.Mock.Server.Spec.{Promises, Same, asked, create_found, create_new, new_info, IsNamed}
use gocsi.Mock.Server.Calls.{
  Keeps, unchanged, delete_volume-Keeps, controller_publish_volume-Keeps,
  controller_unpublish_volume-Keeps, node_unpublish_volume-Keeps, node_publish_volume-Keeps,
}
use gocsi.Mock.Server.{serve}

module _ (fold : EqualFold) (s : Service) (formed : WellFormed s) where
  -- A volume that the search by name finds.
  found-IsNamed :
      (n : Text) (i : ℕ) (v : VolumeInfo)
      → find_vol_by_name fold s n ≡ some (i, v)
      → (at s.vols v.id ≡ some v) × IsNamed fold s.node_id (at s.vols) n v
  unfolding find_vol_by_name
  found-IsNamed n i v e =
      let (inside, here, match) = find_vol_no_lock-some fold s (text "name") n i v e in
      (at-get_elem? i v formed here, is_match-some fold n v match)

  missing-IsNamed :
      (n : Text)
      → find_vol_by_name fold s n ≡ none
      → (w : Text) (v : VolumeInfo) → at s.vols w ≡ some v
      → ¬ IsNamed fold s.node_id (at s.vols) n v
  unfolding find_vol_by_name find_vol_no_lock
  missing-IsNamed n e w v a (t, named, match) =
      let (i, here, _) = at-some s.vols w v a in
      let miss = find_from-none fold (text "name") n 0 i s.vols v e here in
      let hit = is_match-name fold n v t named ∙ match in absurd (cc)

  create_volume-Keeps :
      (req : CreateVolumeRequest)
      → s.vols_nid + 1 < 2 ^ 64
      → Keeps fold s (Request.create_volume req) (create_volume fold req s)
  unfolding new_volume
  create_volume-Keeps req h = elim (Option-cases (find_vol_by_name fold s req.name)) [
    | inr ((i, v), e) ↦
        let (viewed, named) = found-IsNamed req.name i v e in
        rw (create_volume-found fold req s (i, v) e)
          (create_found v.id v viewed named (unchanged s))
    | inl e ↦
        let id_fits : (s.vols_nid + 1) % 2 ^ 64 ≡ s.vols_nid + 1 = omega arith in
        let nid = s.vols_nid + 1 in
        let fresh : at s.vols (itoa nid) ≡ none = at_above nid (omega arith) formed in
        rw (create_volume-missing fold req s e) (
          rw id_fits (
            create_new nid (missing-IsNamed req.name e) fresh
              (λ w. at-append s.vols (new_info req nid) w fresh)))
  ]

-- A call of a well-formed service answers, and changes the volumes, as the specification of the
-- volumes by their ids allows, as long as the counter of the ids does not wrap around.
pub serve-Promises :
    (fold : EqualFold) (req : Request) (s : Service)
    → s.vols_nid + 1 < 2 ^ 64
    → WellFormed s
    → Promises fold s.node_id (at s.vols) req (serve fold req s).0 (at (serve fold req s).1.vols)
unfolding serve
serve-Promises fold (Request.create_volume req) s h f = create_volume-Keeps fold s f req h
serve-Promises fold (Request.delete_volume req) s h f = delete_volume-Keeps fold s f req
serve-Promises fold (Request.controller_publish_volume req) s h f =
    controller_publish_volume-Keeps fold s f req
serve-Promises fold (Request.controller_unpublish_volume req) s h f =
    controller_unpublish_volume-Keeps fold s f req
serve-Promises fold (Request.node_publish_volume req) s h f = node_publish_volume-Keeps fold s f req
serve-Promises fold (Request.node_unpublish_volume req) s h f =
    node_unpublish_volume-Keeps fold s f req
serve-Promises fold (Request.validate_volume_capabilities req) s h f = asked tt (unchanged s)
serve-Promises fold (Request.list_volumes req) s h f = asked tt (unchanged s)
serve-Promises fold (Request.get_capacity req) s h f = asked tt (unchanged s)
serve-Promises fold (Request.controller_get_capabilities v) s h f = asked tt (unchanged s)
serve-Promises fold (Request.controller_probe v) s h f = asked tt (unchanged s)
serve-Promises fold Request.get_supported_versions s h f = asked tt (unchanged s)
serve-Promises fold (Request.get_plugin_info v) s h f = asked tt (unchanged s)
serve-Promises fold (Request.get_node_id v) s h f = asked tt (unchanged s)
serve-Promises fold (Request.node_probe v) s h f = asked tt (unchanged s)
serve-Promises fold (Request.node_get_capabilities v) s h f = asked tt (unchanged s)

module _ (fold : EqualFold) where
  -- The requests with their answers.
  unfoldable pub answers : List Request → Service → List (Request × Outcome)
  answers [] s = []
  answers (req ∷ reqs) s = (req, (serve fold req s).0) ∷ answers reqs (serve fold req s).1

  -- What the specification allows, one request after the other.
  pub data Trace (node : Text) : View → List (Request × Outcome) → View → Type 0 where
    stop : {a b : View} → Same b a → Trace node a [] b
    call :
        {req : Request} {o : Outcome} {l : List (Request × Outcome)} {a b c : View}
        → Promises fold node a req o b
        → Trace node b l c
        → Trace node a ((req, o) ∷ l) c
