-- ===== src/Mock/Server/Invariant.antt =====
-- The invariant of the mock service, kept by every call.
use gocsi.Base.{◌+◌, ◌-◌, ◌<◌, ◌^◌, ◌≡◌, refl, arith, List, [], ◌∷◌, length, EqualFold}
use gocsi.Csi.{Request}
use gocsi.Mock.Identity.{nil, cons, WellFormed}
use gocsi.Mock.Service.{Service, new_volume, new}
use gocsi.Mock.Server.{serve, serve_all}
use gocsi.Mock.Kept.{
  Kept, same, create_volume-Kept, delete_volume-Kept, controller_publish_volume-Kept,
  controller_unpublish_volume-Kept, node_publish_volume-Kept, node_unpublish_volume-Kept,
}

module _ (fold : EqualFold) where
  -- Every call keeps the invariant, as long as the counter of the ids does not wrap around: the ids of
  -- the volumes are distinct numbers in increasing order, none above the counter, and every volume
  -- has an attribute map. The counter grows by at most one, and
  -- the node stays the same.
  pub serve-Kept :
      (req : Request) (s : Service)
      → s.vols_nid + 1 < 2 ^ 64
      → WellFormed s
      → Kept s (serve fold req s).1
  unfolding serve
  serve-Kept (Request.create_volume req) s h w = create_volume-Kept fold req s h w
  serve-Kept (Request.delete_volume req) s h w = delete_volume-Kept fold req s w
  serve-Kept (Request.controller_publish_volume req) s h w =
      controller_publish_volume-Kept fold req s w
  serve-Kept (Request.controller_unpublish_volume req) s h w =
      controller_unpublish_volume-Kept fold req s w
  serve-Kept (Request.validate_volume_capabilities req) s h w = same s w
  serve-Kept (Request.list_volumes req) s h w = same s w
  serve-Kept (Request.get_capacity req) s h w = same s w
  serve-Kept (Request.controller_get_capabilities v) s h w = same s w
  serve-Kept (Request.controller_probe v) s h w = same s w
  serve-Kept Request.get_supported_versions s h w = same s w
  serve-Kept (Request.get_plugin_info v) s h w = same s w
  serve-Kept (Request.get_node_id v) s h w = same s w
  serve-Kept (Request.node_probe v) s h w = same s w
  serve-Kept (Request.node_get_capabilities v) s h w = same s w
  serve-Kept (Request.node_publish_volume req) s h w = node_publish_volume-Kept fold req s w
  serve-Kept (Request.node_unpublish_volume req) s h w = node_unpublish_volume-Kept fold req s w

  serve_all-Kept :
      (reqs : List Request) (s : Service)
      → s.vols_nid + length reqs < 2 ^ 64
      → WellFormed s
      → WellFormed (serve_all fold reqs s)
  unfolding serve_all
  serve_all-Kept [] s h w = w
  serve_all-Kept (req ∷ reqs) s h w =
      let kept = serve-Kept req s (omega arith) w in
      let most = kept.at_most in serve_all-Kept reqs (serve fold req s).1 (omega arith) kept.formed

  new-WellFormed : (new.vols_nid ≡ 3) × WellFormed new
  unfolding new new_volume
  new-WellFormed = (
    refl,
    cons 1 (omega arith) (omega arith) refl (_, refl)
        (cons 2 (omega arith) (omega arith) refl (_, refl)
          (cons 3 (omega arith) (omega arith) refl (_, refl) nil)),
  )

  -- From a new mock service, the invariant holds after any requests, fewer than 2^64 - 3 of them.
  pub serve_all-WellFormed :
      (reqs : List Request) → length reqs < 2 ^ 64 - 3 → WellFormed (serve_all fold reqs new)
  serve_all-WellFormed reqs h =
      let (nid, w) = new-WellFormed in serve_all-Kept reqs new (omega arith) w
