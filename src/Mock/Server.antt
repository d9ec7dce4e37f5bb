-- ===== src/Mock/Server.antt =====
-- The service interface of mock/service/service.go: the call of the method that a request is for.
pub mod Invariant
pub mod Spec
pub mod Calls
pub mod Refinement
use gocsi.Base.{◌≡◌, List, [], ◌∷◌, EqualFold}
use gocsi.Csi.{Request}
use gocsi.Status.{Outcome}
use gocsi.Mock.Service.{Service}
use gocsi.Mock.Controller.{
  create_volume, delete_volume, controller_publish_volume, controller_unpublish_volume,
  validate_volume_capabilities, get_capacity, controller_get_capabilities, controller_probe,
  get_supported_versions, get_plugin_info,
}
use gocsi.Mock.Node.{
  node_publish_volume, node_unpublish_volume, get_node_id, node_probe, node_get_capabilities,
}
use gocsi.Mock.Listing.{list_volumes}

module _ (fold : EqualFold) where
  unfoldable pub serve : Request → Service → Outcome × Service
  serve (Request.create_volume req) s = create_volume fold req s
  serve (Request.delete_volume req) s = delete_volume fold req s
  serve (Request.controller_publish_volume req) s = controller_publish_volume fold req s
  serve (Request.controller_unpublish_volume req) s = controller_unpublish_volume fold req s
  serve (Request.validate_volume_capabilities req) s = (validate_volume_capabilities, s)
  serve (Request.list_volumes req) s = (list_volumes req s, s)
  serve (Request.get_capacity req) s = (get_capacity, s)
  serve (Request.controller_get_capabilities v) s = (controller_get_capabilities, s)
  serve (Request.controller_probe v) s = (controller_probe, s)
  serve Request.get_supported_versions s = (get_supported_versions, s)
  serve (Request.get_plugin_info v) s = (get_plugin_info, s)
  serve (Request.get_node_id v) s = (get_node_id s, s)
  serve (Request.node_probe v) s = (node_probe, s)
  serve (Request.node_get_capabilities v) s = (node_get_capabilities, s)
  serve (Request.node_publish_volume req) s = node_publish_volume fold req s
  serve (Request.node_unpublish_volume req) s = node_unpublish_volume fold req s

  -- The state after some requests, one at a time.
  unfoldable pub serve_all : List Request → Service → Service
  unfolding serve
  serve_all [] s = s
  serve_all (req ∷ reqs) s = serve_all reqs (serve req s).1
