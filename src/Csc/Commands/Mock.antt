-- ===== src/Csc/Commands/Mock.antt =====
-- The commands of csc/cmd against the plug-in of mock/service, without the network in between.
pub mod Repeat
pub mod Delete
use gocsi.Base.{ℕ, Option, none, some, EqualFold}
use gocsi.Csi.{Request, Response}
use gocsi.Status.{
  Error, Outcome, Reply, reply, no_reply, nil_pointer, returns, panicked, Attempt, failed, got,
}
use gocsi.Csc.Commands.{Answer, Client}
use gocsi.Mock.Service.{Service}
use gocsi.Mock.Server.{serve}

-- `broken` is the error of the transport where the plug-in gives no response of the method's type.
module _ (broken : Error) where
  answer_of : (req : Request) → Response → Attempt (Answer req)
  answer_of (Request.create_volume req) (Response.create_volume v) = got v
  answer_of (Request.delete_volume req) Response.delete_volume = got tt
  answer_of (Request.controller_publish_volume req) (Response.controller_publish_volume info) =
      got info
  answer_of (Request.controller_unpublish_volume req) Response.controller_unpublish_volume = got tt
  answer_of (Request.validate_volume_capabilities req) (Response.validate_volume_capabilities rep) =
      got rep
  answer_of (Request.list_volumes req) (Response.list_volumes rep) = got rep
  answer_of (Request.get_capacity req) (Response.get_capacity n) = got n
  answer_of (Request.controller_get_capabilities v) (Response.controller_get_capabilities cs) =
      got cs
  answer_of (Request.controller_probe v) Response.controller_probe = got tt
  answer_of Request.get_supported_versions (Response.get_supported_versions vs) = got vs
  answer_of (Request.get_plugin_info v) (Response.get_plugin_info rep) = got rep
  answer_of (Request.get_node_id v) (Response.get_node_id id) = got id
  answer_of (Request.node_probe v) Response.node_probe = got tt
  answer_of (Request.node_get_capabilities v) (Response.node_get_capabilities cs) = got cs
  answer_of (Request.node_publish_volume req) Response.node_publish_volume = got tt
  answer_of (Request.node_unpublish_volume req) Response.node_unpublish_volume = got tt
  answer_of req rep = failed broken

  answer_of_return : (req : Request) → Reply → Option Error → Attempt (Answer req)
  unfolding answer_of
  answer_of_return req rep (some e) = failed e
  answer_of_return req (reply r) none = answer_of req r
  answer_of_return req no_reply none = failed broken
  answer_of_return req (nil_pointer k) none = failed broken

  pub answer_of_outcome : (req : Request) → Outcome → Attempt (Answer req)
  unfolding answer_of_return
  answer_of_outcome req (returns r) = answer_of_return req r.rep r.err
  answer_of_outcome req panicked = failed broken

  -- The client whose calls the mock service serves.
  unfoldable pub mock_rpcs : EqualFold → Client Service
  unfolding answer_of_outcome
  mock_rpcs fold req s = let (o, s') = serve fold req s in (answer_of_outcome req o, s')
