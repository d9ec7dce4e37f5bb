-- ===== src/Plugin/Serve/Laws.antt =====
-- Which services a plug-in serves.
use gocsi.Base.{◌≡◌, ◌↔◌, arith, Bool, true, false, not, List, ◌∷◌, ◌++◌, ◌&&◌, ◌||◌}
use gocsi.Plugin.Serve.{
  Service, identity, controller, node, Services, registered, if_there, choose, register,
}

-- The services that may be served, under the restrictions to one of two.
pub record CanServe (p : Services) (csvc nsvc : Bool) (ss : List Service) : Type 0 where
  pub has_identity : p.has_identity ≡ true
  pub not_both : (csvc && nsvc) ≡ false
  pub some_service : ((p.has_controller && not nsvc) || (p.has_node && not csvc)) ≡ true
  pub served :
      ss
      ≡ identity
        ∷ (if_there (p.has_controller && not nsvc) controller
            ++ if_there (p.has_node && not csvc) node)

register-CanServe :
    (p : Services) (csvc nsvc : Bool) (ss : List Service)
    → register p csvc nsvc ≡ registered ss
    → CanServe p csvc nsvc ss
unfolding register choose
register-CanServe p csvc nsvc ss = ground arith

-- The registration succeeds exactly when there is an identity service, at most one of the two
-- restrictions is set, and a service is left that it allows; then the identity service is
-- registered, and the controller and the node service if they are there and allowed.
pub register_iff :
    (p : Services) (csvc nsvc : Bool) (ss : List Service)
    → (register p csvc nsvc ≡ registered ss) ↔ CanServe p csvc nsvc ss
unfolding register choose
register_iff p csvc nsvc ss = (register-CanServe p csvc nsvc ss, λ c. ground arith)
