-- ===== src/Plugin/Serve/Runs.antt =====
-- When `Serve` gets as far as to run the grpc server, and with what.
use gocsi.Base.{◌≡◌, ◌↔◌, refl, arith, Bool, Option, none, some, List, ◌++◌, map}
use gocsi.Csi.{GetPluginInfoResponse}
use gocsi.Context.{Context}
use gocsi.Status.{Error}
use gocsi.Utils.Parsing.{Parsed, parsed, panics}
use gocsi.Plugin.{EnvMap, env_bool}
use gocsi.Plugin.EnvVars
use gocsi.Plugin.Env.{init_supported_versions, init_plugin_info}
use gocsi.Plugin.Interceptors.{Installed, Initialised, ready, exits, init_interceptors}
use gocsi.Plugin.Endpoint.{init_endpoint_perms, init_endpoint_owner}
use gocsi.Plugin.Serve.{
  Service, Registered, registered, refused, register, ran, Layer, given, built_in, Setup, variable,
  run_server, after_hook, after_interceptors, after_info, after_owner, after_perms, serve_once,
}
use gocsi.Plugin.Serve.Laws.{CanServe, register_iff}

module _ {U D P S : Type 0} (p : Setup U D P S) (ctx : Context EnvMap) where
  -- The plug-in's values of the two restrictions.
  abbrev pub csvc : Bool
  csvc = env_bool (variable p ctx EnvVars.ctrl_svc_only)

  abbrev pub nsvc : Bool
  nsvc = env_bool (variable p ctx EnvVars.node_svc_only)

  -- What `initInterceptors` gives for the plug-in's variables and versions.
  abbrev pub initialised : Initialised (List (Installed D P))
  initialised =
      init_interceptors p.parse_duration p.new_etcd (variable p ctx)
        (init_supported_versions (variable p ctx EnvVars.supported_versions) p.versions)

  module _ (ss : List Service) (is : List (Layer U D P)) (err : Option Error) where
    -- The hook leaves these interceptors, the services may be served, and the listener returns this.
    abbrev pub Hooked : (List (Layer U D P) × Option Error) × S → Type 0
    Hooked hooked =
        (hooked.0 ≡ (is, none)) × CanServe p.services csvc nsvc ss × ((p.listen hooked.1).0 ≡ err)

    -- The hook is called with the plug-in's interceptors and, behind them, those of GoCSI.
    abbrev pub HooksUp : Initialised (List (Installed D P)) → S → Type 0
    HooksUp exits st = ⊥
    HooksUp (ready js) st = Hooked (p.before_serve (map given p.interceptors ++ map built_in js) st)

    abbrev pub Informed : Parsed GetPluginInfoResponse → S → Type 0
    Informed panics st = ⊥
    Informed (parsed info) st = HooksUp initialised st

    -- The steps of `Serve` that precede the grpc server end well, one after the other.
    pub record Runs (st : S) : Type 0 where
      pub perms : (init_endpoint_perms p.host (variable p ctx) p.lis st).0 ≡ none
      pub owner :
          (init_endpoint_owner p.host
            (variable p ctx)
            p.lis
            (init_endpoint_perms p.host (variable p ctx) p.lis st).1).0
          ≡ none
      pub informed :
          Informed
            (init_plugin_info p.tools (variable p ctx EnvVars.plugin_info) p.info)
            (init_endpoint_owner p.host
              (variable p ctx)
              p.lis
              (init_endpoint_perms p.host (variable p ctx) p.lis st).1).1

    run_server_iff :
        (js : List (Layer U D P)) (r : Registered) (st : S)
        → ((run_server p ctx js r st).0 ≡ ran ss is err)
          ↔ ((js ≡ is) × (r ≡ registered ss) × ((p.listen st).0 ≡ err))
    unfolding run_server
    run_server_iff js (refused e) st = ground arith
    run_server_iff js (registered ts) st = ground arith

    after_hook_iff :
        (hooked : (List (Layer U D P) × Option Error) × S)
        → ((after_hook p ctx hooked).0 ≡ ran ss is err) ↔ Hooked hooked
    unfolding after_hook
    after_hook_iff ((js, some e), st) = (λ h. absurd (cc), λ h. absurd (cc))
    after_hook_iff ((js, none), st) = ground (
      arith,
      run_server_iff js (register p.services csvc nsvc) st,
      register_iff p.services csvc nsvc ss,
    )

    after_interceptors_iff :
        (i : Initialised (List (Installed D P))) (st : S)
        → ((after_interceptors p ctx i st).0 ≡ ran ss is err) ↔ HooksUp i st
    unfolding after_interceptors
    after_interceptors_iff exits st = (λ h. absurd (cc), absurd)
    after_interceptors_iff (ready js) st = after_hook_iff _

    after_info_iff :
        (i : Parsed GetPluginInfoResponse) (st : S)
        → ((after_info p ctx i st).0 ≡ ran ss is err) ↔ Informed i st
    unfolding after_info
    after_info_iff panics st = (λ h. absurd (cc), absurd)
    after_info_iff (parsed info) st = after_interceptors_iff initialised st

    after_owner_iff :
        (o : Option Error × S)
        → ((after_owner p ctx o).0 ≡ ran ss is err) ↔ (
            (o.0 ≡ none)
            × Informed (init_plugin_info p.tools (variable p ctx EnvVars.plugin_info) p.info) o.1)
    unfolding after_owner
    after_owner_iff (some e, st) = (λ h. absurd (cc), λ h. absurd (cc))
    after_owner_iff (none, st) =
        let (to, from) = after_info_iff _ st in (λ h. (refl, to h), λ (_, h). from h)

    after_perms_iff :
        (o : Option Error × S)
        → ((after_perms p ctx o).0 ≡ ran ss is err) ↔ (
            (o.0 ≡ none)
            × ((init_endpoint_owner p.host (variable p ctx) p.lis o.1).0 ≡ none)
            × Informed
                (init_plugin_info p.tools (variable p ctx EnvVars.plugin_info) p.info)
                (init_endpoint_owner p.host (variable p ctx) p.lis o.1).1)
    unfolding after_perms
    after_perms_iff (some e, st) = (λ h. absurd (cc), λ h. absurd (cc))
    after_perms_iff (none, st) =
        let (to, from) = after_owner_iff (init_endpoint_owner p.host (variable p ctx) p.lis st) in
        (λ h. let (own, inf) = to h in (refl, own, inf), λ (_, own, inf). from (own, inf))

    -- Serve runs the grpc server with some services and interceptors, and returns an error or none of
    -- it, exactly when: the permissions and the owner of the endpoint are set without error; the
    -- plug-in's info is read and its interceptors are initialised; the hook, called with the plug-in's
    -- interceptors and behind them those of GoCSI, has no error and leaves these interceptors; there
    -- is an identity service, a service that the restrictions allow, and not both restrictions; the
    -- services are these; and the listener returns that.
    pub serve_once-ran_iff : (st : S) → ((serve_once p ctx st).0 ≡ ran ss is err) ↔ Runs st
    unfolding serve_once
    serve_once-ran_iff st =
        let (to, from) = after_perms_iff (init_endpoint_perms p.host (variable p ctx) p.lis st) in
        (
          λ h.
              let (perms, owner, informed) = to h in
              record { perms = perms; owner = owner; informed = informed },
          λ r. from (r.perms, r.owner, r.informed),
        )
