-- ===== src/Plugin/Serve.antt =====
-- gocsi.go: `Serve`, from the initialisation to the start of the grpc server.
pub mod Laws
pub mod Runs
use gocsi.Base.{
  Bool, true, false, not, Option, none, some, List, [], ◌∷◌, ◌++◌, map, ◌&&◌, Text, text, EqualFold,
  if◌then◌else◌,
}
use gocsi.Csi.{Version, GetPluginInfoResponse}
use gocsi.Context.{Os, Context, lookup_env}
use gocsi.Status.{Error, plain}
use gocsi.Utils.Parsing.{Tools, Parsed, parsed, panics}
use gocsi.Plugin.{EnvMap, process, serve_context, env_bool}
use gocsi.Plugin.EnvVars
use gocsi.Plugin.Env.{init_env_vars, init_supported_versions, init_plugin_info}
use gocsi.Plugin.Interceptors.{Installed, Created, Initialised, ready, exits, init_interceptors}
use gocsi.Plugin.Endpoint.{Address, Host, init_endpoint_perms, init_endpoint_owner}

-- The services that are registered with the grpc server.
pub data Service : Type 0 where
  identity controller node : Service

-- The services that the plug-in has: which of the three fields are not nil.
pub record Services : Type 0 where
  pub has_identity : Bool
  pub has_controller : Bool
  pub has_node : Bool

-- The registered services, or the error.
pub data Registered : Type 0 where
  registered : List Service → Registered
  refused : Error → Registered

abbrev pub if_there : Bool → Service → List Service
if_there true s = s ∷ []
if_there false s = []

abbrev require : Bool → Service → Text → Registered
require true s m = registered (identity ∷ s ∷ [])
require false s m = refused (plain m)

-- The choice of the services, with the values of `csvc` and `nsvc`.
choose : Services → Bool → Bool → Registered
choose p true true =
    refused
      (plain (text "invalid service restriction: X_CSI_CTRLSVC_ONLY=true X_CSI_CTRLSVC_ONLY=true"))
choose p true false = require p.has_controller controller (text "controller service is required")
choose p false true = require p.has_node node (text "node service is required")
choose p false false =
    registered (identity ∷ (if_there p.has_controller controller ++ if_there p.has_node node))

unfoldable pub register : Services → Bool → Bool → Registered
unfolding choose
register p csvc nsvc =
    if not p.has_identity
    then refused (plain (text "identity service is required"))
    else if not p.has_controller && not p.has_node
    then refused (plain (text "either a controller or node service is required"))
    else choose p csvc nsvc

-- How `Serve` ends: with an error before the grpc server runs, or with what `server.Serve` returns,
-- for the services and the interceptors that the server has.
pub data Served (I : Type 0) : Type 0 where
  stopped : Error → Served I
  ran : List Service → List I → Option Error → Served I
  panicked exited : Served I

-- An interceptor of the plug-in's author, or one that GoCSI installs.
pub data Layer (U D P : Type 0) : Type 0 where
  given : U → Layer U D P
  built_in : Installed D P → Layer U D P

-- The plug-in, what it runs on, and its hook `BeforeServe`, which may change the interceptors.
pub record Setup (U D P S : Type 0) : Type 0 where
  pub fold : EqualFold
  pub to_upper : Text → Text
  pub tools : Tools
  pub parse_duration : Text → Option D
  pub process_env : Text → Option Text
  pub new_etcd : Created P
  pub host : Host S
  pub lis : Address
  pub before_serve : List (Layer U D P) → S → (List (Layer U D P) × Option Error) × S
  pub listen : S → Option Error × S
  pub env_vars : List Text
  pub interceptors : List U
  pub services : Services
  pub versions : List Version
  pub info : GetPluginInfoResponse

module _ {U D P S : Type 0} (p : Setup U D P S) (ctx : Context EnvMap) where
  -- What `LookupEnv` finds once the environment is initialised.
  unfoldable pub variable : Text → Option Text
  variable k =
      lookup_env p.fold (process p.process_env) (serve_context ctx) k
        (init_env_vars p.fold (process p.process_env) p.to_upper (serve_context ctx) p.env_vars)

  run_server : List (Layer U D P) → Registered → S → Served (Layer U D P) × S
  run_server is (refused e) st = (stopped e, st)
  run_server is (registered ss) st = let (err, st') = p.listen st in (ran ss is err, st')

  after_hook : (List (Layer U D P) × Option Error) × S → Served (Layer U D P) × S
  unfolding run_server
  after_hook ((is, some e), st) = (stopped e, st)
  after_hook ((is, none), st) =
      run_server is
        (register p.services (env_bool (variable EnvVars.ctrl_svc_only))
          (env_bool (variable EnvVars.node_svc_only)))
        st

  after_interceptors : Initialised (List (Installed D P)) → S → Served (Layer U D P) × S
  unfolding after_hook
  after_interceptors exits st = (exited, st)
  after_interceptors (ready is) st =
      after_hook (p.before_serve (map given p.interceptors ++ map built_in is) st)

  after_info : Parsed GetPluginInfoResponse → S → Served (Layer U D P) × S
  unfolding after_interceptors
  after_info panics st = (panicked, st)
  after_info (parsed info) st =
      let versions = init_supported_versions (variable EnvVars.supported_versions) p.versions in
      after_interceptors (init_interceptors p.parse_duration p.new_etcd variable versions) st

  after_owner : Option Error × S → Served (Layer U D P) × S
  unfolding after_info
  after_owner (some e, st) = (stopped e, st)
  after_owner (none, st) =
      after_info (init_plugin_info p.tools (variable EnvVars.plugin_info) p.info) st

  after_perms : Option Error × S → Served (Layer U D P) × S
  unfolding after_owner
  after_perms (some e, st) = (stopped e, st)
  after_perms (none, st) = after_owner (init_endpoint_owner p.host variable p.lis st)

  -- The function that `serveOnce` runs.
  unfoldable pub serve_once : S → Served (Layer U D P) × S
  unfolding after_perms
  serve_once st = after_perms (init_endpoint_perms p.host variable p.lis st)
