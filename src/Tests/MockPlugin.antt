-- ===== src/Tests/MockPlugin.antt =====
-- The plug-in of the mock service, with its interceptors, in an empty environment.
use gocsi.Base.{
  lookup, insert, ℕ, ◌≡◌, refl, true, false, Option, none, some, List, [], ◌∷◌, ◌++◌, Text, text,
  ◌==◌, cut, ascii_fold, pos, inr,
}
use gocsi.Context.{parse_bool, lookup_env, lookup_environ}
use gocsi.Csi.{GetPluginInfoResponse, Request}
use gocsi.Status.{controller_publish_volume}
use gocsi.Utils.Parsing.{end_of_file}
use gocsi.Utils.Methods.{method_name}
use gocsi.Utils.Versions.{parse_versions}
use gocsi.SerialVolume.{got, Locker}
use gocsi.Plugin.{env_bool, serve_context}
use gocsi.Plugin.EnvVars
use gocsi.Plugin.Env.{init_env_vars, init_supported_versions}
use gocsi.Plugin.Interceptors.{
  Installed, created, ready, inject_context, spec_validator, known_versions, serial_volume,
  init_interceptors, with_spec_req, with_spec_rep, read_switches, with_all_creds, spec_opts,
  serial_timeout,
}
use gocsi.Plugin.Interceptors.Form.{switches}
use gocsi.Plugin.Endpoint.{Host, found}
use gocsi.Plugin.Chain.{Ctx, Run, Runtime, serve}
use gocsi.Plugin.Chain.Parts.{IsApart}
use gocsi.Plugin.Chain.Guard.{Refuses}
use gocsi.Plugin.Serve.{Setup, variable}
use gocsi.Mock.Service.{Service}
use gocsi.Mock.Server
use gocsi.Mock.Provider.{env_vars, new_plugin}
use gocsi.Mock.Provider.Guard.{KeepsNames, IsQuiet, IsImproper, mock_versions, mock_plugin-Refuses}

-- The counter of the IDs, the log, and the mock service.
pub record State : Type 0 where
  pub ids : ℕ
  pub log : List Text
  pub mock : Service

abbrev no_locks : Locker State (Unit {0})
no_locks = record {
  get_lock = λ k s. (got tt, s);
  close = λ l s. s;
  try_lock = λ l s. (true, s);
  unlock = λ l s. s;
}

abbrev runtime : Runtime ℕ (Unit {0}) State (Unit {0})
runtime = record {
  with_details = λ st r. some st;
  sprint = λ f. [];
  error_text = λ e. [];
  id = record { load = λ s. s.ids; store = λ n s. record s { ids = n }; load-store = λ n s. refl };
  writer = λ line s. record s { log = s.log ++ line ∷ [] };
  locker = λ t p. no_locks;
}

apart : IsApart runtime (λ s. s.mock)
apart = record { stores = λ n s. refl; writes = λ line s. refl }

abbrev service : Ctx → Request → Run State
service c req s = let (o, m) = Server.serve ascii_fold req s.mock in (o, record s { mock = m })

abbrev info : GetPluginInfoResponse
info = record { name = []; vendor_version = []; manifest = none }

abbrev host : Host State
host = record {
  getuid = pos 7;
  getgid = pos 7;
  user_by_id = λ t. found t;
  user_by_name = λ t. found t;
  group_by_id = λ t. found t;
  group_by_name = λ t. found t;
  chmod = λ p m n. (none, n);
  chown = λ p u g n. (none, n);
}

-- The process has no variables.
abbrev base : Setup (Unit {0}) ℕ (Unit {0}) State
base = record {
  fold = ascii_fold;
  to_upper = λ t. t;
  tools = record { trim_space = λ t. t; read_csv = λ t. end_of_file };
  parse_duration = λ t. none;
  process_env = λ k. none;
  new_etcd = created tt;
  host = host;
  lis = record { network = text "tcp"; path = text "127.0.0.1:80" };
  before_serve = λ is n. ((is, none), n);
  listen = λ n. (none, n);
  env_vars = [];
  interceptors = [];
  services = record { has_identity = true; has_controller = true; has_node = true };
  versions = [];
  info = info;
}

abbrev ctx : Ctx
ctx = record { environ = none; lookup_env = none; setenv = none; incoming = none; outgoing = none }

names_kept : KeepsNames base.to_upper env_vars
names_kept = (refl, (refl, (refl, (refl, (refl, tt)))))

quiet : IsQuiet base ctx names_kept
unfolding lookup_environ
quiet = ((refl, refl), (refl, refl), (refl, refl), (refl, refl))

abbrev env : Text → Option Text
env k = variable (new_plugin base) ctx k

abbrev installed : List (Installed ℕ (Unit {0}))
installed =
    inject_context
    ∷ spec_validator (spec_opts true true mock_versions (switches env))
    ∷ known_versions
    ∷ serial_volume none none
    ∷ []

installed_lem :
    init_interceptors base.parse_duration base.new_etcd env
      (init_supported_versions (env EnvVars.supported_versions) [])
    ≡ ready installed
unfolding init_interceptors variable init_env_vars init_supported_versions parse_versions lookup_env
    serve_context read_switches with_all_creds with_spec_req with_spec_rep env_bool parse_bool
    serial_timeout ◌==◌ text cut lookup insert
installed_lem = refl

-- A request without a node ID.
abbrev nowhere : Request
nowhere = Request.controller_publish_volume (record {
  version = some (record { major = 1; minor = 1; patch = 0 });
  volume_id = text "1";
  node_id = [];
  volume_capability = none;
  readonly = false;
  user_credentials = none;
  volume_attributes = none;
})

nowhere-IsImproper : IsImproper base ctx names_kept quiet nowhere
nowhere-IsImproper = inr refl

mock_plugin-Refuses_example :
    Refuses
      (λ s. s.mock)
      (serve runtime mock_versions info installed ctx nowhere
        (method_name controller_publish_volume)
        service)
mock_plugin-Refuses_example =
    mock_plugin-Refuses base ctx names_kept quiet runtime (λ s. s.mock) info installed ctx nowhere
      (method_name controller_publish_volume) service apart installed_lem nowhere-IsImproper
