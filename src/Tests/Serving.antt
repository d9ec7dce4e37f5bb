-- ===== src/Tests/Serving.antt =====
-- Serve on a concrete plug-in.
use gocsi.Base.{ℕ, ◌≡◌, ◌↔◌, refl, true, none, some, [], ◌∷◌, text, ◌==◌, lookup, ascii_fold, pos}
use gocsi.Context.{Context, lookup_env, parse_bool}
use gocsi.Status.{plain}
use gocsi.Utils.Parsing.{end_of_file}
use gocsi.Plugin.{EnvMap, env_bool, serve_context}
use gocsi.Plugin.Env.{init_env_vars, init_supported_versions, init_plugin_info}
use gocsi.Plugin.Interceptors.{created, inject_context, init_interceptors}
use gocsi.Plugin.Endpoint.{Host, found, init_endpoint_perms, init_endpoint_owner}
use gocsi.Plugin.Serve.{
  Services, Setup, register, identity, controller, ran, built_in, variable, serve_once,
}
use gocsi.Plugin.Serve.Runs.{Runs, serve_once-ran_iff}

abbrev host : Host ℕ
host = record {
  getuid = pos 7;
  getgid = pos 7;
  user_by_id = λ t. found t;
  user_by_name = λ t. found (text "7");
  group_by_id = λ t. found t;
  group_by_name = λ t. found (text "7");
  chmod = λ p m n. (none, n);
  chown = λ p u g n. (none, n);
}

abbrev services : Services
services = record { has_identity = true; has_controller = true; has_node = true }

abbrev setup : Setup (Unit {0}) ℕ (Unit {0}) ℕ
setup = record {
  fold = ascii_fold;
  to_upper = λ t. t;
  tools = record { trim_space = λ t. t; read_csv = λ t. end_of_file };
  parse_duration = λ t. none;
  process_env = λ k. lookup k ((text "X_CSI_CTRLSVC_ONLY", text "true") ∷ []);
  new_etcd = created tt;
  host = host;
  lis = record { network = text "tcp"; path = text "127.0.0.1:80" };
  before_serve = λ is n. ((is, none), n);
  listen = λ n. (some (plain []), n);
  env_vars = [];
  interceptors = [];
  services = services;
  versions = [];
  info = record { name = []; vendor_version = []; manifest = none };
}

abbrev ctx : Context EnvMap
ctx = record { environ = none; lookup_env = none; setenv = none; incoming = none; outgoing = none }

serves :
    (serve_once setup ctx 0).0
    ≡ ran (identity ∷ controller ∷ []) (built_in inject_context ∷ []) (some (plain []))
unfolding serve_once register variable init_endpoint_perms init_endpoint_owner init_env_vars
    init_supported_versions init_plugin_info init_interceptors lookup_env serve_context env_bool
    parse_bool lookup ◌==◌ text
serves = refl

serve_once-ran_iff_example :
    ((serve_once setup ctx 0).0
      ≡ ran (identity ∷ controller ∷ []) (built_in inject_context ∷ []) (some (plain [])))
    ↔ Runs setup ctx (identity ∷ controller ∷ []) (built_in inject_context ∷ []) (some (plain [])) 0
serve_once-ran_iff_example =
    serve_once-ran_iff setup ctx (identity ∷ controller ∷ []) (built_in inject_context ∷ [])
      (some (plain [])) 0

runs :
    Runs setup ctx (identity ∷ controller ∷ []) (built_in inject_context ∷ []) (some (plain [])) 0
runs =
    (serve_once-ran_iff setup ctx (identity ∷ controller ∷ []) (built_in inject_context ∷ [])
        (some (plain [])) 0).0
      serves
