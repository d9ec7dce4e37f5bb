-- ===== src/Tests/Plugins.antt =====
-- The plug-in's environment, its interceptors and its chain on concrete inputs.
use gocsi.Base.{
  ℕ, ◌+◌, ◌≡◌, refl, true, false, Option, none, some, List, [], ◌∷◌, ◌++◌, Text, text, ◌==◌, lookup,
  insert, cut, ascii_fold,
}
use gocsi.Csi.{Version, GetPluginInfoResponse, Request, Response}
use gocsi.Csi.Reflect.{get_volume_id}
use gocsi.Context.{setenv, lookup_env, lookup_environ, parse_bool, or_else}
use gocsi.Status.{delete_volume, replies, refuses, unimplemented, get_supported_versions}
use gocsi.Utils.Methods.{method_name}
use gocsi.SpecValidator.{Opts, new_spec_validator}
use gocsi.SpecValidator.Handle.Laws.{IsAccepted}
use gocsi.SerialVolume.{got, Locker}
use gocsi.Plugin.{process, serve_context, env_bool}
use gocsi.Plugin.EnvVars
use gocsi.Plugin.Env.{init_env_vars}
use gocsi.Plugin.Env.Precedence.{forced, default_of, lookup_env-init_env_vars}
use gocsi.Plugin.Interceptors.{
  Installed, created, ready, init_interceptors, read_switches, with_all_creds, with_spec_req,
  with_spec_rep, spec_opts, inject_context, spec_validator, known_versions,
}
use gocsi.Plugin.Interceptors.Form.{switches}
use gocsi.Plugin.Interceptors.Laws.{Configured, new_spec_validator-Configured}
use gocsi.Plugin.Chain.{Ctx, Run, Runtime, serve}
use gocsi.Plugin.Chain.Parts.{IsApart}
use gocsi.Plugin.Chain.Guard.{Refuses, serve-Refuses}
use gocsi.Plugin.Chain.Versions.{serve_versions}

abbrev v010 : Version
v010 = record { major = 0; minor = 1; patch = 0 }

-- A plug-in that counts the calls of its service.
pub record State : Type 0 where
  pub ids : ℕ
  pub log : List Text
  pub calls : ℕ

abbrev no_locks : Locker State (Unit {0})
no_locks = record {
  get_lock = λ k s. (got tt, s);
  close = λ l s. s;
  try_lock = λ l s. (true, s);
  unlock = λ l s. s;
}

abbrev runtime : Runtime ℕ (Unit {0}) State (Unit {0})
runtime = record {
  with_details = λ st r. some (record st { details = r ∷ st.details });
  sprint = λ f. [];
  error_text = λ e. [];
  id = record { load = λ s. s.ids; store = λ n s. record s { ids = n }; load-store = λ n s. refl };
  writer = λ line s. record s { log = s.log ++ line ∷ [] };
  locker = λ t p. no_locks;
}

apart : IsApart runtime (λ s. s.calls)
apart = record { stores = λ n s. refl; writes = λ line s. refl }

abbrev ctx : Ctx
ctx = record { environ = none; lookup_env = none; setenv = none; incoming = none; outgoing = none }

abbrev service : Ctx → Request → Run State
service c req s = (refuses unimplemented [], record s { calls = s.calls + 1 })

abbrev info : GetPluginInfoResponse
info = record { name = []; vendor_version = []; manifest = none }

-- Only the validation of requests is on, and the node ID is required.
abbrev env : Text → Option Text
env k = lookup k ((text "X_CSI_REQUIRE_NODE_ID", text "true") ∷ [])

abbrev no_duration : Text → Option ℕ
no_duration t = none

abbrev start : State
start = record { ids = 0; log = []; calls = 0 }

abbrev installed : List (Installed ℕ (Unit {0}))
installed =
    inject_context
    ∷ spec_validator (spec_opts true false (v010 ∷ []) (switches env))
    ∷ known_versions
    ∷ []

installed_lem : init_interceptors no_duration (created tt) env (v010 ∷ []) ≡ ready installed
unfolding init_interceptors read_switches with_all_creds with_spec_req with_spec_rep env_bool
    parse_bool lookup ◌==◌ text
installed_lem = refl

request_validation : with_spec_req env (switches env) ≡ true
unfolding with_spec_req read_switches with_all_creds env_bool parse_bool lookup ◌==◌ text
request_validation = refl

serve_versions_example :
    ((serve runtime
        (v010 ∷ [])
        info
        installed
        ctx
        Request.get_supported_versions
        (method_name get_supported_versions)
        service
        start).0
      ≡ replies (Response.get_supported_versions (some v010 ∷ [])))
    × ((serve runtime
          (v010 ∷ [])
          info
          installed
          ctx
          Request.get_supported_versions
          (method_name get_supported_versions)
          service
          start).1.calls
        ≡ 0)
serve_versions_example =
    serve_versions runtime (λ s. s.calls) v010 [] info no_duration (created tt) env installed ctx
      service start apart installed_lem

-- A request without a volume ID.
abbrev nameless : Request
nameless =
    Request.delete_volume (record { version = some v010; volume_id = []; user_credentials = none })

abbrev configured : Opts
configured =
    new_spec_validator
      (spec_opts true (with_spec_rep env (switches env)) (v010 ∷ []) (switches env))

nameless_not-IsAccepted : ¬ IsAccepted configured (method_name delete_volume) nameless
unfolding get_volume_id
nameless_not-IsAccepted a = a.1.volume_id refl

serve-Refuses_example :
    Refuses
      (λ s. s.calls)
      (serve runtime (v010 ∷ []) info installed ctx nameless (method_name delete_volume) service)
serve-Refuses_example =
    serve-Refuses runtime (λ s. s.calls) (v010 ∷ []) info no_duration (created tt) env installed ctx
      nameless (method_name delete_volume) service apart installed_lem request_validation
      nameless_not-IsAccepted

new_spec_validator-Configured_example :
    Configured true false
      (v010 ∷ [])
      (switches env)
      (new_spec_validator (spec_opts true false (v010 ∷ []) (switches env)))
new_spec_validator-Configured_example =
    new_spec_validator-Configured true false (v010 ∷ []) (switches env)

-- Debugging is on by default, and the process says that requests are not logged.
abbrev defaults : List Text
defaults = text "X_CSI_DEBUG=true" ∷ text "A=1" ∷ text "A=2" ∷ []

abbrev process_env : Text → Option Text
process_env k = lookup k ((EnvVars.req_logging, text "false") ∷ [])

abbrev same_case : Text → Text
same_case t = t

lookup_env-init_env_vars_example :
    lookup_env ascii_fold
      (process process_env)
      (serve_context ctx)
      EnvVars.req_logging
      (init_env_vars ascii_fold (process process_env) same_case (serve_context ctx) defaults)
    ≡ or_else (lookup_environ ascii_fold ctx.environ EnvVars.req_logging) (
        or_else (forced ascii_fold process_env same_case ctx defaults EnvVars.req_logging) (
          or_else
            (process_env EnvVars.req_logging)
            (default_of same_case EnvVars.req_logging defaults)))
lookup_env-init_env_vars_example =
    lookup_env-init_env_vars ascii_fold process_env same_case ctx defaults EnvVars.req_logging

-- The logging of requests is on all the same.
debug_wins :
    lookup_env ascii_fold
      (process process_env)
      (serve_context ctx)
      EnvVars.req_logging
      (init_env_vars ascii_fold (process process_env) same_case (serve_context ctx) defaults)
    ≡ some (text "true")
unfolding lookup_env init_env_vars serve_context env_bool parse_bool lookup insert cut ◌==◌ text
    setenv
debug_wins = refl

-- The first default for a variable counts.
first_default :
    lookup
      (text "A")
      (init_env_vars ascii_fold (process process_env) same_case (serve_context ctx) defaults)
    ≡ some (text "1")
unfolding lookup_env init_env_vars serve_context env_bool parse_bool lookup insert cut ◌==◌ text
    setenv
first_default = refl
