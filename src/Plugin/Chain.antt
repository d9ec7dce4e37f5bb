-- ===== src/Plugin/Chain.antt =====
-- middleware.go and gocsi.go: the interceptors that the plug-in installs, each as a function, and the
-- chain of them that `Serve` gives to the grpc server. What the interceptors keep (the counter of the
-- request IDs, the log, the locks) lives in a state `S` together with the service's own.
pub mod Parts
pub mod Guard
pub mod Versions
use gocsi.Base.{
  ℕ, Bool, true, false, Option, none, some, List, [], ◌∷◌, ◌++◌, map, ◌==◌, ◌||◌, not, Text,
  is_empty, if◌then◌else◌, Cell,
}
use gocsi.Csi.{Version, GetPluginInfoResponse, Request, Response}
use gocsi.Csi.Reflect.{Field}
use gocsi.Context.{Context, with_lookup_env, get_request_id}
use gocsi.Status.{Status, Error, Outcome, replies, get_supported_versions, get_plugin_info}
use gocsi.Utils.Methods.{method_name}
use gocsi.Utils.Chain.{Handler, Interceptor, chain_unary_server}
use gocsi.RequestId
use gocsi.Logging
use gocsi.Logging.{Writer, Opts}
use gocsi.SpecValidator.{new_spec_validator}
use gocsi.SpecValidator.Handle
use gocsi.SerialVolume
use gocsi.SerialVolume.{Locker}
use gocsi.Plugin.{EnvMap, sp_lookup_env}
use gocsi.Plugin.Interceptors.{
  Installed, inject_context, request_id, logger, spec_validator, plugin_info, known_versions,
  serial_volume,
}

abbrev pub Ctx : Type 0
Ctx = Context EnvMap

-- What a call of a handler does.
abbrev pub Run : Type 0 → Type 0
Run S = S → Outcome × S

-- What the interceptors are built on.
pub record Runtime (D P S L : Type 0) : Type 0 where
  pub with_details : Status → Response → Option Status
  pub sprint : Field → Text
  pub error_text : Error → Text
  pub id : Cell S ℕ
  pub writer : Writer S
  pub locker : Option D → Option P → Locker S L

module _ {S : Type 0} where
  -- `injectContext`
  pub inject : Interceptor Ctx Request Text (Run S)
  inject ctx req full_method handler = handler (with_lookup_env ctx sp_lookup_env) req

  -- `getSupportedVersions`
  pub get_versions : List Version → Interceptor Ctx Request Text (Run S)
  get_versions [] ctx req full_method handler = handler ctx req
  get_versions (v ∷ vs) ctx req full_method handler =
      if not (full_method == method_name get_supported_versions) then handler ctx req else λ st.
      (replies (Response.get_supported_versions (map some (v ∷ vs))), st)

  -- `getPluginInfo`
  pub get_info : GetPluginInfoResponse → Interceptor Ctx Request Text (Run S)
  get_info info ctx req full_method handler =
      if not (full_method == method_name get_plugin_info) || is_empty info.name
      then handler ctx req
      else λ st. (replies (Response.get_plugin_info info), st)

  -- The writers of the logging interceptor: both write to the plug-in's own logger.
  abbrev pub writer_if : Writer S → Bool → Option (Writer S)
  writer_if w true = some w
  writer_if w false = none

  abbrev pub logging_opts : Writer S → Bool → Bool → Opts S
  logging_opts w req rep = record { reqw = writer_if w req; repw = writer_if w rep }

module _ {D P S L : Type 0} (rt : Runtime D P S L) (vs : List Version)
    (info : GetPluginInfoResponse) where
  open rt use {with_details, sprint, error_text, id, writer, locker}

  pub interceptor : Installed D P → Interceptor Ctx Request Text (Run S)
  unfolding inject get_versions get_info
  interceptor inject_context ctx req full_method handler = inject ctx req full_method handler
  interceptor request_id ctx req full_method handler = RequestId.handle_server id ctx req handler
  interceptor (logger rq rp) ctx req full_method handler =
      Logging.handle sprint error_text (logging_opts writer rq rp) full_method (get_request_id ctx)
        (some req) (handler ctx req)
  interceptor (spec_validator opts) ctx req full_method handler =
      Handle.handle with_details (new_spec_validator opts) full_method (some req) (handler ctx req)
  interceptor plugin_info ctx req full_method handler = get_info info ctx req full_method handler
  interceptor known_versions ctx req full_method handler =
      get_versions vs ctx req full_method handler
  interceptor (serial_volume t p) ctx req full_method handler =
      SerialVolume.handle (locker t p) req (handler ctx req)

  -- What the grpc server calls for a request, where the plug-in has no interceptors of its own.
  unfoldable pub serve :
      List (Installed D P) → Ctx → Request → Text → Handler Ctx Request (Run S) → Run S
  unfolding interceptor
  serve installed ctx req full_method service =
      chain_unary_server (map interceptor installed) ctx req full_method service
