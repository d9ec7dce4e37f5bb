-- ===== src/Plugin/Chain/Versions.antt =====
-- The plug-in answers for the service which versions are supported.
use mathlib.Core.Path.{subst}
use gocsi.Base.{
  ◌≡◌, refl, sym, ap, ◌∙◌, Bool, true, false, inr, Option, some, List, [], ◌∷◌, ◌++◌, ◌||◌, map,
  Text, text, ◌==◌, ==_refl,
}
use gocsi.Csi.{Version, GetPluginInfoResponse, Request, Response}
use gocsi.Csi.Reflect.{
  get_version, get_volume_id, get_node_id, get_user_credentials, get_volume_attributes,
  request_fields, response_fields,
}
use gocsi.Context.{get_request_id}
use gocsi.Status.{Outcome, replies, get_supported_versions}
use gocsi.Utils.Methods.{method_name}
use gocsi.Utils.Chain.{Handler, chain_unary_server-foldr}
use gocsi.RequestId
use gocsi.Logging.Effect.{handle_effect, handle-replies}
use gocsi.SpecValidator.{WithOption, Opts, new_spec_validator}
use gocsi.SpecValidator.Handle.Laws.{IsAccepted, handle_delivers}
use gocsi.Plugin.EnvVars
use gocsi.Plugin.Interceptors.{
  is_set, Installed, inject_context, request_id, logger, spec_validator, plugin_info,
  known_versions, when, Created, ready, before_serial, init_interceptors, with_spec_req,
  with_spec_rep, spec_opts,
}
use gocsi.Plugin.Interceptors.Form.{switches, init_interceptors-Ends}
use gocsi.Plugin.Chain.{
  Ctx, Run, Runtime, logging_opts, inject, get_versions, get_info, interceptor, serve,
}
use gocsi.Plugin.Chain.Parts.{IsApart, writer_Spares, one, chain, chain-parts}

abbrev request : Request
request = Request.get_supported_versions

abbrev method : Text
method = method_name get_supported_versions

accepted : (s : Opts) → IsAccepted s method request
unfolding get_version get_volume_id get_node_id get_user_credentials get_volume_attributes
    request_fields
accepted s = (
  inr tt,
  record {
    sizes = tt;
    volume_id = tt;
    node_id = λ _. tt;
    credentials = λ _. tt;
    attributes = λ _. tt;
    rules = tt;
  },
)

module _ {D P S L T : Type 0} (rt : Runtime D P S L) (inner : S → T) (apart : IsApart rt inner)
    (v : Version) (vs : List Version) (info : GetPluginInfoResponse) where
  abbrev given : List Version
  given = v ∷ vs

  abbrev response : Response
  response = Response.get_supported_versions (map some given)

  abbrev AllAnswer : Handler Ctx Request (Run S) → Type 0
  AllAnswer h =
      (ctx : Ctx) (st : S)
      → ((h ctx request st).0 ≡ replies response) × (inner (h ctx request st).1 ≡ inner st)

  abbrev one' : Installed D P → Handler Ctx Request (Run S) → Handler Ctx Request (Run S)
  one' x h = one rt given info method x h

  inject_answers :
      (h : Handler Ctx Request (Run S)) → AllAnswer h → AllAnswer (one' inject_context h)
  unfolding interceptor inject
  inject_answers h a ctx st = a _ st

  request_id_answers :
      (h : Handler Ctx Request (Run S)) → AllAnswer h → AllAnswer (one' request_id h)
  unfolding interceptor RequestId.handle_server
  request_id_answers h a ctx st =
      let inside =
        a (RequestId.prepare_server ctx (rt.id.load st)).0
          (rt.id.store (RequestId.prepare_server ctx (rt.id.load st)).1 st) in
      (inside.0, inside.1 ∙ apart.stores _ st)

  logger_answers :
      (rq rp : Bool) (h : Handler Ctx Request (Run S))
      → AllAnswer h
      → AllAnswer (one' (logger rq rp) h)
  unfolding interceptor
  logger_answers rq rp h a ctx st =
      let (st', same, kept, _) =
        handle_effect rt.sprint rt.error_text (logging_opts rt.writer rq rp) method
          (get_request_id ctx) inner request (h ctx request) st (writer_Spares rt inner apart rq)
          (writer_Spares rt inner apart rp) in
      (
        handle-replies rt.sprint rt.error_text (logging_opts rt.writer rq rp) method
            (get_request_id ctx) request (h ctx request) st response (λ t. (a ctx t).0),
        kept ∙ (a ctx st').1 ∙ same,
      )

  spec_validator_answers :
      (opts : List WithOption) (h : Handler Ctx Request (Run S))
      → AllAnswer h
      → AllAnswer (one' (spec_validator opts) h)
  unfolding interceptor response_fields
  spec_validator_answers opts h a ctx st =
      let o = new_spec_validator opts in
      let delivered =
        handle_delivers rt.with_details o method request (h ctx request) st response
          (λ _. accepted o) (a ctx st).0 (λ _. ((tt, tt), λ e. cc)) in
      (
        ap (λ (x : Outcome × S). x.0) delivered,
        ap (λ (x : Outcome × S). inner x.1) delivered ∙ (a ctx st).1,
      )

  plugin_info_answers :
      (h : Handler Ctx Request (Run S)) → AllAnswer h → AllAnswer (one' plugin_info h)
  unfolding interceptor get_info method_name text ◌==◌
  plugin_info_answers h a ctx st = a ctx st

  known_versions_answers : (h : Handler Ctx Request (Run S)) → AllAnswer (one' known_versions h)
  unfolding interceptor get_versions
  known_versions_answers h ctx st = rw ==_refl (refl, refl)

  when_answers :
      (b : Bool) (x : Installed D P) (h : Handler Ctx Request (Run S))
      → ((k : Handler Ctx Request (Run S)) → AllAnswer k → AllAnswer (one' x k))
      → AllAnswer h
      → AllAnswer (chain rt given info method (when b x) h)
  when_answers true x h f a = f h a
  when_answers false x h f a = a

  before_serial_answers :
      (env : Text → Option Text) (tail : List (Installed D P)) (h : Handler Ctx Request (Run S))
      → AllAnswer (chain rt given info method (before_serial env given (switches env) ++ tail) h)
  unfolding before_serial
  before_serial_answers env tail h =
      let s = switches env in
      let logging = s.req_logging || s.rep_logging in
      let req_on = with_spec_req env s in
      let rep_on = with_spec_rep env s in
      let opts = spec_opts req_on rep_on given s in
      let ids : List (Installed D P) = when logging request_id in
      let logs : List (Installed D P) = when logging (logger s.req_logging s.rep_logging) in
      let validators : List (Installed D P) = when (req_on || rep_on) (spec_validator opts) in
      let informed = is_set (env EnvVars.plugin_info) in
      let infos : List (Installed D P) = when informed plugin_info in
      let k = one' known_versions (chain rt given info method tail h) in
      let known = known_versions_answers (chain rt given info method tail h) in
      let after_info = when_answers informed plugin_info k plugin_info_answers known in
      let after_validator =
        when_answers (req_on || rep_on) (spec_validator opts) (chain rt given info method infos k)
          (spec_validator_answers opts) after_info in
      let checked = chain rt given info method validators (chain rt given info method infos k) in
      let logged =
        when_answers logging (logger s.req_logging s.rep_logging) checked
          (logger_answers s.req_logging s.rep_logging) after_validator in
      let identified =
        when_answers logging request_id (chain rt given info method logs checked) request_id_answers
          logged in
      let form =
        chain-parts rt given info method ids logs validators infos (known_versions ∷ []) tail h in
      inject_answers _ (subst AllAnswer (sym form) identified)

-- Where the plug-in is configured with supported versions, it answers GetSupportedVersions with
-- exactly these, whatever else is installed and whatever the service would answer; the service is
-- not called, and its part of the state stays as it was.
pub serve_versions :
    {D P S L T : Type 0} (rt : Runtime D P S L) (inner : S → T) (v : Version) (vs : List Version)
    (info : GetPluginInfoResponse) (parse_duration : Text → Option D) (new_etcd : Created P)
    (env : Text → Option Text) (installed : List (Installed D P)) (ctx : Ctx)
    (service : Handler Ctx Request (Run S)) (st : S)
    → IsApart rt inner
    → init_interceptors parse_duration new_etcd env (v ∷ vs) ≡ ready installed
    → let run =
        serve rt
          (v ∷ vs)
          info
          installed
          ctx
          Request.get_supported_versions
          (method_name get_supported_versions)
          service in
      ((run st).0 ≡ replies (Response.get_supported_versions (map some (v ∷ vs))))
      × (inner (run st).1 ≡ inner st)
unfolding serve
serve_versions rt inner v vs info parse_duration new_etcd env installed ctx service st apart e =
    let (tail, form, _) = init_interceptors-Ends parse_duration new_etcd env (v ∷ vs) e in
    rw chain_unary_server-foldr
      (rw form (before_serial_answers rt inner apart v vs info env tail service ctx st))
