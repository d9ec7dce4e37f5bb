-- ===== src/Plugin/Chain/Guard.antt =====
-- What the chain keeps from the service.
use mathlib.Core.Path.{subst}
use gocsi.Base.{
  ◌≡◌, ◌≢◌, inl, inr, sym, ap, ◌∙◌, Bool, true, false, Option, none, List, ◌++◌, ◌||◌, Text,
}
use gocsi.Csi.{Version, GetPluginInfoResponse, Request}
use gocsi.Context.{get_request_id}
use gocsi.Status.{Reply, returned}
use gocsi.Utils.Chain.{Handler, chain_unary_server-foldr}
use gocsi.RequestId
use gocsi.Logging.Effect.{handle_effect}
use gocsi.SpecValidator.{WithOption, new_spec_validator}
use gocsi.SpecValidator.Handle.Laws.{IsAccepted, handle_refuses}
use gocsi.Plugin.Interceptors.{
  Switches, is_set, Installed, inject_context, request_id, logger, spec_validator, plugin_info,
  known_versions, when, Created, ready, before_serial, init_interceptors, with_spec_req,
  with_spec_rep, spec_opts, is_nonempty,
}
use gocsi.Plugin.EnvVars
use gocsi.Plugin.Interceptors.Laws.{new_spec_validator-Configured}
use gocsi.Plugin.Chain.Parts.{IsApart, writer_Spares, one, chain, chain-parts}
use gocsi.Plugin.Interceptors.Form.{switches, init_interceptors-Ends}
use gocsi.Plugin.Chain.{Ctx, Run, Runtime, logging_opts, inject, interceptor, serve}

-- The part of the state that is the service's stays as it was, and there is no reply without error.
abbrev pub Refuses : {S T : Type 0} → (S → T) → Run S → Type 0
Refuses {S} inner m =
    (st : S) → (inner (m st).1 ≡ inner st) × ((r : Reply) → (m st).0 ≢ returned r none)

module _ {D P S L T : Type 0} (rt : Runtime D P S L) (inner : S → T) (apart : IsApart rt inner)
    (vs : List Version) (info : GetPluginInfoResponse) (req : Request) (method : Text) where
  abbrev AllRefuse : Handler Ctx Request (Run S) → Type 0
  AllRefuse h = (ctx : Ctx) → Refuses inner (h ctx req)

  inject_refuses :
      (h : Handler Ctx Request (Run S))
      → AllRefuse h
      → AllRefuse (one rt vs info method inject_context h)
  unfolding interceptor inject
  inject_refuses h r ctx st = r _ st

  request_id_refuses :
      (h : Handler Ctx Request (Run S))
      → AllRefuse h
      → AllRefuse (one rt vs info method request_id h)
  unfolding interceptor RequestId.handle_server
  request_id_refuses h r ctx st =
      let inside =
        r (RequestId.prepare_server ctx (rt.id.load st)).0
          (rt.id.store (RequestId.prepare_server ctx (rt.id.load st)).1 st) in
      (inside.0 ∙ apart.stores _ st, inside.1)

  logger_refuses :
      (rq rp : Bool) (h : Handler Ctx Request (Run S))
      → AllRefuse h
      → AllRefuse (one rt vs info method (logger rq rp) h)
  unfolding interceptor
  logger_refuses rq rp h r ctx st =
      let (st', same, kept, out) =
        handle_effect rt.sprint rt.error_text (logging_opts rt.writer rq rp) method
          (get_request_id ctx) inner req (h ctx req) st (writer_Spares rt inner apart rq)
          (writer_Spares rt inner apart rp) in
      (
        kept ∙ (r ctx st').0 ∙ same,
        λ rep ok. elim out [ inl handed ↦ (r ctx st').1 rep (sym handed ∙ ok) | inr broke ↦ cc ],
      )

  spec_validator_refuses :
      (opts : List WithOption) (h : Handler Ctx Request (Run S))
      → (new_spec_validator opts).req_validation ≡ true
      → ¬ IsAccepted (new_spec_validator opts) method req
      → AllRefuse (one rt vs info method (spec_validator opts) h)
  unfolding interceptor
  spec_validator_refuses opts h on bad ctx st =
      let refused =
        handle_refuses rt.with_details (new_spec_validator opts) method (h ctx req) st req on bad in
      (ap inner refused.0, refused.1)

  when_refuses :
      (b : Bool) (x : Installed D P) (h : Handler Ctx Request (Run S))
      → ((k : Handler Ctx Request (Run S)) → AllRefuse k → AllRefuse (one rt vs info method x k))
      → AllRefuse h
      → AllRefuse (chain rt vs info method (when b x) h)
  when_refuses true x h f r = f h r
  when_refuses false x h f r = r

  spec_part_refuses :
      (s : Switches) (req_on rep_on : Bool) (h : Handler Ctx Request (Run S))
      → req_on ≡ true
      → ¬ IsAccepted (new_spec_validator (spec_opts true rep_on vs s)) method req
      → AllRefuse (
          chain rt vs info method
            (when (req_on || rep_on) (spec_validator (spec_opts req_on rep_on vs s)))
            h)
  spec_part_refuses s req_on rep_on h on bad = rw on (
      spec_validator_refuses (spec_opts true rep_on vs s) h
        (new_spec_validator-Configured true rep_on vs s).requests bad)

  -- Up to the validator, the interceptors only pass on; what follows it does not matter.
  before_serial_refuses :
      (env : Text → Option Text) (tail : List (Installed D P)) (h : Handler Ctx Request (Run S))
      → let s = switches env in
        with_spec_req env s ≡ true
        → ¬ IsAccepted (new_spec_validator (spec_opts true (with_spec_rep env s) vs s)) method req
        → AllRefuse (chain rt vs info method (before_serial env vs s ++ tail) h)
  unfolding before_serial
  before_serial_refuses env tail h on bad =
      let s = switches env in
      let logging = s.req_logging || s.rep_logging in
      let req_on = with_spec_req env s in
      let rep_on = with_spec_rep env s in
      let ids : List (Installed D P) = when logging request_id in
      let logs : List (Installed D P) = when logging (logger s.req_logging s.rep_logging) in
      let validators : List (Installed D P) =
        when (req_on || rep_on) (spec_validator (spec_opts req_on rep_on vs s)) in
      let infos : List (Installed D P) = when (is_set (env EnvVars.plugin_info)) plugin_info in
      let others : List (Installed D P) = when (is_nonempty vs) known_versions in
      let k =
        chain rt vs info method infos
          (chain rt vs info method others (chain rt vs info method tail h)) in
      let checked = spec_part_refuses s req_on rep_on k on bad in
      let validated = chain rt vs info method validators k in
      let logged =
        when_refuses logging (logger s.req_logging s.rep_logging) validated
          (logger_refuses s.req_logging s.rep_logging) checked in
      let identified =
        when_refuses logging request_id (chain rt vs info method logs validated) request_id_refuses
          logged in
      let form = chain-parts rt vs info method ids logs validators infos others tail h in
      inject_refuses _ (subst AllRefuse (sym form) identified)

-- Where request validation is on, a request that the configured validator does not accept never
-- reaches the service, whatever else is installed: the service's part of the state stays as it was,
-- and the caller gets no reply without an error.
pub serve-Refuses :
    {D P S L T : Type 0} (rt : Runtime D P S L) (inner : S → T) (vs : List Version)
    (info : GetPluginInfoResponse) (parse_duration : Text → Option D) (new_etcd : Created P)
    (env : Text → Option Text) (installed : List (Installed D P)) (ctx : Ctx) (req : Request)
    (method : Text) (service : Handler Ctx Request (Run S))
    → IsApart rt inner
    → init_interceptors parse_duration new_etcd env vs ≡ ready installed
    → with_spec_req env (switches env) ≡ true
    → ¬ IsAccepted
        (new_spec_validator (spec_opts true (with_spec_rep env (switches env)) vs (switches env)))
        method
        req
    → Refuses inner (serve rt vs info installed ctx req method service)
unfolding serve
serve-Refuses rt inner vs info parse_duration new_etcd env installed ctx req method service apart e
      on bad =
    let (tail, form, _) = init_interceptors-Ends parse_duration new_etcd env vs e in
    rw chain_unary_server-foldr (
      rw form (before_serial_refuses rt inner apart vs info req method env tail service on bad ctx))
