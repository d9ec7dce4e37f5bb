-- ===== src/Csc/Interceptors/Laws.antt =====
-- What the client's validator does with a call.
use mathlib.Core.List.{map-append}
use gocsi.Base.{◌≡◌, ◌∙◌, ap, if◌then◌else◌, refl, arith, Bool, true, false, [], ◌∷◌, map}
use gocsi.Csi.{Response}
use gocsi.Context.{Context}
use gocsi.Status.{Check, pass, fail, panics}
use gocsi.Utils.Chain.{Invoker, chain_unary_client, chain_unary_client-append}
use gocsi.SpecValidator.{new_spec_validator}
use gocsi.SpecValidator.Handle.{error_only}
use gocsi.SpecValidator.Handle.Client.{handle_client_off}
use gocsi.SpecValidator.Options.{
  has, is_request_validation, is_response_validation, req_validation-has, rep_validation-has,
}
use gocsi.Csc.Interceptors.{
  Flags, client_spec_opts, client_spec_validator, logging_interceptors, wants_spec_validator,
  client_interceptors,
}
use gocsi.Csc.Interceptors.Client.{
  Call, Run, Runtime, with_reply, next, client_interceptor, call_with,
}

spec_opts_request : (f : Flags) → has is_request_validation (client_spec_opts f) ≡ false
unfolding client_spec_opts
spec_opts_request f = ground arith

spec_opts_response : (f : Flags) → has is_response_validation (client_spec_opts f) ≡ false
unfolding client_spec_opts
spec_opts_response f = ground arith

no_request : (f : Flags) → (new_spec_validator (client_spec_opts f)).req_validation ≡ false
no_request f = req_validation-has (client_spec_opts f) ∙ spec_opts_request f

no_response : (f : Flags) → (new_spec_validator (client_spec_opts f)).rep_validation ≡ false
no_response f = rep_validation-has (client_spec_opts f) ∙ spec_opts_response f

module _ {S : Type 0} (rt : Runtime S) where
  error_only-with_reply : (r : Response) (c : Check) → error_only (with_reply r c) ≡ c
  error_only-with_reply r pass = refl
  error_only-with_reply r (fail e) = refl
  error_only-with_reply r panics = refl

  validator_passes :
      {E : Type 0} (f : Flags) (ctx : Context E) (call : Call)
      (invoker : Invoker (Context E) Call (Run S)) (st : S)
      → client_interceptor rt (client_spec_validator (client_spec_opts f)) ctx call invoker st
        ≡ invoker ctx call st
  unfolding client_interceptor
  validator_passes f ctx (method, req) invoker st =
      handle_client_off rt.with_details (new_spec_validator (client_spec_opts f)) method
        (no_response f) req (next rt (invoker ctx (method, req))) st (no_request f)
      ∙ ap (λ c. (c, (invoker ctx (method, req) st).1)) (error_only-with_reply _ _)

  validator_chain :
      {E : Type 0} (f : Flags) (b : Bool) (ctx : Context E) (call : Call)
      (invoker : Invoker (Context E) Call (Run S)) (st : S)
      → call_with rt
          (if b then client_spec_validator (client_spec_opts f) ∷ [] else [])
          ctx
          call
          invoker
          st
        ≡ invoker ctx call st
  unfolding call_with chain_unary_client
  validator_chain f true ctx call invoker st = validator_passes f ctx call invoker st
  validator_chain f false ctx call invoker st = refl

  -- A call of the client behaves as if the flags asked for the request IDs and the logging alone: the
  -- validator, which its own flag and each requirement turn on, refuses no request and no response.
  pub client_interceptors-logging_interceptors :
      {E : Type 0} (f : Flags) (ctx : Context E) (call : Call)
      (invoker : Invoker (Context E) Call (Run S))
      → call_with rt (client_interceptors f) ctx call invoker
        ≡ call_with rt (logging_interceptors f) ctx call invoker
  unfolding call_with client_interceptors
  client_interceptors-logging_interceptors f ctx call invoker =
      rw (map-append (client_interceptor rt) (logging_interceptors f) _) (
        chain_unary_client-append (map (client_interceptor rt) (logging_interceptors f)) _ ctx call
          invoker
        ∙ ap
            (λ (k : Invoker (Context _) Call (Run S)).
              chain_unary_client (map (client_interceptor rt) (logging_interceptors f)) ctx call k)
            (λ i c l st. validator_chain f (wants_spec_validator f) c l invoker st i))
