-- ===== src/Csc/Interceptors/Client.antt =====
-- csc/cmd/interceptors.go: the chain of the client's interceptors. A call is a method and a request;
-- the reply that the connection fills in is a cell of the state `S`, since each interceptor has the
-- pointer to it and passes on the error alone.
use gocsi.Base.{ℕ, Bool, true, false, Option, none, some, List, Text, map, Cell}
use gocsi.Csi.{Request, Response}
use gocsi.Csi.Reflect.{Field}
use gocsi.Context.{Context, get_request_id}
use gocsi.Status.{Status, Error, Check, pass, fail, panics, reply, Outcome, returns, panicked}
use gocsi.Utils.Chain.{ClientInterceptor, chain_unary_client}
use gocsi.RequestId
use gocsi.Logging
use gocsi.Logging.{Writer, Opts}
use gocsi.SpecValidator.{new_spec_validator}
use gocsi.SpecValidator.Handle
use gocsi.SpecValidator.Handle.{error_only}
use gocsi.Csc.Interceptors.{
  ClientInstalled, request_id_injector, client_logger, client_spec_validator,
}

abbrev pub Call : Type 0
Call = Text × Request

abbrev pub Run : Type 0 → Type 0
Run S = S → Check × S

-- What the interceptors are built on.
pub record Runtime (S : Type 0) : Type 0 where
  pub with_details : Status → Response → Option Status
  pub sprint : Field → Text
  pub error_text : Error → Text
  pub id : Cell S ℕ
  pub rep : Cell S Response
  pub writer : Writer S

-- The reply and the error, as `next` returns them.
abbrev pub with_reply : Response → Check → Outcome
with_reply r pass = returns (record { rep = reply r; err = none })
with_reply r (fail e) = returns (record { rep = reply r; err = some e })
with_reply r panics = panicked

module _ {S : Type 0} (rt : Runtime S) where
  open rt use {with_details, sprint, error_text, id, rep, writer}

  -- `func() (interface{}, error) { return rep, invoker(…) }`
  abbrev pub next : Run S → S → Outcome × S
  next run st = let (c, st') = run st in (with_reply (rep.load st') c, st')

  abbrev writer_if : Bool → Option (Writer S)
  writer_if true = some writer
  writer_if false = none

  unfoldable pub client_interceptor :
      {E : Type 0} → ClientInstalled → ClientInterceptor (Context E) Call (Run S)
  client_interceptor request_id_injector ctx call invoker =
      RequestId.handle_client id ctx call invoker
  client_interceptor (client_logger rq rp) ctx (method, req) invoker = λ st.
      let (out, st') =
        Logging.handle sprint error_text (record { reqw = writer_if rq; repw = writer_if rp })
          method (get_request_id ctx) (some req) (next (invoker ctx (method, req))) st in
      (error_only out, st')
  client_interceptor (client_spec_validator opts) ctx (method, req) invoker = λ st.
      Handle.handle_client with_details (new_spec_validator opts) method (some req)
        (next (invoker ctx (method, req))) st

  -- What a call of the client does with the chain of these interceptors.
  unfoldable pub call_with :
      {E : Type 0} → List ClientInstalled → ClientInterceptor (Context E) Call (Run S)
  unfolding client_interceptor
  call_with installed ctx call invoker =
      chain_unary_client (map client_interceptor installed) ctx call invoker
