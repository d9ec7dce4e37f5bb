-- ===== src/SpecValidator/Handle.antt =====
-- `handle`, `handleServer` and `handleClient`. A call changes a state `S`: the plug-in's on the
-- server, the connection's on the client. `with_details` is grpc's `Status.WithDetails`, `none` where
-- it has an error.
pub mod Laws
pub mod Client
use gocsi.Base.{Option, none, some, [], Text, if◌then◌else◌}
use gocsi.Csi.{Request, Response}
use gocsi.Status.{
  returned, Check, pass, fail, panics, ◌>>◌, Status, Error, status, plain, internal, Reply,
  no_reply, nil_pointer, reply, Outcome, returns, panicked,
}
use gocsi.Utils.Methods.{is_nil_response}
use gocsi.SpecValidator.{Opts}
use gocsi.SpecValidator.Requests.{validate_request_version, validate_request}
use gocsi.SpecValidator.Responses.{validate_response}

-- `status.FromError(err)`, or an internal status with the text of the error.
abbrev pub status_of : Error → Status
status_of (status st) = st
status_of (plain m) = record { code = internal; message = m; details = [] }

check_request : Opts → Text → Request → Check
check_request s method req = do validate_request_version s req; validate_request s method req

-- The client gets the error alone; the invoker's outcome holds the response as it filled it in.
abbrev pub error_only : Outcome → Check
error_only panicked = panics
error_only (returns r) = elim r.err [ none ↦ pass | some e ↦ fail e ]

module _ (with_details : Status → Response → Option Status) where
  -- The validation error, with the response in its details if it can be encoded.
  invalid_response : Error → Response → Option Status → Outcome
  invalid_response e r none = returned (reply r) none
  invalid_response e r (some st) = returned no_reply (some (status st))

  after_response_check : Reply → Check → Outcome
  unfolding invalid_response
  after_response_check rep pass = returned rep none
  after_response_check rep panics = panicked
  after_response_check (reply r) (fail e) = invalid_response e r (with_details (status_of e) r)
  after_response_check no_reply (fail e) = panicked
  after_response_check (nil_pointer k) (fail e) = panicked

  after_next : Opts → Text → Reply → Option Error → Outcome
  unfolding after_response_check
  after_next s method rep (some e) = returned no_reply (some e)
  after_next s method rep none =
      if is_nil_response method rep
      then returned no_reply none
      else if s.rep_validation
      then after_response_check rep (validate_response s method rep)
      else returned rep none

  -- What follows the call of `next`.
  handle_return : Opts → Text → Outcome → Outcome
  unfolding after_next
  handle_return s method panicked = panicked
  handle_return s method (returns r) = after_next s method r.rep r.err

  module _ {S : Type 0} where
    handle_checked : Opts → Text → (S → Outcome × S) → Check → S → Outcome × S
    unfolding handle_return
    handle_checked s method next pass st =
        let (out, st') = next st in (handle_return s method out, st')
    handle_checked s method next (fail e) st = (returned no_reply (some e), st)
    handle_checked s method next panics st = (panicked, st)

    unfoldable pub handle : Opts → Text → Option Request → (S → Outcome × S) → S → Outcome × S
    unfolding handle_checked check_request
    handle s method none next st = next st
    handle s method (some req) next st =
        handle_checked s method next (if s.req_validation then check_request s method req else pass)
          st

    unfoldable pub handle_server {κ} :
        {Ctx : Type κ}
        → Opts
        → Ctx
        → Text
        → Option Request
        → (Ctx → Option Request → S → Outcome × S)
        → S
        → Outcome × S
    unfolding handle
    handle_server s ctx full_method req handler = handle s full_method req (handler ctx req)

    unfoldable pub handle_client : Opts → Text → Option Request → (S → Outcome × S) → S → Check × S
    unfolding handle
    handle_client s method req invoker st =
        let (out, st') = handle s method req invoker st in (error_only out, st')
