-- ===== src/SpecValidator/Handle/Laws.antt =====
-- What the interceptor lets through in both directions, and what it does with the rest.
pub mod Invalid
use gocsi.Base.{
  if◌then◌else◌, ◌≡◌, ◌≢◌, ◌↔◌, ◌⊎◌, inl, inr, refl, ◌∙◌, arith, true, Option, none, some, [], ◌∷◌,
  Text, All,
}
use gocsi.Csi.{Request, Response}
use gocsi.Csi.Reflect.{get_version, response_fields}
use gocsi.Status.{
  returned, ok, Check, pass, fail, panics, Code, Status, Error, status, status_error, internal,
  invalid_argument, Reply, no_reply, nil_pointer, reply, Outcome, returns, panicked,
}
use gocsi.Utils.Methods.{is_nil_response}
use gocsi.SpecValidator.{Opts}
use gocsi.SpecValidator.Fields.{Fits}
use gocsi.SpecValidator.Requests.Conformance.{
  Conforms, HasVersionOf, validate_request-eq-pass_iff, validate_request_version-eq-pass_iff,
}
use gocsi.SpecValidator.Responses.{validate_response}
use gocsi.SpecValidator.Responses.Conformance.{MeetsRules, validate_response-eq-pass_iff}
use gocsi.SpecValidator.Responses.Codes.{response_error_codes}
use gocsi.SpecValidator.Handle.{
  after_next, status_of, check_request, invalid_response, after_response_check, handle_return,
  handle_checked, handle,
}

-- The version of the request is supported, and the request conforms to the specification.
abbrev pub IsAccepted : Opts → Text → Request → Type 0
IsAccepted s method req =
    ((s.supported_versions ≡ []) ⊎ HasVersionOf s.supported_versions (get_version req))
    × Conforms s method req

check_request-eq-pass_iff :
    (s : Opts) (method : Text) (req : Request)
    → (check_request s method req ≡ pass) ↔ IsAccepted s method req
unfolding check_request
check_request-eq-pass_iff s method req =
    ground
      (arith, validate_request_version-eq-pass_iff s req, validate_request-eq-pass_iff s method req)

module _ (with_details : Status → Response → Option Status) where
  -- The response meets the limits and the rules, or its validation error could not carry it.
  abbrev pub IsDelivered : Opts → Text → Response → Type 0
  IsDelivered s method r =
      (All Fits (response_fields r) × MeetsRules s r)
      ⊎ ((e : Error) × (validate_response s method (reply r) ≡ fail e)
          × (with_details (status_of e) r ≡ none))

  after_response_check_success :
      (s : Opts) (rep : Reply) (c : Check) (r : Response)
      → after_response_check with_details rep c ≡ returned (reply r) none
      → (rep ≡ reply r)
        × ((c ≡ pass) ⊎ ((e : Error) × (c ≡ fail e) × (with_details (status_of e) r ≡ none)))
  unfolding after_response_check
  after_response_check_success s rep pass r h = ground arith
  after_response_check_success s rep panics r h = cc
  after_response_check_success s no_reply (fail e) r h = cc
  after_response_check_success s (nil_pointer k) (fail e) r h = cc
  after_response_check_success s (reply r') (fail e) r h =
      (ground arith, inr (e, refl, ground arith))

  delivered :
      (s : Opts) (method : Text) (rep : Reply) (r : Response)
      → (rep ≡ reply r)
        × ((validate_response s method rep ≡ pass)
            ⊎ ((e : Error) × (validate_response s method rep ≡ fail e)
                × (with_details (status_of e) r ≡ none)))
      → IsDelivered s method r
  delivered s method rep r (same, inl good) =
      inl ((validate_response-eq-pass_iff s method r).0 (rw (← same) good))
  delivered s method rep r (same, inr (e, bad, lost)) = inr (e, rw (← same) bad, lost)

  after_next_success :
      (s : Opts) (method : Text) (rep : Reply) (err : Option Error) (r : Response)
      → after_next with_details s method rep err ≡ returned (reply r) none
      → (rep ≡ reply r) × (err ≡ none) × (s.rep_validation ≡ true → IsDelivered s method r)
  unfolding after_next
  after_next_success s method rep (some e) r h = cc
  after_next_success s method rep none r h = ground (
    arith,
    after_response_check_success s rep (validate_response s method rep) r,
    delivered s method rep r,
  )

  handle_return_success :
      (s : Opts) (method : Text) (out : Outcome) (r : Response)
      → handle_return with_details s method out ≡ returned (reply r) none
      → (out ≡ returned (reply r) none) × (s.rep_validation ≡ true → IsDelivered s method r)
  unfolding handle_return
  handle_return_success s method panicked r h = cc
  handle_return_success s method (returns ret) r h =
      let (same, clean, delivered) = after_next_success s method ret.rep ret.err r h in
      (λ i. returns (record { rep = same i; err = clean i }), delivered)

  module _ {S : Type 0} (s : Opts) (method : Text) (next : S → Outcome × S) (st : S) where
    checked_refuses :
        (c : Check)
        → c ≢ pass
        → ((handle_checked with_details s method next c st).1 ≡ st)
          × ((r : Reply) → (handle_checked with_details s method next c st).0 ≢ returned r none)
    unfolding handle_checked
    checked_refuses pass h = absurd (h refl)
    checked_refuses (fail e) h = (refl, λ r k. cc)
    checked_refuses panics h = (refl, λ r k. cc)

    checked_success :
        (c : Check) (r : Response)
        → (handle_checked with_details s method next c st).0 ≡ returned (reply r) none
        → (c ≡ pass)
          × ((next st).0 ≡ returned (reply r) none)
          × (s.rep_validation ≡ true → IsDelivered s method r)
    unfolding handle_checked
    checked_success pass r h =
        let (same, delivered) = handle_return_success s method (next st).0 r h in
        (refl, same, delivered)
    checked_success (fail e) r h = cc
    checked_success panics r h = cc

    module _ (req : Request) where
      gate : Check
      gate = if s.req_validation then check_request s method req else pass

      gate-eq-pass_iff : (gate ≡ pass) ↔ (s.req_validation ≡ true → IsAccepted s method req)
      unfolding gate
      gate-eq-pass_iff = ground (arith, check_request-eq-pass_iff s method req)

      -- With request validation, a request that is not accepted never reaches the next handler: the
      -- state is unchanged, and the outcome is an error or a panic, never a reply without error.
      pub handle_refuses :
          s.req_validation ≡ true
          → ¬ IsAccepted s method req
          → ((handle with_details s method (some req) next st).1 ≡ st)
            × ((r : Reply) → (handle with_details s method (some req) next st).0 ≢ returned r none)
      unfolding handle gate
      handle_refuses on bad = checked_refuses gate (λ e. bad (gate-eq-pass_iff.0 e on))

      -- A request that is accepted, or any request without request validation, is handed on: the
      -- state is the one that the next handler leaves.
      pub handle_admits :
          (s.req_validation ≡ true → IsAccepted s method req)
          → (handle with_details s method (some req) next st).1 ≡ (next st).1
      unfolding handle gate
      handle_admits good = rw (gate-eq-pass_iff.1 good)

      -- A response without error is the response of the next handler, to an accepted request if
      -- requests are validated. If responses are validated, it keeps the size limits and the rules
      -- for its type, unless grpc could not attach it to a status.
      pub handle_success :
          (r : Response)
          → (handle with_details s method (some req) next st).0 ≡ returned (reply r) none
          → (s.req_validation ≡ true → IsAccepted s method req)
            × ((next st).0 ≡ returned (reply r) none)
            × (s.rep_validation ≡ true → IsDelivered s method r)
      unfolding handle gate
      handle_success r h =
          let (passed, same, delivered) = checked_success gate r h in
          (gate-eq-pass_iff.0 passed, same, delivered)

  after_next_delivers :
      (s : Opts) (method : Text) (r : Response)
      → (s.rep_validation ≡ true → validate_response s method (reply r) ≡ pass)
      → after_next with_details s method (reply r) none ≡ returned (reply r) none
  unfolding after_next after_response_check is_nil_response
  after_next_delivers s method r good = ground arith

  -- A response that the next handler returns without error reaches the caller, if the request is
  -- accepted where requests are validated, and the response keeps the size limits and the rules for
  -- its type where responses are validated.
  pub handle_delivers :
      {S : Type 0} (s : Opts) (method : Text) (req : Request) (next : S → Outcome × S) (st : S)
      (r : Response)
      → (s.req_validation ≡ true → IsAccepted s method req)
      → (next st).0 ≡ returned (reply r) none
      → (s.rep_validation ≡ true → All Fits (response_fields r) × MeetsRules s r)
      → handle with_details s method (some req) next st ≡ (returned (reply r) none, (next st).1)
  unfolding handle gate handle_checked handle_return
  handle_delivers s method req next st r good ran valid =
      let passed = (gate-eq-pass_iff s method next st req).1 good in
      let kept =
        after_next_delivers s method r
          (λ on. (validate_response-eq-pass_iff s method r).1 (valid on)) in
      rw passed (rw ran (λ i. (kept i, (next st).1)))
