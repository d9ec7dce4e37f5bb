-- ===== src/SpecValidator/Handle/Laws/Invalid.antt =====
-- What the caller gets for a response that is not valid.
use gocsi.Base.{
  ◌≡◌, ◌≢◌, ◌⊎◌, inl, inr, refl, ap, sym, ◌∙◌, ◌++◌, arith, true, Option-cases, Option, none, some,
  [], ◌∷◌, Text,
}
use mathlib.Core.Path.{subst}
use gocsi.Csi.{Request, Response}
use gocsi.Status.{
  returned, ok, fail, Code, Status, Error, status, status_error, internal, invalid_argument,
  no_reply, reply, Outcome,
}
use gocsi.Utils.Methods.{is_nil_response}
use gocsi.SpecValidator.{Opts}
use gocsi.SpecValidator.Responses.{validate_response}
use gocsi.SpecValidator.Responses.Codes.{response_error_codes}
use gocsi.SpecValidator.Handle.{
  after_next, status_of, invalid_response, after_response_check, handle_return, handle,
}
use gocsi.SpecValidator.Handle.Laws.{IsAccepted, gate, gate-eq-pass_iff}

module _ (with_details : Status → Response → Option Status) where
  -- Where `WithDetails` returns a status, it is the status it was called on, with the message behind
  -- its details. It may return an error instead, if it cannot encode the message.
  abbrev pub Appends : Type 0
  Appends =
      (st st' : Status) (d : Response)
      → st.code ≢ ok
      → with_details st d ≡ some st'
      → st' ≡ record { code = st.code; message = st.message; details = st.details ++ d ∷ [] }

  -- The outcome for an invalid response `r` with the validation error of this code and this message:
  -- the response itself where it cannot be attached, and else the error with the response.
  abbrev pub IsReported : Response → Code → Text → Outcome → Type 0
  IsReported r c m o =
      ((with_details (record { code = c; message = m; details = [] }) r ≡ none)
        × (o ≡ returned (reply r) none))
      ⊎ ((with_details (record { code = c; message = m; details = [] }) r ≢ none)
          × (o
              ≡ returned no_reply
                  (some (status (record { code = c; message = m; details = r ∷ [] })))))

  invalid_response-IsReported :
      Appends
      → (r : Response) (c : Code) (m : Text) → c ≢ ok
      → let e = status_error c m in
        IsReported r c m (invalid_response with_details e r (with_details (status_of e) r))
  unfolding invalid_response
  invalid_response-IsReported appends r c m h =
      elim (Option-cases (with_details (record { code = c; message = m; details = [] }) r)) [
        | inl lost ↦ inl (lost, rw lost refl)
        | inr (st, kept) ↦
            let same = appends (record { code = c; message = m; details = [] }) st r h kept in
            inr
              (λ lost. cc, rw kept (ap (λ (x : Status). returned no_reply (some (status x))) same))
      ]

  after_next_invalid :
      (s : Opts) (method : Text) (r : Response) (e : Error)
      → s.rep_validation ≡ true
      → validate_response s method (reply r) ≡ fail e
      → after_next with_details s method (reply r) none
        ≡ invalid_response with_details e r (with_details (status_of e) r)
  unfolding after_next after_response_check is_nil_response
  after_next_invalid s method r e on bad = ground arith

  handle-invalid_response :
      {S : Type 0} (s : Opts) (method : Text) (req : Request) (next : S → Outcome × S) (st : S)
      (r : Response) (e : Error)
      → s.rep_validation ≡ true
      → (s.req_validation ≡ true → IsAccepted s method req)
      → (next st).0 ≡ returned (reply r) none
      → validate_response s method (reply r) ≡ fail e
      → (handle with_details s method (some req) next st).0
        ≡ invalid_response with_details e r (with_details (status_of e) r)
  unfolding handle gate handle_return
  handle-invalid_response s method req next st r e on good ran bad =
      let passed = (gate-eq-pass_iff with_details s method next st req).1 good in
      rw passed (rw ran (after_next_invalid s method r e on bad))

  reported :
      Appends
      → (r : Response) (e : Error) (o : Outcome) (c : Code) (m : Text) → c ≢ ok
      → e ≡ status_error c m
      → o ≡ invalid_response with_details e r (with_details (status_of e) r)
      → IsReported r c m o
  reported appends r e o c m h same out =
      subst (IsReported r c m)
        (sym
          (out ∙ ap (λ x. invalid_response with_details x r (with_details (status_of x) r)) same))
        (invalid_response-IsReported appends r c m h)

  -- With response validation: if the next handler returns, for an accepted request, a response whose
  -- check fails, then the failure has a code, InvalidArgument or Internal, and a message; the caller
  -- gets an error with both and with the response in its details, if grpc can attach the response to
  -- them, and gets the invalid response without an error if it cannot.
  pub handle_invalid_response :
      Appends
      → {S : Type 0} (s : Opts) (method : Text) (req : Request) (next : S → Outcome × S) (st : S)
        (r : Response) (e : Error)
      → s.rep_validation ≡ true
      → (s.req_validation ≡ true → IsAccepted s method req)
      → (next st).0 ≡ returned (reply r) none
      → validate_response s method (reply r) ≡ fail e
      → (c : Code) × (m : Text) × (e ≡ status_error c m)
        × ((c ≡ invalid_argument) ⊎ (c ≡ internal))
        × IsReported r c m (handle with_details s method (some req) next st).0
  handle_invalid_response appends s method req next st r e on good ran bad =
      let out = handle-invalid_response s method req next st r e on good ran bad in
      elim (response_error_codes s method r e bad) [
        | inl (m, _, same) ↦ (
          invalid_argument,
          m,
          same,
          inl refl,
          reported appends r e _ invalid_argument m (cc) same out,
        )
        | inr (m, same) ↦
            (internal, m, same, inr refl, reported appends r e _ internal m (cc) same out)
      ]
