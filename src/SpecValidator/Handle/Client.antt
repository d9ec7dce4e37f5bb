-- ===== src/SpecValidator/Handle/Client.antt =====
-- A validator of the client that is asked for no validation.
use gocsi.Base.{◌≡◌, refl, ap, arith, false, Option, none, some, Text}
use gocsi.Csi.{Request, Response}
use gocsi.Status.{pass, Status, Error, Outcome, Reply, returns, panicked}
use gocsi.SpecValidator.{Opts}
use gocsi.SpecValidator.Handle.{
  error_only, after_next, handle_return, handle_checked, handle, handle_client,
}

module _ (with_details : Status → Response → Option Status) (s : Opts) (method : Text)
    (off : s.rep_validation ≡ false) where
  error_only-after_next :
      (rep : Reply) → error_only (after_next with_details s method rep none) ≡ pass
  unfolding after_next
  error_only-after_next rep = simp off (ground arith)

  error_only-returns :
      (rep : Reply) (e : Option Error)
      → error_only (after_next with_details s method rep e)
        ≡ error_only (returns (record { rep = rep; err = e }))
  unfolding after_next
  error_only-returns rep none = error_only-after_next rep
  error_only-returns rep (some e) = refl

  error_only-handle_return :
      (out : Outcome) → error_only (handle_return with_details s method out) ≡ error_only out
  unfolding handle_return
  error_only-handle_return panicked = refl
  error_only-handle_return (returns r) = error_only-returns r.rep r.err

  -- The client's call is the invoker's.
  pub handle_client_off :
      {S : Type 0} (req : Request) (next : S → Outcome × S) (st : S)
      → s.req_validation ≡ false
      → handle_client with_details s method (some req) next st
        ≡ (error_only (next st).0, (next st).1)
  unfolding handle_client handle handle_checked
  handle_client_off req next st h =
      simp h (ap (λ c. (c, (next st).1)) (error_only-handle_return (next st).0))
