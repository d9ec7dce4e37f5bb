-- ===== src/Status.antt =====
-- gRPC codes and statuses, Go's `error`, and checks that return early (google.golang.org/grpc).
use gocsi.Base.{none, some, Bool, true, false, Option, List, [], Text}
use gocsi.Csi.{Response}

pub data Code : Type 0 where
  ok canceled unknown invalid_argument deadline_exceeded not_found already_exists : Code
  permission_denied resource_exhausted failed_precondition aborted out_of_range : Code
  unimplemented internal unavailable data_loss unauthenticated : Code

pub Code-discrete : Discrete Code
Code-discrete = hlevel

-- The details of a status are the messages that `WithDetails` added.
pub record Status : Type 0 where
  pub code : Code
  pub message : Text
  pub details : List Response

-- An `error` that is not nil: an RPC status, or another error by its text.
pub data Error : Type 0 where
  status : Status → Error
  plain : Text → Error

-- What a function with a result of type `(T, error)` returns.
pub data Attempt {ℓ} (T : Type ℓ) : Type ℓ where
  failed : Error → Attempt T
  got : T → Attempt T

-- `if err != nil { return …, err }`
infixl 6 ◌>>=◌
abbrev pub ◌>>=◌ {ℓ ℓ'} : {T : Type ℓ} {U : Type ℓ'} → Attempt T → (T → Attempt U) → Attempt U
failed e >>= next = failed e
got t >>= next = next t

-- `status.Error(code, message)`
abbrev pub status_error : Code → Text → Error
status_error c m = status (record { code = c; message = m; details = [] })

-- What a function with an `error` result does: return nil, return an error, or panic.
pub data Check : Type 0 where
  pass : Check
  fail : Error → Check
  panics : Check

-- `if err := c; err != nil { return err }` and then the rest.
infixl 5 ◌>>◌
abbrev pub ◌>>◌ : Check → Check → Check
pass >> rest = rest
fail e >> rest = fail e
panics >> rest = panics

-- `if b { return status.Error(c, m) }`
abbrev pub fail_if : Bool → Code → Text → Check
fail_if true c m = fail (status_error c m)
fail_if false c m = pass

-- `(interface{}, error)`: a reply may be nil, a nil pointer of a response type, or a response.
-- The kinds of RPC stand for the types of their responses.
pub data Rpc : Type 0 where
  create_volume delete_volume controller_publish_volume controller_unpublish_volume : Rpc
  validate_volume_capabilities list_volumes get_capacity controller_get_capabilities : Rpc
  controller_probe get_supported_versions get_plugin_info get_node_id : Rpc
  node_publish_volume node_unpublish_volume node_probe node_get_capabilities : Rpc

pub Rpc-discrete : Discrete Rpc
Rpc-discrete = hlevel

pub data Reply : Type 0 where
  no_reply : Reply
  nil_pointer : Rpc → Reply
  reply : Response → Reply

pub record Return : Type 0 where
  pub rep : Reply
  pub err : Option Error

-- A call that returns, or panics.
pub data Outcome : Type 0 where
  returns : Return → Outcome
  panicked : Outcome

abbrev pub returned : Reply → Option Error → Outcome
returned rep err = returns (record { rep = rep; err = err })

-- `return &rep, nil` and `return nil, status.Error(c, m)`
abbrev pub replies : Response → Outcome
replies r = returned (reply r) none

abbrev pub refuses : Code → Text → Outcome
refuses c m = returned no_reply (some (status_error c m))
