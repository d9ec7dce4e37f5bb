-- ===== src/Logging.antt =====
-- middleware/logging/logging_interceptor.go. A writer is a function that changes a state `S`. `sprint`
-- is what fmt prints of a field's value under `%v`, and `error_text` what it prints of an error.
pub mod Laws
pub mod Effect
use gocsi.Base.{
  ℕ, ◌<◌, Bool, true, false, Option, none, some, List, [], ◌∷◌, ◌++◌, Text, text, itoa, ltb, ◌==◌,
  ◌||◌, if◌then◌else◌,
}
use gocsi.Csi.{Request, Response}
use gocsi.Csi.Reflect.{Field, string_field, map_field, other_field, request_fields, response_fields}
use gocsi.Status.{Error, Return, Reply, no_reply, nil_pointer, reply, Outcome, returns, panicked}
use gocsi.Utils.Methods.{is_nil_response}

-- `fmt.Fprintln(w, …)` by the text and the line's end, which the function adds.
abbrev pub Writer : Type 0 → Type 0
Writer S = Text → S → S

pub record Opts (S : Type 0) : Type 0 where
  pub reqw : Option (Writer S)
  pub repw : Option (Writer S)

-- `WithRequestLogging` and `WithResponseLogging`; a nil writer stands for standard output.
pub data WithOption (S : Type 0) : Type 0 where
  request_logging response_logging : Option (Writer S) → WithOption S

abbrev or_stdout : {S : Type 0} → Writer S → Option (Writer S) → Writer S
or_stdout out none = out
or_stdout out (some w) = w

unfoldable pub with_option : {S : Type 0} → Writer S → Opts S → WithOption S → Opts S
with_option out o (request_logging w) = record o { reqw = some (or_stdout out w) }
with_option out o (response_logging w) = record o { repw = some (or_stdout out w) }

-- `newLoggingInterceptor`
unfoldable pub new_logging_interceptor :
    {S : Type 0} → Writer S → Opts S → List (WithOption S) → Opts S
unfolding with_option
new_logging_interceptor out o [] = o
new_logging_interceptor out o (w ∷ ws) = new_logging_interceptor out (with_option out o w) ws

abbrev pub field_name : Field → Text
field_name (string_field name v) = name
field_name (map_field name v) = name
field_name (other_field name v) = name

-- `emptyValRX`
is_empty_value : Text → Bool
is_empty_value s = s == [] || (s == text "[]" || (s == text "<nil>" || s == text "map[]"))

-- `%04d`
pad4 : ℕ → Text
pad4 n =
    if ltb n 10
    then text "000" ++ itoa n
    else if ltb n 100
    then text "00" ++ itoa n
    else if ltb n 1000
    then text "0" ++ itoa n
    else itoa n

-- "NAME: REQ 0001", or without the request's ID.
id_text : Text → Text → Option ℕ → Text
unfolding pad4
id_text method kind none = method ++ text ": "
id_text method kind (some id) = method ++ (text ": " ++ (kind ++ (text " " ++ pad4 id)))

module _ {S : Type 0} where
  write : Option (Writer S) → Text → S → S
  write none line st = st
  write (some w) line st = w line st

  -- Without a writer for responses no line is printed.
  write_response : Option (Writer S) → Option Text → Return → S → Outcome × S
  write_response none line r st = (returns r, st)
  write_response (some w) none r st = (panicked, st)
  write_response (some w) (some line) r st = (returns r, w line st)

module _ (sprint : Field → Text) where
  -- The loop of `rprintReqOrRep`; `printed` is `printedColon` and `printComma`, which are set
  -- together.
  unfoldable pub print_fields : Bool → List Field → Text
  unfolding is_empty_value
  print_fields printed [] = []
  print_fields printed (f ∷ fs) =
      let skipped = print_fields printed fs in
      let rest = print_fields true fs in
      let sv = sprint f in
      if field_name f == text "UserCredentials"
      then skipped
      else if is_empty_value sv
      then skipped
      else (if printed then text ", " else text ": ")
        ++ (field_name f ++ (text "=" ++ (sv ++ rest)))

  -- `rprintReqOrRep`
  unfoldable pub rprint : List Field → Text
  unfolding print_fields
  rprint fs = print_fields false fs

  -- The lines for a request and for a response.
  unfoldable pub request_line : Text → Option ℕ → Request → Text
  unfolding id_text rprint
  request_line method id req = id_text method (text "REQ") id ++ rprint (request_fields req)

  module _ (error_text : Error → Text) where
    failed_text : Option Error → Text
    failed_text none = []
    failed_text (some e) = text ": " ++ error_text e

    -- The data of a reply that is not nil; `none` where reflection on a nil pointer panics.
    reply_text : Bool → Reply → Option Text
    unfolding rprint
    reply_text true rep = some []
    reply_text false no_reply = none
    reply_text false (nil_pointer kind) = none
    reply_text false (reply r) = some (rprint (response_fields r))

    unfoldable pub response_line : Text → Option ℕ → Return → Option Text
    unfolding id_text failed_text reply_text
    response_line method id r = elim (reply_text (is_nil_response method r.rep) r.rep) [
      | none ↦ none
      | some t ↦ some (id_text method (text "REP") id ++ (failed_text r.err ++ t))
    ]

    module _ {S : Type 0} where
      -- What follows the call of `next`.
      after_next : Opts S → Text → Option ℕ → Outcome → S → Outcome × S
      unfolding write_response response_line
      after_next o method id panicked st = (panicked, st)
      after_next o method id (returns r) st = write_response o.repw (response_line method id r) r st

      -- `handle`, with the request's ID in the context.
      unfoldable pub handle :
          Opts S → Text → Option ℕ → Option Request → (S → Outcome × S) → S → Outcome × S
      unfolding request_line write after_next
      handle o method id none next st = next st
      handle o method id (some req) next st =
          let (out, st') = next (write o.reqw (request_line method id req) st) in
          after_next o method id out st'
