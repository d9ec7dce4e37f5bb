-- ===== src/Logging/Laws.antt =====
-- What the logging interceptor writes, and that it changes nothing else.
use gocsi.Base.{
  ℕ, ◌≡◌, refl, sym, ap, ◌∙◌, Bool, true, false, Option, none, some, List, [], ◌∷◌, ◌++◌, Text,
  text, ◌==◌,
}
use mathlib.Core.List.{append_assoc, append-nil}
use gocsi.Csi.{Request}
use gocsi.Csi.Reflect.{Field, request_fields}
use gocsi.Status.{Error, Return, Outcome, returns, panicked}
use gocsi.Logging.{
  id_text, Writer, Opts, print_fields, rprint, request_line, response_line, write, write_response,
  after_next, handle,
}

-- The request without its credentials.
abbrev pub forget_credentials : Request → Request
forget_credentials (Request.create_volume r) =
    Request.create_volume (record r { user_credentials = none })
forget_credentials (Request.delete_volume r) =
    Request.delete_volume (record r { user_credentials = none })
forget_credentials (Request.controller_publish_volume r) =
    Request.controller_publish_volume (record r { user_credentials = none })
forget_credentials (Request.controller_unpublish_volume r) =
    Request.controller_unpublish_volume (record r { user_credentials = none })
forget_credentials (Request.node_publish_volume r) =
    Request.node_publish_volume (record r { user_credentials = none })
forget_credentials (Request.node_unpublish_volume r) =
    Request.node_unpublish_volume (record r { user_credentials = none })
forget_credentials r = r

module _ (sprint : Field → Text) where
  rprint-forget_credentials :
      (req : Request)
      → rprint sprint (request_fields (forget_credentials req)) ≡ rprint sprint (request_fields req)
  unfolding rprint print_fields request_fields ◌==◌ text
  rprint-forget_credentials (Request.create_volume r) = refl
  rprint-forget_credentials (Request.delete_volume r) = refl
  rprint-forget_credentials (Request.controller_publish_volume r) = refl
  rprint-forget_credentials (Request.controller_unpublish_volume r) = refl
  rprint-forget_credentials (Request.node_publish_volume r) = refl
  rprint-forget_credentials (Request.node_unpublish_volume r) = refl
  rprint-forget_credentials _ = refl

  -- Two requests that differ only in their user credentials have the same line in the log.
  pub request_line-forget_credentials :
      (method : Text) (id : Option ℕ) (a b : Request)
      → forget_credentials a ≡ forget_credentials b
      → request_line sprint method id a ≡ request_line sprint method id b
  unfolding request_line
  request_line-forget_credentials method id a b same =
      let printed =
        sym (rprint-forget_credentials a)
        ∙ ap (λ (r : Request). rprint sprint (request_fields r)) same
        ∙ rprint-forget_credentials b in
      ap (λ (t : Text). id_text method (text "REQ") id ++ t) printed

-- A log, and the state of the next handler.
pub record Logged (T : Type 0) : Type 0 where
  pub log : List Text
  pub inner : T

module _ {T : Type 0} where
  abbrev pub append_line : Writer (Logged T)
  append_line line g = record g { log = g.log ++ line ∷ [] }

  abbrev writer_if : Bool → Option (Writer (Logged T))
  writer_if true = some append_line
  writer_if false = none

  abbrev pub log_opts : Bool → Bool → Opts (Logged T)
  log_opts req rep = record { reqw = writer_if req; repw = writer_if rep }

  -- A handler that knows nothing of the log.
  abbrev pub unlogged : (T → Outcome × T) → Logged T → Outcome × Logged T
  unlogged h g = let (out, t) = h g.inner in (out, record g { inner = t })

abbrev to_list : Option Text → List Text
to_list none = []
to_list (some line) = line ∷ []

abbrev or_panic : Option Text → Return → Outcome
or_panic none r = panicked
or_panic (some line) r = returns r

abbrev pub lines_if : Bool → List Text → List Text
lines_if true lines = lines
lines_if false lines = []

-- The lines for what a call did.
module _ (sprint : Field → Text) (error_text : Error → Text) (method : Text) (id : Option ℕ) where
  abbrev pub line_of : Return → Option Text
  line_of r = response_line sprint error_text method id r

  abbrev pub response_lines : Outcome → List Text
  response_lines panicked = []
  response_lines (returns r) = to_list (line_of r)

  -- A reply whose line cannot be printed panics.
  abbrev pub printed : Outcome → Outcome
  printed panicked = panicked
  printed (returns r) = or_panic (line_of r) r

  abbrev pub outcome_if : Bool → Outcome → Outcome
  outcome_if true out = printed out
  outcome_if false out = out

  module _ {T : Type 0} where
    relogged : (g : Logged T) → g ≡ record g { log = g.log ++ [] }
    relogged g = λ i. record g { log = sym (append-nil g.log) i }

    write_response_logs :
        (line : Option Text) (r : Return) (g : Logged T)
        → write_response (some append_line) line r g
          ≡ (or_panic line r, record g { log = g.log ++ to_list line })
    unfolding write_response
    write_response_logs none r g = λ i. (panicked, relogged g i)
    write_response_logs (some line) r g = refl

    after_next_logs :
        (rep : Bool) (req : Bool) (out : Outcome) (g : Logged T)
        → after_next sprint error_text (log_opts req rep) method id out g
          ≡ (outcome_if rep out, record g { log = g.log ++ lines_if rep (response_lines out) })
    unfolding after_next
    after_next_logs true req panicked g = λ i. (panicked, relogged g i)
    after_next_logs false req panicked g = λ i. (panicked, relogged g i)
    after_next_logs false req (returns r) g = λ i. (returns r, relogged g i)
    after_next_logs true req (returns r) g = write_response_logs (line_of r) r g

    write_logs :
        (req rep : Bool) (line : Text) (g : Logged T)
        → write (log_opts req rep).reqw line g
          ≡ record g { log = g.log ++ lines_if req (line ∷ []) }
    unfolding write
    write_logs true rep line g = refl
    write_logs false rep line g = relogged g

    -- The interceptor calls the next handler once, on the state that it would get without it, and
    -- hands on its outcome, unless responses are logged and the reply is a nil pointer of a type
    -- that is not the method's, which panics. The log grows by the line of the request and by that
    -- of what is returned, each if it is enabled, and of a panic there is none.
    pub handle_logs :
        (req rep : Bool) (r : Request) (next : T → Outcome × T) (g : Logged T)
        → let out = (next g.inner).0 in
          handle sprint error_text (log_opts req rep) method id (some r) (unlogged next) g ≡ (
            outcome_if rep out,
            record {
              log =
                  g.log
                  ++ (lines_if req (request_line sprint method id r ∷ [])
                      ++ lines_if rep (response_lines out));
              inner = (next g.inner).1;
            },
          )
    unfolding handle
    handle_logs req rep r next g = rw (write_logs req rep (request_line sprint method id r) g) (
        after_next_logs rep req (next g.inner).0 _ ∙ (λ i. (
          outcome_if rep (next g.inner).0,
          record {
            log =
                append_assoc g.log (lines_if req (request_line sprint method id r ∷ []))
                  (lines_if rep (response_lines (next g.inner).0)) i;
            inner = (next g.inner).1;
          },
        )))
