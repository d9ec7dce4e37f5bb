-- ===== src/Logging/Effect.antt =====
-- The logging interceptor around a handler whose state is a part of a larger one.
use gocsi.Base.{◌≡◌, ◌⊎◌, inl, inr, refl, ℕ, Option, none, some, Text}
use gocsi.Csi.{Request, Response}
use gocsi.Utils.Methods.{is_nil_response}
use gocsi.Csi.Reflect.{Field}
use gocsi.Status.{Error, Return, Outcome, returns, panicked, replies}
use gocsi.Logging.{
  Writer, Opts, request_line, response_line, write, write_response, after_next, handle, reply_text,
}

module _ {S T : Type 0} (inner : S → T) where
  -- The writer leaves the part alone.
  abbrev pub Spares : Option (Writer S) → Type 0
  Spares none = Unit
  Spares (some w) = (line : Text) (st : S) → inner (w line st) ≡ inner st

  inner-write :
      (w : Option (Writer S)) (line : Text) (st : S) → Spares w → inner (write w line st) ≡ inner st
  unfolding write
  inner-write none line st h = refl
  inner-write (some w) line st h = h line st

  inner-write_response :
      (w : Option (Writer S)) (line : Option Text) (r : Return) (st : S)
      → Spares w
      → inner (write_response w line r st).1 ≡ inner st
  unfolding write_response
  inner-write_response none line r st h = refl
  inner-write_response (some w) none r st h = refl
  inner-write_response (some w) (some line) r st h = h line st

write_response_outcome :
    {S : Type 0} (w : Option (Writer S)) (line : Option Text) (r : Return) (st : S)
    → ((write_response w line r st).0 ≡ returns r) ⊎ ((write_response w line r st).0 ≡ panicked)
unfolding write_response
write_response_outcome none line r st = inl refl
write_response_outcome (some w) none r st = inr refl
write_response_outcome (some w) (some line) r st = inl refl

module _ (sprint : Field → Text) (error_text : Error → Text) {S : Type 0} (o : Opts S)
    (method : Text) (id : Option ℕ) where
  inner-after_next :
      {T : Type 0} (inner : S → T) (out : Outcome) (st : S)
      → Spares inner o.repw
      → inner (after_next sprint error_text o method id out st).1 ≡ inner st
  unfolding after_next
  inner-after_next inner panicked st h = refl
  inner-after_next inner (returns r) st h = inner-write_response inner o.repw _ r st h

  after_next_outcome :
      (out : Outcome) (st : S)
      → ((after_next sprint error_text o method id out st).0 ≡ out)
        ⊎ ((after_next sprint error_text o method id out st).0 ≡ panicked)
  unfolding after_next
  after_next_outcome panicked st = inl refl
  after_next_outcome (returns r) st = write_response_outcome o.repw _ r st

  -- The handler runs on a state with the same part, its part is the one that is left, and its
  -- outcome is handed on, or else a panic.
  pub handle_effect :
      {T : Type 0} (inner : S → T) (req : Request) (next : S → Outcome × S) (st : S)
      → Spares inner o.reqw
      → Spares inner o.repw
      → (st' : S) × (inner st' ≡ inner st)
        × (inner (handle sprint error_text o method id (some req) next st).1 ≡ inner (next st').1)
        × (((handle sprint error_text o method id (some req) next st).0 ≡ (next st').0)
            ⊎ ((handle sprint error_text o method id (some req) next st).0 ≡ panicked))
  unfolding handle
  handle_effect inner req next st hq hp = (
    write o.reqw (request_line sprint method id req) st,
    inner-write inner o.reqw _ st hq,
    inner-after_next inner _ _ hp,
    after_next_outcome _ _,
  )

  write_response_line :
      (w : Option (Writer S)) (line : Text) (r : Return) (st : S)
      → (write_response w (some line) r st).0 ≡ returns r
  unfolding write_response
  write_response_line none line r st = refl
  write_response_line (some w) line r st = refl

  -- Around a handler that replies with a response, the reply is handed on.
  pub handle-replies :
      (req : Request) (next : S → Outcome × S) (st : S) (r : Response)
      → ((st' : S) → (next st').0 ≡ replies r)
      → (handle sprint error_text o method id (some req) next st).0 ≡ replies r
  unfolding handle after_next response_line reply_text is_nil_response
  handle-replies req next st r h =
      rw (h (write o.reqw (request_line sprint method id req) st))
        (write_response_line o.repw _ _ _)
