-- ===== src/RequestId.antt =====
-- middleware/requestid/request_id_injector.go: every RPC gets a request ID. The interceptor's field
-- `id` is a cell of the state `S`. The metadata that grpc gives out of a context are the map in the
-- context, not a copy, so that a write to them is read there by the handler.
pub mod Laws
use gocsi.Base.{
  ℕ, ◌+◌, ◌%◌, ◌^◌, Bool, true, false, Option, none, some, List, [], ◌∷◌, Text, itoa, parse_uint,
  lookup, insert, if◌then◌else◌, Cell,
}
use gocsi.Context.{Metadata, request_id_key, Context}
use gocsi.Utils.Chain.{Handler, Invoker}

-- `atomic.AddUint64(&s.id, 1)`
unfoldable pub add_uint64 : ℕ → ℕ
add_uint64 n = (n + 1) % 2 ^ 64

-- The metadata, the text of the ID in them, whether it came with the request, and the counter.
pub record Found : Type 0 where
  pub md : Metadata
  pub sz_id : Text
  pub store_id : Bool
  pub id : ℕ

abbrev new_id : Metadata → ℕ → Found
new_id md n = record {
  md = insert request_id_key (itoa (add_uint64 n) ∷ []) md;
  sz_id = itoa (add_uint64 n);
  store_id = false;
  id = add_uint64 n;
}

-- The ID in the metadata, or a new one if there is none or more than one.
pub ensure_id : Metadata → ℕ → Option (List Text) → Found
unfolding add_uint64
ensure_id md n none = new_id md n
ensure_id md n (some []) = new_id md n
ensure_id md n (some (s ∷ [])) = record { md = md; sz_id = s; store_id = true; id = n }
ensure_id md n (some (s ∷ t ∷ ss)) = new_id md n

-- The counter, once the ID is parsed.
pub parsed_id : Bool → Option ℕ → ℕ → ℕ
unfolding add_uint64
parsed_id store_id none n = add_uint64 n
parsed_id store_id (some id) n = if store_id then id else n

abbrev pub metadata_of : Option Metadata → Metadata
metadata_of none = []
metadata_of (some md) = md

module _ {E : Type 0} where
  -- What `handleServer` does before it calls the handler: to the context, and to the counter.
  unfoldable pub prepare_server : Context E → ℕ → Context E × ℕ
  unfolding ensure_id parsed_id
  prepare_server ctx n =
      let md = metadata_of ctx.incoming in
      let found = ensure_id md n (lookup request_id_key md) in
      (
        record ctx { incoming = some found.md },
        parsed_id found.store_id (parse_uint 64 found.sz_id) found.id,
      )

  -- What `handleClient` does before it calls the invoker. An ID that is there is not parsed.
  unfoldable pub prepare_client : Context E → ℕ → Context E × ℕ
  unfolding ensure_id
  prepare_client ctx n =
      let md = metadata_of ctx.outgoing in
      let found = ensure_id md n (lookup request_id_key md) in
      (record ctx { outgoing = some found.md }, found.id)

  module _ {S R : Type 0} (id : Cell S ℕ) where
    unfoldable pub handle_server {κ} :
        {Req : Type κ} → Context E → Req → (Context E → Req → S → R) → S → R
    unfolding prepare_server
    handle_server ctx req handler st =
        let (ctx', n) = prepare_server ctx (id.load st) in handler ctx' req (id.store n st)

    unfoldable pub handle_client {κ} :
        {Call : Type κ} → Context E → Call → (Context E → Call → S → R) → S → R
    unfolding prepare_client
    handle_client ctx call invoker st =
        let (ctx', n) = prepare_client ctx (id.load st) in invoker ctx' call (id.store n st)
