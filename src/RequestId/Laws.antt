-- ===== src/RequestId/Laws.antt =====
-- Which request ID a handler finds in its context.
use gocsi.Base.{
  ℕ, ◌+◌, ◌<◌, ◌^◌, ◌≡◌, refl, ap, ◌∙◌, arith, Option, none, some, List, [], ◌∷◌, Text, itoa,
  parse_uint, parse_uint-itoa, lookup, insert, lookup-insert, ==_refl, true, false,
}
use gocsi.Context.{Metadata, request_id_key, Context, get_request_id, parse_id, id_values}
use gocsi.RequestId.{
  Found, add_uint64, ensure_id, parsed_id, metadata_of, prepare_server, prepare_client,
}

lookup_new :
    (s : Text) (md : Metadata)
    → lookup request_id_key (insert request_id_key (s ∷ []) md) ≡ some (s ∷ [])
lookup_new s md =
    lookup-insert request_id_key request_id_key (s ∷ []) md ∙ rw (==_refl request_id_key) refl

-- The values of the request ID that come with a context.
abbrev pub values : Option Metadata → Option (List Text)
values md = lookup request_id_key (metadata_of md)

-- The ID that a handler should see behind a counter `n`: the one that came, if it is one number.
abbrev pub seen : Option (List Text) → ℕ → Option ℕ
seen none n = some (n + 1)
seen (some []) n = some (n + 1)
seen (some (s ∷ [])) n = parse_uint 64 s
seen (some (s ∷ t ∷ ss)) n = some (n + 1)

abbrev pub counter_after : Option ℕ → ℕ → ℕ
counter_after none n = n + 1
counter_after (some id) n = id

-- What is to be shown of the metadata that `ensure_id` leaves.
record Ensured (md : Metadata) (n : ℕ) (vs : Option (List Text)) (f : Found) : Type 0 where
  single : lookup request_id_key f.md ≡ some (f.sz_id ∷ [])
  parsed : parse_uint 64 f.sz_id ≡ seen vs n
  counted : parsed_id f.store_id (parse_uint 64 f.sz_id) f.id ≡ counter_after (seen vs n) n

module _ (md : Metadata) (n : ℕ) (h : n + 1 < 2 ^ 64) where
  next : add_uint64 n ≡ n + 1
  unfolding add_uint64
  next = omega arith

  fresh : parse_uint 64 (itoa (add_uint64 n)) ≡ some (n + 1)
  fresh = rw next (parse_uint-itoa 64 (n + 1) h)

  fresh_counted : parsed_id false (parse_uint 64 (itoa (add_uint64 n))) (add_uint64 n) ≡ n + 1
  unfolding parsed_id
  fresh_counted = rw fresh next

  kept_counted : (o : Option ℕ) → parsed_id true o n ≡ counter_after o n
  unfolding parsed_id
  kept_counted none = next
  kept_counted (some id) = refl

  ensure_id-Ensured :
      (vs : Option (List Text))
      → lookup request_id_key md ≡ vs
      → Ensured md n vs (ensure_id md n vs)
  unfolding ensure_id
  ensure_id-Ensured none e = record {
    single = lookup_new _ md;
    parsed = fresh;
    counted = fresh_counted;
  }
  ensure_id-Ensured (some []) e = record {
    single = lookup_new _ md;
    parsed = fresh;
    counted = fresh_counted;
  }
  ensure_id-Ensured (some (s ∷ [])) e = record {
    single = e;
    parsed = refl;
    counted = kept_counted (parse_uint 64 s);
  }
  ensure_id-Ensured (some (s ∷ t ∷ ss)) e = record {
    single = lookup_new _ md;
    parsed = fresh;
    counted = fresh_counted;
  }

module _ {E : Type 0} (ctx : Context E) (n : ℕ) (h : n + 1 < 2 ^ 64) where
  -- The handler on the server sees exactly one request ID: the one that came with the request, if
  -- there was exactly one, and else the next number of the counter, which does not wrap around. The
  -- counter is then that number, or the next one if the ID that came is no 64-bit number.
  pub prepare_server-seen :
      ((s : Text) × (values (prepare_server ctx n).0.incoming ≡ some (s ∷ [])))
      × (get_request_id (prepare_server ctx n).0 ≡ seen (values ctx.incoming) n)
      × ((prepare_server ctx n).1 ≡ counter_after (seen (values ctx.incoming) n) n)
  unfolding prepare_server get_request_id parse_id id_values
  prepare_server-seen =
      let e = ensure_id-Ensured (metadata_of ctx.incoming) n h (values ctx.incoming) refl in
      ((_, e.single), rw e.single e.parsed, e.counted)

module _ {E : Type 0} where
  client_value :
      (ctx : Context E) (n : ℕ)
      → n + 1 < 2 ^ 64
      → (s : Text) × (values (prepare_client ctx n).0.outgoing ≡ some (s ∷ []))
        × (parse_uint 64 s ≡ seen (values ctx.outgoing) n)
  unfolding prepare_client
  client_value ctx n h =
      let e = ensure_id-Ensured (metadata_of ctx.outgoing) n h (values ctx.outgoing) refl in
      (_, e.single, e.parsed)

  -- What the server reads, of the metadata that a client's interceptor sends, is the request ID that
  -- the client's context had, if that was exactly one, and else the next number of the client's
  -- counter. The counters of both do not wrap around.
  pub prepare_client-prepare_server :
      (client server : Context E) (n m : ℕ)
      → n + 1 < 2 ^ 64
      → m + 1 < 2 ^ 64
      → server.incoming ≡ (prepare_client client n).0.outgoing
      → get_request_id (prepare_server server m).0 ≡ seen (values client.outgoing) n
  prepare_client-prepare_server client server n m hn hm sent =
      let (s, single, parsed) = client_value client n hn in
      let arrives : values server.incoming ≡ some (s ∷ []) = ap values sent ∙ single in
      (prepare_server-seen server m hm).1 ∙ rw arrives parsed

  -- The generated IDs need not be unique: after a request that came with the ID n, where the counter
  -- stood at n + 1, the next request without an ID gets n + 1 again.
  pub prepare_server_repeats :
      (first second third : Context E) (n : ℕ)
      → n + 2 < 2 ^ 64
      → values first.incoming ≡ none
      → values second.incoming ≡ some (itoa n ∷ [])
      → values third.incoming ≡ none
      → let one = prepare_server first n in
        let two = prepare_server second one.1 in
        let three = prepare_server third two.1 in
        (get_request_id one.0 ≡ some (n + 1)) × (get_request_id three.0 ≡ some (n + 1))
  prepare_server_repeats first second third n h e f g =
      let one = prepare_server-seen first n (omega arith) in
      let up : (prepare_server first n).1 ≡ n + 1 = one.2 ∙ rw e refl in
      let two = prepare_server-seen second (n + 1) (omega arith) in
      let read = parse_uint-itoa 64 n (omega arith) in
      let down : (prepare_server second (n + 1)).1 ≡ n = two.2 ∙ rw f (rw read refl) in
      let three = prepare_server-seen third n (omega arith) in
      (one.1 ∙ rw e refl, rw up (rw down (three.1 ∙ rw g refl)))
