-- ===== src/Mock/Listing/Pages.antt =====
-- `PageVolumes` over the `ListVolumes` of the mock service, called without a network in between.
use mathlib.Core.Option
use mathlib.Core.List.{flatten, Permᴰ, map-append}
use gocsi.Base.{
  ℕ, zero, suc, ◌+◌, ◌-◌, ◌%◌, ◌^◌, ◌<◌, ◌≤◌, ◌≡◌, inl, inr, refl, ap, sym, ◌∙◌, arith, false,
  Bool-cases, Option, none, some, List, [], ◌∷◌, ◌++◌, map, ltb, length, take, drop, itoa,
  parse_uint, parse_uint-itoa, is_empty-itoa, itoa-cons, drop-get_elem?, take-append-drop,
  drop-drop, drop_all, if◌then◌else◌,
}
use gocsi.Csi.{VolumeInfo, ListVolumesRequest, ListVolumesResponse, Response}
use gocsi.Status.{Error, plain, Outcome, returns, panicked, replies, Reply, reply}
use gocsi.Utils.Paging.{
  Entry, Listed, listed, failed, Paging, page_volumes, add_page, Sent, Sent-perm,
}
use gocsi.Mock.Service.{Service}
use mathlib.Core.Path.{ap₂}
use gocsi.Mock.Listing.{
  add_entry, starting_token, fill_entries, page_size, list_from, list_at, list_volumes,
}

-- A volume as an entry of a response.
abbrev pub entry : VolumeInfo → Entry
entry v = some (some v)

fill_entries_lem :
    (vols : List VolumeInfo) (n j : ℕ)
    → j + n ≤ length vols
    → fill_entries vols j n ≡ some (map entry (take n (drop j vols)))
unfolding fill_entries
fill_entries_lem vols zero j h = refl
fill_entries_lem vols (suc n) j h =
    let (v, here, rest) = drop-get_elem? vols j (omega arith) in
    let next : j + 1 ≡ suc j = omega arith in
    let ih : fill_entries vols (j + 1) n ≡ some (map entry (take n (drop (suc j) vols))) =
      fill_entries_lem vols n (j + 1) (omega arith)
      ∙ ap (λ k. some (map entry (take n (drop k vols)))) next in
    ap₂ add_entry here ih ∙ ap (λ l. some (map entry (take (suc n) l))) (sym rest)

-- The entries and the token that a page has.
abbrev page : List VolumeInfo → ℕ → ℕ → ListVolumesResponse
page vols max start =
    let n = page_size max (length vols - start) in
    record {
      entries = map entry (take n (drop start vols));
      next_token = if ltb (start + n) (length vols) then itoa (start + n) else [];
    }

list_from_lem :
    (vols : List VolumeInfo) (max start : ℕ)
    → length vols < 2 ^ 32
    → start ≤ length vols
    → list_from vols (length vols) max start ≡ replies (Response.list_volumes (page vols max start))
unfolding list_from
list_from_lem vols max start h k =
    let rem : (length vols + 2 ^ 32 - start) % 2 ^ 32 ≡ length vols - start = omega arith in
    let fits : page_size max (length vols - start) ≤ length vols - start = ground arith in
    let filled = fill_entries_lem vols (page_size max (length vols - start)) start (omega arith) in
    let next : (start + page_size max (length vols - start)) % 2 ^ 32
        ≡ start + page_size max (length vols - start) =
      omega arith in
    rw rem (rw filled (rw next))

starting_token-itoa : (n : ℕ) → n < 2 ^ 32 → starting_token (itoa n) ≡ some n
unfolding starting_token
starting_token-itoa n h =
    let (d, t, e) = itoa-cons n in
    let parsed : parse_uint 32 (d ∷ t) ≡ some n = rw e at (parse_uint-itoa 32 n h) in rw e parsed

first : starting_token [] ≡ some 0
unfolding starting_token
first = refl

list_volumes_lem :
    (s : Service) (req : ListVolumesRequest) (start : ℕ)
    → length s.vols < 2 ^ 32
    → start ≤ length s.vols
    → starting_token req.starting_token ≡ some start
    → list_volumes req s ≡ replies (Response.list_volumes (page s.vols req.max_entries start))
unfolding list_volumes list_at
list_volumes_lem s req start h k e =
    let ulen : length s.vols % 2 ^ 32 ≡ length s.vols = omega arith in
    let below : ltb (length s.vols) start ≡ false = ground arith in
    rw e (rw ulen (rw below (list_from_lem s.vols req.max_entries start h k)))

reply_listed : Reply → Listed
reply_listed (reply (Response.list_volumes res)) = listed res
reply_listed _ = failed (plain [])

outcome_listed : Option Error → Reply → Listed
unfolding reply_listed
outcome_listed none rep = reply_listed rep
outcome_listed (some e) rep = failed e

-- The client's view of an outcome.
client_of : Outcome → Listed
unfolding outcome_listed
client_of panicked = failed (plain [])
client_of (returns r) = outcome_listed r.err r.rep

unfoldable pub mock_client : ListVolumesRequest → Service → Listed × Service
unfolding client_of
mock_client req s = (client_of (list_volumes req s), s)

mock_client_lem :
    (s : Service) (req : ListVolumesRequest) (start : ℕ)
    → length s.vols < 2 ^ 32
    → start ≤ length s.vols
    → starting_token req.starting_token ≡ some start
    → mock_client req s ≡ (listed (page s.vols req.max_entries start), s)
unfolding mock_client
mock_client_lem s req start h k e = rw (list_volumes_lem s req start h k e)

-- The rest of the volumes, in whatever pages.
record Rest (s : Service) (start : ℕ) (r : Option (Paging × Service)) : Type 0 where
  paging : Paging
  ran : r ≡ some (paging, s)
  clean : paging.err ≡ none
  all : flatten paging.pages ≡ map entry (drop start s.vols)

split_rest :
    (vols : List VolumeInfo) (n start : ℕ)
    → map entry (take n (drop start vols)) ++ map entry (drop (start + n) vols)
      ≡ map entry (drop start vols)
split_rest vols n start =
    sym (map-append entry (take n (drop start vols)) (drop (start + n) vols))
    ∙ ap (λ l. map entry (take n (drop start vols) ++ l)) (sym (drop-drop n start vols))
    ∙ ap (map entry) (take-append-drop n (drop start vols))

last_page :
    (vols : List VolumeInfo) (n start : ℕ)
    → start + n ≡ length vols
    → flatten (map entry (take n (drop start vols)) ∷ []) ≡ map entry (drop start vols)
unfolding flatten
last_page vols n start e =
    ap (λ l. map entry (take n (drop start vols)) ++ map entry l)
      (sym (ap (λ i. drop i vols) e ∙ drop_all vols))
    ∙ split_rest vols n start

add_page-Rest :
    (s : Service) (start n : ℕ) (r : Option (Paging × Service))
    → Rest s (start + n) r
    → Rest s start (Option.map (add_page (map entry (take n (drop start s.vols)))) r)
unfolding flatten
add_page-Rest s start n r rest = record {
  paging = record {
    pages = map entry (take n (drop start s.vols)) ∷ rest.paging.pages;
    err = rest.paging.err;
  };
  ran = ap (Option.map (add_page (map entry (take n (drop start s.vols))))) rest.ran;
  clean = rest.clean;
  all = ap (λ l. map entry (take n (drop start s.vols)) ++ l) rest.all ∙ split_rest s.vols n start;
}

page_volumes-Rest :
    (fuel : ℕ) (s : Service) (req : ListVolumesRequest) (start : ℕ)
    → length s.vols < 2 ^ 32
    → start ≤ length s.vols
    → length s.vols - start < fuel
    → starting_token req.starting_token ≡ some start
    → Rest s start (page_volumes mock_client fuel req s)
unfolding page_volumes
page_volumes-Rest zero s req start h k f e = absurd (omega arith)
page_volumes-Rest (suc fuel) s req start h k f e =
    let n = page_size req.max_entries (length s.vols - start) in
    let next = record req { starting_token = itoa (start + n) } in
    rw (mock_client_lem s req start h k e) (elim (Bool-cases (ltb (start + n) (length s.vols))) [
      | inl more ↦
          let far : start + n < length s.vols = ground arith in
          let nonempty : 0 < n = ground arith in
          let parsed = starting_token-itoa (start + n) (omega arith) in
          rw more (
            rw (is_empty-itoa (start + n)) (
              add_page-Rest s start n (page_volumes mock_client fuel next s)
                (page_volumes-Rest fuel s next (start + n) h (omega arith) (omega arith) parsed)))
      | inr done ↦
          let end : start + n ≡ length s.vols = ground arith in
          rw done (record {
            paging = record { pages = map entry (take n (drop start s.vols)) ∷ []; err = none };
            ran = refl;
            clean = refl;
            all = last_page s.vols n start end;
          })
    ])

-- On fewer than 2^32 volumes, from the first page on and for every number of entries a page may
-- have, `PageVolumes` ends without an error, leaves the service as it was, and its pages, one after
-- the other, are the volumes of the service, each once and in their order; what comes out of the
-- channel, whatever the order in which the goroutines send, is a permutation of the volumes.
pub page_volumes-mock :
    (s : Service) (req : ListVolumesRequest)
    → length s.vols < 2 ^ 32
    → req.starting_token ≡ []
    → (p : Paging) × (page_volumes mock_client (suc (length s.vols)) req s ≡ some (p, s))
      × (p.err ≡ none)
      × (flatten p.pages ≡ map entry s.vols)
      × ((out : List Entry) → Sent p.pages out → Permᴰ (map entry s.vols) out)
page_volumes-mock s req h e =
    let r =
      page_volumes-Rest (suc (length s.vols)) s req 0 h (omega arith) (omega arith)
        (ap starting_token e ∙ first) in
    (r.paging, r.ran, r.clean, r.all, λ out sent. rw r.all at (Sent-perm sent))
