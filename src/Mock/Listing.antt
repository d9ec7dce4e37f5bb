-- ===== src/Mock/Listing.antt =====
-- `ListVolumes` of mock/service/controller.go.
pub mod Pages
use gocsi.Base.{
  ℕ, zero, suc, ◌+◌, ◌-◌, ◌%◌, ◌^◌, Option, none, some, List, [], ◌∷◌, ◌++◌, Text, text, nat_eq,
  ltb, length, get_elem?, itoa, parse_uint, if◌then◌else◌, ◌||◌,
}
use gocsi.Csi.{VolumeInfo, ListVolumesRequest, Response}
use gocsi.Status.{Outcome, panicked, replies, refuses, invalid_argument}
use gocsi.Mock.Service.{Service}

-- The token's number; `none` if it is no uint32.
starting_token : Text → Option ℕ
starting_token [] = some 0
starting_token (c ∷ t) = parse_uint 32 (c ∷ t)

-- `entries[i] = &Entry{&vols[j]}`; reading past the end panics.
abbrev add_entry :
    Option VolumeInfo
    → Option (List (Option (Option VolumeInfo)))
    → Option (List (Option (Option VolumeInfo)))
add_entry none es = none
add_entry (some v) none = none
add_entry (some v) (some es) = some (some (some v) ∷ es)

-- The loop that fills `n` entries from index `j`.
fill_entries : List VolumeInfo → ℕ → ℕ → Option (List (Option (Option VolumeInfo)))
fill_entries vols j zero = some []
fill_entries vols j (suc n) = add_entry (get_elem? vols j) (fill_entries vols (j + 1) n)

token_message : Text → ℕ → ℕ → Text
token_message test token limit = text "startingToken=" ++ (itoa token ++ (test ++ itoa limit))

-- `maxEntries`, once 0 and what is too large stand for the rest.
abbrev page_size : ℕ → ℕ → ℕ
page_size max rem = if nat_eq max 0 || ltb rem max then rem else max

abbrev list_reply : ℕ → ℕ → Option (List (Option (Option VolumeInfo))) → Outcome
list_reply next ulen none = panicked
list_reply next ulen (some es) = replies (
    Response.list_volumes
      (record { entries = es; next_token = if ltb next ulen then itoa next else [] }))

-- The response for a starting token that is in range.
list_from : List VolumeInfo → ℕ → ℕ → ℕ → Outcome
unfolding fill_entries
list_from vols ulen max start =
    let n = page_size max ((ulen + 2 ^ 32 - start) % 2 ^ 32) in
    list_reply ((start + n) % 2 ^ 32) ulen (fill_entries vols start n)

-- The tests on the token; `ulen` is the uint32 of the number of volumes.
list_at : List VolumeInfo → ℕ → ℕ → Option ℕ → Outcome
unfolding list_from token_message
list_at vols ulen max none =
    refuses invalid_argument (token_message (text " !< uint32=") 0 (2 ^ 32 - 1))
list_at vols ulen max (some start) =
    if ltb ulen start
    then refuses invalid_argument (token_message (text " > len(vols)=") start ulen)
    else list_from vols ulen max start

unfoldable pub list_volumes : ListVolumesRequest → Service → Outcome
unfolding starting_token list_at
list_volumes req s =
    list_at s.vols (length s.vols % 2 ^ 32) req.max_entries (starting_token req.starting_token)
