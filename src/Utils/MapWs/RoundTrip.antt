-- ===== src/Utils/MapWs/RoundTrip.antt =====
-- A map, written with every key and every value in double quotes, and read back.
use mathlib.Core.List.{append-nil, append_assoc}
use gocsi.Base.{
  ℕ, ◌≡◌, ◌≢◌, refl, ap, ◌∙◌, arith, Bool, true, false, some, List, [], ◌∷◌, ◌++◌, ◌||◌, Text,
  is_empty, nat_eq, insert, range_text, All, if◌then◌else◌,
}
use gocsi.Utils.MapWs.{Scan, start, is_quote, step, scan, parse_map_ws}

-- A byte, with a backslash before it where it is one or a quote.
escape_byte : ℕ → Text → Text
escape_byte c rest = if nat_eq c b'\\' || is_quote c then b'\\' ∷ c ∷ rest else c ∷ rest

escape : Text → Text → Text
escape [] rest = rest
escape (c ∷ s) rest = escape_byte c (escape s rest)

quoted : Text → Text → Text
unfolding escape escape_byte
quoted s rest = b'"' ∷ escape s (b'"' ∷ rest)

-- "KEY"="VALUE", with what follows.
entry : Text × Text → Text → Text
unfolding quoted escape_byte
entry (k, v) rest = quoted k (b'=' ∷ quoted v rest)

-- The pairs with a space between them.
unfoldable pub listing : List (Text × Text) → Text
unfolding entry
listing [] = []
listing (e ∷ []) = entry e []
listing (e ∷ f ∷ es) = entry e (b' ' ∷ listing (f ∷ es))

abbrev pub add_all : List (Text × Text) → List (Text × Text) → List (Text × Text)
add_all [] m = m
add_all ((k, v) ∷ es) m = add_all es (insert k v m)

-- In a key, and in a value.
abbrev key_state : ℕ → Text → List (Text × Text) → Scan
key_state q k m = record start { quot = q; keyb = k; pairs = m }

abbrev value_state : ℕ → Text → Text → List (Text × Text) → Scan
value_state q k v m = record start { quot = q; ckey = k; valb = v; in_key = false; pairs = m }

scan_key_byte :
    (c : ℕ) (k rest : Text) (m : List (Text × Text))
    → scan false (key_state b'"' k m) (escape_byte c rest)
      ≡ scan false (key_state b'"' (k ++ c ∷ []) m) rest
unfolding scan step escape_byte
scan_key_byte c k rest m = ground arith

scan_key :
    (s k rest : Text) (m : List (Text × Text))
    → scan false (key_state b'"' k m) (escape s rest) ≡ scan false (key_state b'"' (k ++ s) m) rest
unfolding escape
scan_key [] k rest m = rw append-nil
scan_key (c ∷ s) k rest m =
    scan_key_byte c k (escape s rest) m ∙ scan_key s (k ++ c ∷ []) rest m ∙ rw append_assoc

scan_value_byte :
    (c : ℕ) (k v rest : Text) (m : List (Text × Text))
    → scan false (value_state b'"' k v m) (escape_byte c rest)
      ≡ scan false (value_state b'"' k (v ++ c ∷ []) m) rest
unfolding scan step escape_byte
scan_value_byte c k v rest m = ground arith

scan_value :
    (s k v rest : Text) (m : List (Text × Text))
    → scan false (value_state b'"' k v m) (escape s rest)
      ≡ scan false (value_state b'"' k (v ++ s) m) rest
unfolding escape
scan_value [] k v rest m = rw append-nil
scan_value (c ∷ s) k v rest m =
    scan_value_byte c k v (escape s rest) m ∙ scan_value s k (v ++ c ∷ []) rest m ∙ rw append_assoc

scan-entry :
    (first : Bool) (k v rest : Text) (m : List (Text × Text))
    → scan first (key_state 0 [] m) (entry (k, v) rest) ≡ scan false (value_state 0 k v m) rest
unfolding scan step entry quoted
scan-entry true k v rest m =
    scan_key k [] (b'"' ∷ b'=' ∷ quoted v rest) m ∙ scan_value v k [] (b'"' ∷ rest) m
scan-entry false k v rest m =
    scan_key k [] (b'"' ∷ b'=' ∷ quoted v rest) m ∙ scan_value v k [] (b'"' ∷ rest) m

-- The blank behind a pair.
scan_blank :
    (k v rest : Text) (m : List (Text × Text))
    → k ≢ []
    → scan false (value_state 0 k v m) (b' ' ∷ rest)
      ≡ scan false (key_state 0 [] (insert k v m)) rest
unfolding scan step
scan_blank [] v rest m h = absurd (h refl)
scan_blank (c ∷ k) v rest m h = refl

-- What the loop leaves, with the pair at its end.
abbrev finish : Scan → List (Text × Text)
finish s = if is_empty s.ckey then s.pairs else insert s.ckey s.valb s.pairs

finish-value_state :
    (k v : Text) (m : List (Text × Text))
    → k ≢ []
    → finish (scan false (value_state 0 k v m) []) ≡ insert k v m
unfolding scan
finish-value_state [] v m h = absurd (h refl)
finish-value_state (c ∷ k) v m h = refl

finish-listing :
    (e : Text × Text) (es m : List (Text × Text)) (first : Bool)
    → All (λ p. p.0 ≢ []) (e ∷ es)
    → finish (scan first (key_state 0 [] m) (listing (e ∷ es))) ≡ add_all (e ∷ es) m
unfolding listing
finish-listing (k, v) [] m first (ne, h) =
    ap finish (scan-entry first k v [] m) ∙ finish-value_state k v m ne
finish-listing (k, v) (f ∷ es) m first (ne, h) =
    ap finish
      (scan-entry first k v (b' ' ∷ listing (f ∷ es)) m ∙ scan_blank k v (listing (f ∷ es)) m ne)
    ∙ finish-listing f es (insert k v m) false h

parse_map_ws-range_text :
    (s : Text) → s ≢ [] → range_text s ≡ s → parse_map_ws s ≡ some (finish (scan true start s))
unfolding parse_map_ws
parse_map_ws-range_text [] ne valid = absurd (ne refl)
parse_map_ws-range_text (c ∷ s) ne valid = rw valid refl

listing-ne-nil : (e : Text × Text) (es : List (Text × Text)) → listing (e ∷ es) ≢ []
unfolding listing
listing-ne-nil (k, v) [] h = cc
listing-ne-nil (k, v) (f ∷ es) h = cc

-- Pairs that are written with their keys and values in double quotes, and a backslash before each
-- backslash and each quote, with blanks between them, are read back as the map of these pairs, where
-- the last pair of a key counts, if no key is empty and the written line is valid UTF-8.
pub parse_map_ws-listing :
    (e : Text × Text) (es : List (Text × Text))
    → All (λ p. p.0 ≢ []) (e ∷ es)
    → range_text (listing (e ∷ es)) ≡ listing (e ∷ es)
    → parse_map_ws (listing (e ∷ es)) ≡ some (add_all (e ∷ es) [])
parse_map_ws-listing e es h valid =
    parse_map_ws-range_text (listing (e ∷ es)) (listing-ne-nil e es) valid
    ∙ ap some (finish-listing e es [] true h)
