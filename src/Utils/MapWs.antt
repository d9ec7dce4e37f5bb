-- ===== src/Utils/MapWs.antt =====
-- utils/utils.go: `ParseMapWS`, a loop over the runes of a line. The bytes of a rune that is not ASCII
-- are written one after the other, which is what `WriteRune` does with the rune.
pub mod RoundTrip
use gocsi.Base.{
  ℕ, Bool, true, false, not, ◌&&◌, ◌||◌, none, some, List, [], ◌∷◌, ◌++◌, Text, is_empty, nat_eq,
  insert, range_text, if◌then◌else◌,
}
use gocsi.Csi.{GoMap}

-- The variables of the loop. `quot` is 0 outside of quotes; `in_key` is `word == keyb`.
pub record Scan : Type 0 where
  pub escp : Bool
  pub quot : ℕ
  pub ckey : Text
  pub keyb : Text
  pub valb : Text
  pub in_key : Bool
  pub pairs : List (Text × Text)

abbrev pub start : Scan
start = record {
  escp = false;
  quot = 0;
  ckey = [];
  keyb = [];
  valb = [];
  in_key = true;
  pairs = [];
}

-- `word.WriteRune(c)`
abbrev pub write : Scan → ℕ → Scan
write s c =
    if s.in_key
    then record s { escp = false; keyb = s.keyb ++ c ∷ [] }
    else record s { escp = false; valb = s.valb ++ c ∷ [] }

abbrev pub is_quote : ℕ → Bool
is_quote c = nat_eq c b'\'' || nat_eq c b'"'

-- The pair that ends here, if there is a key.
abbrev pub record_pair : Scan → Scan
record_pair s =
    if is_empty s.ckey
    then s
    else record s { pairs = insert s.ckey s.valb s.pairs; valb = []; in_key = true; ckey = [] }

-- One round of the loop; `first` is `i == 0`.
unfoldable pub step : Bool → Scan → ℕ → Scan
step first s c =
    if nat_eq c b'\\'
    then (if not s.escp then record s { escp = true } else write s c)
    else if is_quote c
    then (if first || not s.escp
        then record s { quot = if nat_eq s.quot c then 0 else c }
        else write s c)
    else if nat_eq c b'='
    then (if s.in_key && (nat_eq s.quot 0 && not s.escp)
        then record s { ckey = s.keyb; keyb = []; in_key = false }
        else write s c)
    else if nat_eq c b' ' || nat_eq c b'\t'
    then (if nat_eq s.quot 0 && not s.escp then record_pair s else write s c)
    else write s c

unfoldable pub scan : Bool → Scan → Text → Scan
unfolding step
scan first s [] = s
scan first s (c ∷ cs) = scan false (step first s c) cs

-- `ParseMapWS`
unfoldable pub parse_map_ws : Text → GoMap
unfolding scan
parse_map_ws [] = none
parse_map_ws (c ∷ line) =
    let s = scan true start (range_text (c ∷ line)) in
    some (if is_empty s.ckey then s.pairs else insert s.ckey s.valb s.pairs)
