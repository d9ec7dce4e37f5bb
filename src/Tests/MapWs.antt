-- ===== src/Tests/MapWs.antt =====
-- ParseMapWS on concrete lines.
use mathlib.Core.List.{[], ◌∷◌}
use gocsi.Base.{◌≡◌, refl, ◌≢◌, All, insert, some, List, Text, text, range_text}
use gocsi.Utils.MapWs.{parse_map_ws}
use gocsi.Utils.MapWs.RoundTrip.{listing, add_all, parse_map_ws-listing}

abbrev pair : Text × Text
pair = (text "a", text "b c")

abbrev pairs : List (Text × Text)
pairs = (text "k\\", text "say \"x\"") ∷ (text "a", []) ∷ []

pairs_line : listing (pair ∷ pairs) ≡ text "\"a\"=\"b c\" \"k\\\\\"=\"say \\\"x\\\"\" \"a\"=\"\""
unfolding listing text
pairs_line = refl

line_valid : range_text (listing (pair ∷ pairs)) ≡ listing (pair ∷ pairs)
unfolding listing text range_text insert
line_valid = refl

names_ne : All (λ p. p.0 ≢ []) (pair ∷ pairs)
unfolding text
names_ne = ((λ h. cc), ((λ h. cc), ((λ h. cc), tt)))

parse_map_ws-listing_example :
    parse_map_ws (listing (pair ∷ pairs)) ≡ some (add_all (pair ∷ pairs) [])
parse_map_ws-listing_example = parse_map_ws-listing pair pairs names_ne line_valid

-- A single quote within double quotes is left out, and the double quote behind it ends nothing.
other_quote : parse_map_ws (text "a=\"it's b\" c=d") ≡ some ((text "a", text "its b c=d") ∷ [])
unfolding parse_map_ws text range_text insert
other_quote = refl

-- A word without an equals sign is the head of the next key.
no_value : parse_map_ws (text "a b=c") ≡ some ((text "ab", text "c") ∷ [])
unfolding parse_map_ws text range_text insert
no_value = refl
