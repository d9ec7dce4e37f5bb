-- ===== src/SpecValidator/Patterns.antt =====
-- The two regular expressions of `validateGetPluginInfoResponse`, as Go's regexp package matches them.
use gocsi.Base.{
  ℕ, Bool, true, false, not, [], ◌∷◌, ◌≡◌, refl, Text, text, is_empty, is_digit, nat_eq, leb,
  if◌then◌else◌, ◌&&◌, ◌||◌,
}
use gocsi.Utils.Versions.{span_digits}

-- `[\w\d]`
abbrev pub is_word : ℕ → Bool
is_word c = is_digit c || leb b'a' c && leb c b'z' || leb b'A' c && leb c b'Z' || nat_eq c b'_'

-- `[\w\d\.\-_]`
abbrev pub is_name_char : ℕ → Bool
is_name_char c = is_word c || nat_eq c b'.' || nat_eq c b'-'

-- `[\w\d\.\-_]*[\w\d]$`
unfoldable pub name_tail : Text → Bool
name_tail [] = false
name_tail (c ∷ []) = is_word c
name_tail (c ∷ d ∷ s) = is_name_char c && name_tail (d ∷ s)

-- `[\w\d]*\.` and the tail
name_head : Text → Bool
unfolding name_tail
name_head [] = false
name_head (c ∷ s) =
    let more = name_head s in if nat_eq c b'.' then name_tail s else is_word c && more

-- `^[\w\d]+\.[\w\d\.\-_]*[\w\d]$`
unfoldable pub name_matches : Text → Bool
unfolding name_head
name_matches [] = false
name_matches (c ∷ s) = is_word c && name_head s

-- `.+$`: no newline
some_characters : Text → Bool
some_characters [] = false
some_characters (c ∷ []) = not (nat_eq c 10)
some_characters (c ∷ d ∷ s) = not (nat_eq c 10) && some_characters (d ∷ s)

-- `(-.+)?$`
pre_release : Text → Bool
unfolding some_characters
pre_release [] = true
pre_release (c ∷ s) = nat_eq c b'-' && some_characters s

-- `\.` and the rest of the pattern
after_dot : (Text → Bool) → Text → Bool
after_dot k [] = false
after_dot k (c ∷ s) = nat_eq c b'.' && k s

-- `\d+` and the rest of the pattern
after_digits : (Text → Bool) → Text → Bool
unfolding span_digits
after_digits k s = let (m, rest) = span_digits s in not (is_empty m) && k rest

-- `(\d+\.){2}(\d+)(-.+)?$`
release : Text → Bool
unfolding after_digits after_dot pre_release
release = after_digits (after_dot (after_digits (after_dot (after_digits pre_release))))

-- `^v?(\d+\.){2}(\d+)(-.+)?$`
unfoldable pub version_matches : Text → Bool
unfolding release
version_matches [] = false
version_matches (c ∷ s) = if nat_eq c b'v' then release s else release (c ∷ s)

patterns_test :
    (name_matches (text "com.thecodeteam.mock") ≡ true)
    × (name_matches (text "mock") ≡ false)
    × (name_matches (text "com.mock-") ≡ false)
    × (version_matches (text "v0.1.0-rc1") ≡ true)
    × (version_matches (text "0.1") ≡ false)
    × (version_matches (text "1.2.3-") ≡ false)
unfolding name_matches version_matches text
patterns_test = (refl, refl, refl, refl, refl, refl)
