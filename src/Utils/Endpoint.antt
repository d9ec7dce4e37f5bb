-- ===== src/Utils/Endpoint.antt =====
-- utils/utils.go: GetCSIEndpoint and ParseProtoAddr. The calls of package os on files read and change a
-- state `S`; `stat` tells whether `os.IsNotExist` is false of the error of `os.Stat`.
pub mod Laws
use gocsi.Base.{
  ℕ, ◌+◌, Bool, true, false, not, Option, none, some, List, [], ◌∷◌, ◌++◌, map, ◌&&◌, ◌||◌, Text,
  text, is_empty, nat_eq, leb, cut, ◌==◌, if◌then◌else◌,
}
use gocsi.Status.{Error, plain}

pub record Files (S : Type 0) : Type 0 where
  pub stat : Text → S → Bool × S
  pub create : Text → S → Option Error × S
  pub close : Text → S → Option Error × S
  pub remove_all : Text → S → Option Error × S
  pub error_text : Error → Text

-- `emptyRX`: `\s` is tab, newline, form feed, carriage return or space.
is_space : ℕ → Bool
is_space c =
    nat_eq c b'\t' || (nat_eq c b'\n' || (nat_eq c 12 || (nat_eq c b'\r' || nat_eq c b' ')))

unfoldable pub is_blank : Text → Bool
unfolding is_space
is_blank [] = true
is_blank (c ∷ s) = is_space c && is_blank s

lower : ℕ → ℕ
lower c = if leb b'A' c && leb c b'Z' then c + 32 else c

-- `(?i)` for the letters of the patterns: the other letter that folds to one of them is the Kelvin
-- sign, whose three bytes fold to `k`.
fold_letter : ℕ → Text → Text
unfolding lower
fold_letter c (d ∷ e ∷ s) =
    if nat_eq c 226 && (nat_eq d 132 && nat_eq e 170) then b'k' ∷ s else lower c ∷ d ∷ e ∷ s
fold_letter c s = lower c ∷ s

unfoldable pub fold_case : Text → Text
unfolding fold_letter
fold_case [] = []
fold_case (c ∷ s) = fold_letter c (fold_case s)

-- The text starts with this one.
starts_with : Text → Text → Bool
starts_with [] s = true
starts_with (c ∷ p) [] = false
starts_with (c ∷ p) (d ∷ s) = nat_eq c d && starts_with p s

abbrev one_of : (Text → Bool) → List Text → Bool
one_of p [] = false
one_of p (x ∷ l) = p x || one_of p l

-- The network and what follows two slashes.
with_slashes : Text → Text → Option (Text × Text)
with_slashes proto (c ∷ d ∷ s) = if nat_eq c b'/' && nat_eq d b'/' then some (proto, s) else none
with_slashes proto _ = none

scheme_of : Text × Option Text → Option (Text × Text)
unfolding with_slashes
scheme_of (proto, none) = none
scheme_of (proto, some s) = with_slashes proto s

abbrev guesses : List Text
guesses = text "tcp" ∷ text "udp" ∷ text "ip" ∷ text "unix" ∷ []

abbrev networks : List Text
networks =
    text "tcp"
    ∷ text "tcp4"
    ∷ text "tcp6"
    ∷ text "udp"
    ∷ text "udp4"
    ∷ text "udp6"
    ∷ text "ip"
    ∷ text "ip4"
    ∷ text "ip6"
    ∷ text "unix"
    ∷ text "unixgram"
    ∷ text "unixpacket"
    ∷ []

unfoldable pub is_guess : Text → Bool
unfolding starts_with fold_case
is_guess proto = one_of (λ p. starts_with p (fold_case proto)) guesses

unfoldable pub is_network : Text → Bool
unfolding fold_case
is_network proto = one_of (λ p. fold_case proto == p) networks

-- The part before the first colon and the part behind "://", if the colon starts that.
unfoldable pub scheme : Text → Option (Text × Text)
unfolding scheme_of cut
scheme s = scheme_of (cut b':' s)

abbrev pub matches_guess : Option (Text × Text) → Bool
matches_guess none = false
matches_guess (some (proto, r)) = is_guess proto

abbrev no_newline : Text → Bool
no_newline [] = true
no_newline (c ∷ s) = not (nat_eq c b'\n') && no_newline s

abbrev match_exact : Option (Text × Text) → Option (Text × Text)
match_exact none = none
match_exact (some (proto, r)) =
    if is_network proto && not (is_empty r) && no_newline r then some (proto, r) else none

-- A network and an address, or the error.
pub data Endpoint : Type 0 where
  endpoint : (proto addr : Text) → Endpoint
  failed : Error → Endpoint

abbrev pub required : Error
required = plain (text "non-empty network address is required")

module _ {S : Type 0} (files : Files S) where
  open files use {stat, create, close, remove_all, error_text}

  after_remove : Text → Option Error × S → Endpoint × S
  after_remove s (some e, st) =
      (failed (plain (text "failed to remove verified sock file: " ++ s)), st)
  after_remove s (none, st) = (endpoint (text "unix") s, st)

  after_close : Text → Option Error × S → Endpoint × S
  unfolding after_remove
  after_close s (some e, st) =
      (failed (plain (text "failed to verify network address as sock file: " ++ s)), st)
  after_close s (none, st) = after_remove s (remove_all s st)

  after_create : Text → Option Error × S → Endpoint × S
  unfolding after_close
  after_create s (some e, st) = (
    failed (plain (text "invalid implied sock file: " ++ (s ++ (text ": " ++ error_text e)))),
    st,
  )
  after_create s (none, st) = after_close s (close s st)

  after_stat : Text → Bool × S → Endpoint × S
  unfolding after_create
  after_stat s (true, st) = (endpoint (text "unix") s, st)
  after_stat s (false, st) = after_create s (create s st)

  abbrev exact_endpoint : Text → Option (Text × Text) → Endpoint
  exact_endpoint s none = failed (plain (text "invalid network address: " ++ s))
  exact_endpoint s (some (proto, r)) = endpoint proto r

  -- `ParseProtoAddr`
  unfoldable pub parse_proto_addr : Text → S → Endpoint × S
  unfolding after_stat scheme is_guess is_network is_blank
  parse_proto_addr s st =
      if is_blank s
      then (failed required, st)
      else if not (matches_guess (scheme s))
      then after_stat s (stat s st)
      else (exact_endpoint s (match_exact (scheme s)), st)

  -- `GetCSIEndpoint`, with the value of the variable, which is empty if it is not set.
  unfoldable pub get_csi_endpoint : Text → S → Endpoint × S
  unfolding parse_proto_addr
  get_csi_endpoint s st =
      if is_blank s
      then (failed (plain (text "missing CSI_ENDPOINT")), st)
      else parse_proto_addr s st
