-- ===== src/Utils/Endpoint/Laws.antt =====
-- Which endpoints ParseProtoAddr finds.
use gocsi.Base.{
  ℕ, ◌≡◌, ◌↔◌, ◌⊎◌, refl, ap, ◌∙◌, arith, Bool, true, false, Option, none, some, List, [], ◌∷◌,
  ◌++◌, Text, text, is_empty, nat_eq, ◌==◌, ==_iff, IsFree, All, cut, cut-separated, if◌then◌else◌,
}
use gocsi.Status.{Error}
use gocsi.Utils.Endpoint.{
  Files, is_blank, fold_case, starts_with, one_of, with_slashes, scheme_of, networks, guesses,
  is_guess, is_network, scheme, matches_guess, no_newline, match_exact, endpoint, after_remove,
  after_close, after_create, after_stat, exact_endpoint, parse_proto_addr,
}

-- "PROTO://ADDR", with a network's name in any case and an address of one line.
pub record IsAddress (s proto addr : Text) : Type 0 where
  pub parts : s ≡ proto ++ b':' ∷ b'/' ∷ b'/' ∷ addr
  pub free : IsFree b':' proto
  pub network : is_network proto ≡ true
  pub some_addr : is_empty addr ≡ false
  pub one_line : no_newline addr ≡ true

-- What `cut` finds.
abbrev Parts : ℕ → Text → Text × Option Text → Type 0
Parts sep s (a, none) = Unit {0}
Parts sep s (a, some b) = (s ≡ a ++ sep ∷ b) × IsFree sep a

cut_step :
    (sep c : ℕ) (s : Text) (r : Text × Option Text) (same : Bool)
    → nat_eq c sep ≡ same
    → Parts sep s r
    → Parts sep (c ∷ s) (if same then ([], some s) else (c ∷ r.0, r.1))
cut_step sep c s r true e h = (ground arith, tt)
cut_step sep c s (a, none) false e h = tt
cut_step sep c s (a, some b) false e (parts, free) = (ap (◌∷◌ c) parts, (e, free))

cut-Parts : (sep : ℕ) (s : Text) → Parts sep s (cut sep s)
unfolding cut
cut-Parts sep [] = tt
cut-Parts sep (c ∷ s) = cut_step sep c s (cut sep s) (nat_eq c sep) refl (cut-Parts sep s)

abbrev guessed : Text → Bool
guessed t = one_of (λ p. starts_with p t) guesses

one_of_sound :
    (q : Text → Bool) (t : Text) (l : List Text)
    → All (λ p. q p ≡ true) l
    → one_of (λ p. t == p) l ≡ true
    → q t ≡ true
one_of_sound q t [] h e = absurd (cc)
one_of_sound q t (p ∷ l) (hp, h) e =
    ground (arith, ==_iff t p, one_of_sound q t l h, λ (d : t ≡ p). ap q d)

networks-guessed : All (λ p. guessed p ≡ true) networks
unfolding starts_with text
networks-guessed = (
  refl,
  (refl, (refl, (refl, (refl, (refl, (refl, (refl, (refl, (refl, (refl, (refl, tt))))))))))),
)

is_network-is_guess : (proto : Text) → is_network proto ≡ true → is_guess proto ≡ true
unfolding is_network is_guess
is_network-is_guess proto h = one_of_sound guessed (fold_case proto) networks networks-guessed h

scheme-parts :
    (proto addr : Text)
    → IsFree b':' proto
    → scheme (proto ++ b':' ∷ b'/' ∷ b'/' ∷ addr) ≡ some (proto, addr)
unfolding scheme scheme_of with_slashes
scheme-parts proto addr h = ap scheme_of (cut-separated b':' proto (b'/' ∷ b'/' ∷ addr) h)

scheme_of_sound :
    (s proto addr : Text) (r : Text × Option Text)
    → Parts b':' s r
    → scheme_of r ≡ some (proto, addr)
    → (s ≡ proto ++ b':' ∷ b'/' ∷ b'/' ∷ addr) × IsFree b':' proto
unfolding scheme_of with_slashes
scheme_of_sound s proto addr (a, none) h e = absurd (cc)
scheme_of_sound s proto addr (a, some []) h e = absurd (cc)
scheme_of_sound s proto addr (a, some (c ∷ [])) h e = absurd (cc)
scheme_of_sound s proto addr (a, some (c ∷ d ∷ t)) h e = ground (arith, h)

scheme_iff :
    (s proto addr : Text)
    → (scheme s ≡ some (proto, addr))
      ↔ ((s ≡ proto ++ b':' ∷ b'/' ∷ b'/' ∷ addr) × IsFree b':' proto)
unfolding scheme
scheme_iff s proto addr = (
  scheme_of_sound s proto addr (cut b':' s) (cut-Parts b':' s),
  λ (parts, free). ap scheme parts ∙ scheme-parts proto addr free,
)

match_exact_iff :
    (m : Option (Text × Text)) (proto addr : Text)
    → (match_exact m ≡ some (proto, addr)) ↔ (
        (m ≡ some (proto, addr))
        × (is_network proto ≡ true)
        × (is_empty addr ≡ false)
        × (no_newline addr ≡ true))
match_exact_iff none proto addr = (λ h. absurd (cc), λ h. absurd (cc))
match_exact_iff (some (n, r)) proto addr = ground (
  arith,
  λ (d : n ≡ proto). ap is_network d,
  λ (d : r ≡ addr). ap is_empty d,
  λ (d : r ≡ addr). ap no_newline d,
)

match_exact-IsAddress_iff :
    (s proto addr : Text) → (match_exact (scheme s) ≡ some (proto, addr)) ↔ IsAddress s proto addr
match_exact-IsAddress_iff s proto addr =
    let (to, from) = match_exact_iff (scheme s) proto addr in
    let (parse, build) = scheme_iff s proto addr in
    (
      λ h.
          let (e, network, some_addr, one_line) = to h in
          let (parts, free) = parse e in
          record {
            parts = parts;
            free = free;
            network = network;
            some_addr = some_addr;
            one_line = one_line;
          },
      λ a. from (build (a.parts, a.free), a.network, a.some_addr, a.one_line),
    )

IsAddress-matches_guess :
    (s proto addr : Text) → IsAddress s proto addr → matches_guess (scheme s) ≡ true
IsAddress-matches_guess s proto addr a =
    ap matches_guess ((scheme_iff s proto addr).1 (a.parts, a.free))
    ∙ is_network-is_guess proto a.network

module _ {S : Type 0} (files : Files S) where
  -- The file is there, or it is created, closed and removed without error.
  abbrev pub IsSocketAt : Text → Bool × S → Type 0
  IsSocketAt s (there, st) =
      (there ≡ true)
      ⊎ (((files.create s st).0 ≡ none)
          × ((files.close s (files.create s st).1).0 ≡ none)
          × ((files.remove_all s (files.close s (files.create s st).1).1).0 ≡ none))

  module _ (s proto addr : Text) where
    abbrev pub IsUnix : Type 0
    IsUnix = (proto ≡ text "unix") × (addr ≡ s)

    after_remove_iff :
        (r : Option Error × S)
        → ((after_remove files s r).0 ≡ endpoint proto addr) ↔ (IsUnix × (r.0 ≡ none))
    unfolding after_remove
    after_remove_iff (some e, st) = (λ h. absurd (cc), λ h. absurd (cc))
    after_remove_iff (none, st) = ground arith

    after_close_iff :
        (r : Option Error × S)
        → ((after_close files s r).0 ≡ endpoint proto addr)
          ↔ (IsUnix × (r.0 ≡ none) × ((files.remove_all s r.1).0 ≡ none))
    unfolding after_close
    after_close_iff (some e, st) = (λ h. absurd (cc), λ h. absurd (cc))
    after_close_iff (none, st) = ground (arith, after_remove_iff (files.remove_all s st))

    after_create_iff :
        (r : Option Error × S)
        → ((after_create files s r).0 ≡ endpoint proto addr) ↔ (
            IsUnix
            × (r.0 ≡ none)
            × ((files.close s r.1).0 ≡ none)
            × ((files.remove_all s (files.close s r.1).1).0 ≡ none))
    unfolding after_create
    after_create_iff (some e, st) = (λ h. absurd (cc), λ h. absurd (cc))
    after_create_iff (none, st) = ground (arith, after_close_iff (files.close s st))

    after_stat_iff :
        (r : Bool × S)
        → ((after_stat files s r).0 ≡ endpoint proto addr) ↔ (IsUnix × IsSocketAt s r)
    unfolding after_stat
    after_stat_iff (true, st) = ground arith
    after_stat_iff (false, st) = ground (arith, after_create_iff (files.create s st))

    exact_endpoint_iff :
        (m : Option (Text × Text))
        → (exact_endpoint files s m ≡ endpoint proto addr) ↔ (m ≡ some (proto, addr))
    exact_endpoint_iff none = (λ h. absurd (cc), λ h. absurd (cc))
    exact_endpoint_iff (some (n, r)) = ground arith

    -- ParseProtoAddr finds a network and an address exactly when the text is not blank, and either it is
    -- "PROTO://ADDR" with the name of a network in any case and an address of one line that is not
    -- empty, or it does not begin like a network's name with "://" behind it, the network is "unix",
    -- the address is the text, and a file is there, or can be created, closed and removed.
    pub parse_proto_addr-endpoint_iff :
        (st : S)
        → ((parse_proto_addr files s st).0 ≡ endpoint proto addr) ↔ (
            (is_blank s ≡ false)
            × (IsAddress s proto addr
                ⊎ ((matches_guess (scheme s) ≡ false) × IsUnix × IsSocketAt s (files.stat s st))))
    unfolding parse_proto_addr
    parse_proto_addr-endpoint_iff st = ground (
      arith,
      exact_endpoint_iff (match_exact (scheme s)),
      match_exact-IsAddress_iff s proto addr,
      IsAddress-matches_guess s proto addr,
      after_stat_iff (files.stat s st),
    )
