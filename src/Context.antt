-- ===== src/Context.antt =====
-- context/context.go: the environment and the request ID that a Go context carries. The functions in
-- the context, and those of the package os, read and change a state `S`.
use gocsi.Base.{
  Bool, true, false, Option, none, some, List, [], ◌∷◌, Text, text, cut, lookup, parse_uint, ℕ,
  EqualFold, if◌then◌else◌, ◌==◌, ◌||◌,
}
use gocsi.Status.{Error}

-- gRPC metadata.
abbrev pub Metadata : Type 0
Metadata = List (Text × List Text)

abbrev pub request_id_key : Text
request_id_key = text "csi.requestid"

-- `os.LookupEnv` and `os.Setenv`.
pub record Os (S : Type 0) : Type 0 where
  pub lookup_env : Text → S → Option Text
  pub setenv : Text → Text → S → Option Error × S

-- The values of a context under the keys that this package uses; the functions are not nil.
pub record Context (S : Type 0) : Type 0 where
  pub environ : Option (List Text)
  pub lookup_env : Option (Text → S → Option Text)
  pub setenv : Option (Text → Text → S → Option Error × S)
  pub incoming : Option Metadata
  pub outgoing : Option Metadata

-- The second result of a lookup in a map is dropped: a missing key gives the empty text.
abbrev pub or_empty : Option Text → Text
or_empty none = []
or_empty (some v) = v

-- The first of two results that is there.
abbrev pub or_else : Option Text → Option Text → Option Text
or_else none b = b
or_else (some v) b = some v

-- `GetRequestID`: the last two conditions.
unfoldable pub parse_id : Option (List Text) → Option ℕ
parse_id none = none
parse_id (some []) = none
parse_id (some (s ∷ [])) = parse_uint 64 s
parse_id (some (s ∷ t ∷ ss)) = none

-- The values under the key, in the incoming metadata if there are any metadata, else in the outgoing.
unfoldable pub id_values : Option Metadata → Option Metadata → Option (List Text)
id_values (some md) out = lookup request_id_key md
id_values none (some md) = lookup request_id_key md
id_values none none = none

module _ {S : Type 0} where
  -- `WithEnviron`, `WithLookupEnv` and `WithSetenv`
  abbrev pub with_environ : Context S → List Text → Context S
  with_environ ctx v = record ctx { environ = some v }

  abbrev pub with_lookup_env : Context S → (Text → S → Option Text) → Context S
  with_lookup_env ctx f = record ctx { lookup_env = some f }

  abbrev pub with_setenv : Context S → (Text → Text → S → Option Error × S) → Context S
  with_setenv ctx f = record ctx { setenv = some f }

  -- `GetRequestID`
  unfoldable pub get_request_id : Context S → Option ℕ
  unfolding parse_id id_values
  get_request_id ctx = parse_id (id_values ctx.incoming ctx.outgoing)

  -- `Setenv`
  unfoldable pub setenv : Os S → Context S → Text → Text → S → Option Error × S
  setenv os ctx key val st = elim ctx.setenv [ some f ↦ f key val st | none ↦ os.setenv key val st ]

module _ (fold : EqualFold) where
  open fold use {equal_fold}

  -- The loop over the string slice.
  unfoldable pub find_variable : List Text → Text → Option Text
  find_variable [] key = none
  find_variable (v ∷ vs) key =
      let p = cut b'=' v in if equal_fold p.0 key then some (or_empty p.1) else find_variable vs key

  -- The variables of the context's "os.Environ".
  unfoldable pub lookup_environ : Option (List Text) → Text → Option Text
  unfolding find_variable
  lookup_environ none key = none
  lookup_environ (some vs) key = find_variable vs key

  module _ {S : Type 0} where
    abbrev lookup_function : Option (Text → S → Option Text) → Text → S → Option Text
    lookup_function none key st = none
    lookup_function (some f) key st = f key st

    -- `LookupEnv`
    unfoldable pub lookup_env : Os S → Context S → Text → S → Option Text
    unfolding lookup_environ
    lookup_env os ctx key st =
        or_else (lookup_environ ctx.environ key)
          (or_else (lookup_function ctx.lookup_env key st) (os.lookup_env key st))

    -- `Getenv`
    unfoldable pub getenv : Os S → Context S → Text → S → Text
    unfolding lookup_env
    getenv os ctx key st = or_empty (lookup_env os ctx key st)

-- `strconv.ParseBool`; `none` is its error.
unfoldable pub parse_bool : Text → Option Bool
parse_bool s =
    if s == text "1"
      || (s == text "t"
          || (s == text "T" || (s == text "TRUE" || (s == text "true" || s == text "True"))))
    then some true
    else if s == text "0"
        || (s == text "f"
            || (s == text "F" || (s == text "FALSE" || (s == text "false" || s == text "False"))))
    then some false
    else none
