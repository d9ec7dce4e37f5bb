-- ===== src/Plugin/Env/Precedence.antt =====
-- Where the value of a variable comes from, once the plug-in's environment is initialised.
use gocsi.Base.{
  ◌≡◌, refl, sym, ap, ◌∙◌, arith, Option, none, some, List, [], ◌∷◌, Text, text, cut, lookup,
  insert, lookup-insert, ◌==◌, ==_iff, ◌&&◌, ◌||◌, EqualFold, if◌then◌else◌,
}
use gocsi.Context.{Context, or_empty, or_else, lookup_environ, lookup_env, setenv}
use gocsi.Plugin.{EnvMap, process, serve_context, env_bool}
use gocsi.Plugin.EnvVars.{debug, req_logging, rep_logging}
use gocsi.Plugin.Env.{init_env_var, fill, init_env_vars}

module _ (to_upper : Text → Text) where
  -- The value of the first entry for a variable: an entry without "=" gives the empty text.
  abbrev pub default_of : Text → List Text → Option Text
  default_of k [] = none
  default_of k (entry ∷ entries) =
      let p = cut b'=' entry in
      if to_upper p.0 == k then some (or_empty p.1) else default_of k entries

module _ (fold : EqualFold) (env : Text → Option Text) (to_upper : Text → Text)
    (ctx : Context EnvMap) where
  look : Text → EnvMap → Option Text
  look k m = lookup_env fold (process env) (serve_context ctx) k m

  abbrev environ : Text → Option Text
  environ k = lookup_environ fold ctx.environ k

  look_lem : (k : Text) (m : EnvMap) → look k m ≡ or_else (environ k) (or_else (lookup k m) (env k))
  unfolding look lookup_env serve_context
  look_lem k m = refl

  -- The value that an entry for `k` stores.
  stored : Option Text → Text → Text → Text
  stored old k d = or_empty (or_else (environ k) (or_else old (or_else (env k) (some d))))

  or_default : Option Text → Text → Option Text → Option Text
  unfolding stored
  or_default old k none = old
  or_default old k (some d) = some (stored old k d)

  stored_once :
      (old : Option Text) (k d : Text) (later : Option Text)
      → or_default (some (stored old k d)) k later ≡ some (stored old k d)
  unfolding or_default
  stored_once old k d none = refl
  stored_once old k d (some d') = again (environ k)
    where
      again :
          (e : Option Text)
          → some (
              or_empty (
                or_else e (
                  or_else
                    (some (or_empty (or_else e (or_else old (or_else (env k) (some d))))))
                    (or_else (env k) (some d')))))
            ≡ some (or_empty (or_else e (or_else old (or_else (env k) (some d)))))
      again none = refl
      again (some v) = refl

  or_empty-or_else :
      (o p : Option Text) → or_empty (or_else o p) ≡ or_empty (or_else o (some (or_empty p)))
  or_empty-or_else none none = refl
  or_empty-or_else none (some v) = refl
  or_empty-or_else (some w) p = refl

  or_else_assoc : (a b c : Option Text) → or_else (or_else a b) c ≡ or_else a (or_else b c)
  or_else_assoc none b c = refl
  or_else_assoc (some v) b c = refl

  value_of :
      (k : Text) (m : EnvMap) (p : Option Text)
      → or_empty (or_else (look k m) p) ≡ stored (lookup k m) k (or_empty p)
  unfolding stored
  value_of k m p = rw look_lem (
      or_empty-or_else (or_else (environ k) (or_else (lookup k m) (env k))) p
      ∙ ap or_empty (
          or_else_assoc (environ k) (or_else (lookup k m) (env k)) (some (or_empty p))
          ∙ ap (or_else (environ k)) (or_else_assoc (lookup k m) (env k) (some (or_empty p)))))

  lookup-init_env_var :
      (k entry : Text) (m : EnvMap)
      → lookup k (init_env_var fold (process env) to_upper (serve_context ctx) entry m) ≡ (
          if to_upper (cut b'=' entry).0 == k
          then some (stored (lookup k m) k (or_empty (cut b'=' entry).1))
          else lookup k m)
  unfolding init_env_var look
  lookup-init_env_var k entry m = ground (
    arith,
    lookup-insert (to_upper (cut b'=' entry).0) k
        (or_empty (or_else (look (to_upper (cut b'=' entry).0) m) (cut b'=' entry).1)) m,
    value_of (to_upper (cut b'=' entry).0) m (cut b'=' entry).1,
    ==_iff (to_upper (cut b'=' entry).0) k,
  )

  fill-lookup :
      (k : Text) (entries : List Text) (m : EnvMap)
      → lookup k (fill fold (process env) to_upper (serve_context ctx) entries m)
        ≡ or_default (lookup k m) k (default_of to_upper k entries)
  unfolding fill or_default
  fill-lookup k [] m = refl
  fill-lookup k (entry ∷ entries) m = ground (
    arith,
    fill-lookup k entries (init_env_var fold (process env) to_upper (serve_context ctx) entry m),
    lookup-init_env_var k entry m,
    stored_once (lookup k m) k (or_empty (cut b'=' entry).1) (default_of to_upper k entries),
  )

  -- A value that is given from outside, or else the default.
  abbrev pub given : List Text → Text → Option Text
  given entries k = or_else (environ k) (or_else (env k) (default_of to_upper k entries))

  given_lem :
      (e v d : Option Text)
      → or_else e (
          or_else
            (elim d [ none ↦ none | some t ↦ some (or_empty (or_else e (or_else v (some t)))) ])
            v)
        ≡ or_else e (or_else v d)
  given_lem (some a) v d = refl
  given_lem none none none = refl
  given_lem none none (some t) = refl
  given_lem none (some a) none = refl
  given_lem none (some a) (some t) = refl

  look-fill :
      (entries : List Text) (k : Text)
      → look k (fill fold (process env) to_upper (serve_context ctx) entries []) ≡ given entries k
  unfolding or_default stored lookup
  look-fill entries k =
      rw look_lem (rw (fill-lookup k entries []) (by_default (default_of to_upper k entries)))
    where
      by_default :
          (d : Option Text)
          → or_else (environ k) (or_else (or_default none k d) (env k))
            ≡ or_else (environ k) (or_else (env k) d)
      by_default none = given_lem (environ k) (env k) none
      by_default (some t) = given_lem (environ k) (env k) (some t)

  -- What debugging sets.
  abbrev pub forced : List Text → Text → Option Text
  forced entries k =
      if env_bool (given entries debug) && (rep_logging == k || req_logging == k)
      then some (text "true")
      else none

  filled : List Text → EnvMap
  filled entries = fill fold (process env) to_upper (serve_context ctx) entries []

  initialised : List Text → EnvMap
  initialised entries = init_env_vars fold (process env) to_upper (serve_context ctx) entries

  lookup-initialised :
      (entries : List Text) (k : Text)
      → lookup k (initialised entries) ≡ or_else (forced entries k) (lookup k (filled entries))
  unfolding initialised filled init_env_vars setenv serve_context look
  lookup-initialised entries k = ground (
    arith,
    look-fill entries debug,
    lookup-insert rep_logging k (text "true") (insert req_logging (text "true") (filled entries)),
    lookup-insert req_logging k (text "true") (filled entries),
  )

  -- Once the environment is initialised, a variable has the value that the context's own list of
  -- variables gives it; else, if it is one of the two for logging and debugging is on by the same
  -- rules, "true"; else that of the process environment; else that of the first default for it.
  pub lookup_env-init_env_vars :
      (entries : List Text) (k : Text)
      → lookup_env fold
          (process env)
          (serve_context ctx)
          k
          (init_env_vars fold (process env) to_upper (serve_context ctx) entries)
        ≡ or_else
            (environ k)
            (or_else (forced entries k) (or_else (env k) (default_of to_upper k entries)))
  unfolding initialised look filled
  lookup_env-init_env_vars entries k =
      look_lem k (initialised entries)
      ∙ rw (lookup-initialised entries k) (forced_first (forced entries k))
    where
      forced_first :
          (f : Option Text)
          → or_else (environ k) (or_else (or_else f (lookup k (filled entries))) (env k))
            ≡ or_else (environ k) (or_else f (or_else (env k) (default_of to_upper k entries)))
      forced_first (some v) = refl
      forced_first none = sym (look_lem k (filled entries)) ∙ look-fill entries k
