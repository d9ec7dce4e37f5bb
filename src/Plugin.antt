-- ===== src/Plugin.antt =====
-- gocsi.go: the storage plug-in's own environment. The modules below are about its initialisation
-- (envvars.go), its interceptors (middleware.go) and its server.
pub mod EnvVars
pub mod Env
pub mod Interceptors
pub mod Chain
pub mod Endpoint
pub mod Serve
pub mod Run
use gocsi.Base.{Bool, true, false, Option, none, some, List, Text, lookup, insert, EqualFold}
use gocsi.Status.{Error}
use gocsi.Context.{Os, Context, with_lookup_env, with_setenv, parse_bool}

-- `sp.envVars`
abbrev pub EnvMap : Type 0
EnvMap = List (Text × Text)

-- The process environment. `os.Setenv` is never called: the context has a function for it.
abbrev pub process : (Text → Option Text) → Os EnvMap
process env = record { lookup_env = λ k m. env k; setenv = λ k v m. (none, m) }

-- `lookupEnv` and `setenv`
abbrev pub sp_lookup_env : Text → EnvMap → Option Text
sp_lookup_env key m = lookup key m

abbrev pub sp_setenv : Text → Text → EnvMap → Option Error × EnvMap
sp_setenv key val m = (none, insert key val m)

-- The context in which `Serve` initialises the plug-in.
unfoldable pub serve_context : Context EnvMap → Context EnvMap
serve_context ctx = with_setenv (with_lookup_env ctx sp_lookup_env) sp_setenv

abbrev pub or_false : Option Bool → Bool
or_false none = false
or_false (some b) = b

-- `getEnvBool`, of what `LookupEnv` finds.
unfoldable pub env_bool : Option Text → Bool
env_bool none = false
env_bool (some v) = or_false (parse_bool v)
