-- ===== src/SerialVolume/Etcd/Client.antt =====
-- middleware/serialvolume/etcd/etcd_lock_provider.go: the provider over the etcd client. A context `X`,
-- a client `C` and a session `N` are those of the packages context, clientv3 and concurrency, and
-- their calls change a state `S`. `seconds` is the whole number of `ttl.Seconds()`.
use gocsi.Base.{
  ℤ, pos, negsuc, Bool, true, false, Option, none, some, [], ◌∷◌, Text, text, is_empty, int_eq,
  path_join_all, ltb, if◌then◌else◌,
}
use gocsi.Context.{or_empty}
use gocsi.Status.{Error, Attempt, got, failed}
use gocsi.SerialVolume.{Key, id, named}
use gocsi.SerialVolume.Etcd.EnvVars
use gocsi.SerialVolume.Etcd.{Config, init_config}

-- How a call of the mutex ends.
pub data Ended : Type 0 where
  done canceled deadline_exceeded : Ended
  broken : Error → Ended

-- `NewMutex` only keeps the session and the prefix, so a mutex is these two.
pub record Client (X C N S : Type 0) : Type 0 where
  pub new : Config → S → Attempt C × S
  pub close : C → S → Option Error × S
  pub new_session : C → X → Option ℤ → S → Attempt N × S
  pub close_session : N → S → Option Error × S
  pub lock_mutex : N → Text → X → S → Ended × S
  pub unlock_mutex : N → Text → X → S → Ended × S
  pub with_timeout : X → ℤ → X

abbrev pub is_positive : ℤ → Bool
is_positive (pos n) = ltb 0 n
is_positive (negsuc n) = false

pub record Provider (C : Type 0) : Type 0 where
  pub client : C
  pub domain : Text
  pub ttl : ℤ

pub record TryMutex (X N : Type 0) : Type 0 where
  pub ctx : X
  pub sess : N
  pub mtx : Text
  pub lock_ctx : Option X
  pub unlock_ctx : Option X
  pub try_lock_ctx : Option X

-- `path.Join("/", domain)`
unfoldable pub domain_of : Text → Text
domain_of domain = path_join_all (text "/" ∷ domain ∷ [])

-- The prefix of a lock, in `GetLockWithID` and `GetLockWithName`.
unfoldable pub lock_path : Text → Key → Text
lock_path domain (id t) = path_join_all (domain ∷ text "volumesByID" ∷ t ∷ [])
lock_path domain (named t) = path_join_all (domain ∷ text "volumesByName" ∷ t ∷ [])

-- A method of a mutex that has no result, and one that has.
pub data Finished (A : Type 0) : Type 0 where
  finished : A → Finished A
  panicked : Finished A

module _ {X C N S : Type 0} (etcd : Client X C N S) where
  open etcd use {new, close, new_session, close_session, lock_mutex, unlock_mutex, with_timeout}

  module _ (parse_duration : Text → Option ℤ) (number_error : Text → Error) (seconds : ℤ → ℤ)
      (env : Text → Option Text) where
    -- A value that cannot be parsed leaves the time to live at 0.
    abbrev parsed_ttl : Option ℤ → ℤ
    parsed_ttl none = pos 0
    parsed_ttl (some d) = d

    ttl_of : ℤ → ℤ
    ttl_of ttl =
        if int_eq ttl (pos 0) then parsed_ttl (parse_duration (or_empty (env EnvVars.ttl))) else ttl

    with_client : Text → ℤ → Attempt C × S → Attempt (Provider C) × S
    with_client domain ttl (failed e, st) = (failed e, st)
    with_client domain ttl (got c, st) =
        (got (record { client = c; domain = domain; ttl = seconds ttl }), st)

    with_config : Text → ℤ → Attempt Config → S → Attempt (Provider C) × S
    unfolding with_client
    with_config domain ttl (failed e) st = (failed e, st)
    with_config domain ttl (got config) st = with_client domain ttl (new config st)

    abbrev config_of : Option Config → Attempt Config
    config_of none = init_config parse_duration number_error env
    config_of (some c) = got c

    -- `New`
    unfoldable pub new_provider : Text → ℤ → Option Config → S → Attempt (Provider C) × S
    unfolding with_config ttl_of domain_of
    new_provider domain ttl config st =
        with_config (domain_of (if is_empty domain then or_empty (env EnvVars.domain) else domain))
          (ttl_of ttl) (config_of config) st

  unfoldable pub close_provider : Provider C → S → Option Error × S
  close_provider p st = close p.client st

  with_session : X → Text → Attempt N × S → Attempt (TryMutex X N) × S
  with_session ctx pfx (failed e, st) = (failed e, st)
  with_session ctx pfx (got n, st) = (
    got (record {
      ctx = ctx;
      sess = n;
      mtx = pfx;
      lock_ctx = none;
      unlock_ctx = none;
      try_lock_ctx = none;
    }),
    st,
  )

  -- `GetLockWithID` and `GetLockWithName`, by `getLock`.
  unfoldable pub get_lock : Provider C → X → Key → S → Attempt (TryMutex X N) × S
  unfolding with_session lock_path
  get_lock p ctx k st =
      with_session ctx (lock_path p.domain k)
        (new_session p.client ctx (if is_positive p.ttl then some p.ttl else none) st)

  abbrev ctx_or : X → Option X → X
  ctx_or ctx none = ctx
  ctx_or ctx (some own) = own

  -- An error that is neither of the context's panics.
  without_result : Ended × S → Finished (Unit {0}) × S
  without_result (broken e, st) = (panicked, st)
  without_result (_, st) = (finished tt, st)

  with_result : Ended × S → Finished Bool × S
  with_result (done, st) = (finished true, st)
  with_result (canceled, st) = (finished false, st)
  with_result (deadline_exceeded, st) = (finished false, st)
  with_result (broken e, st) = (panicked, st)

  -- `Lock`, `Unlock`, `Close` and `TryLock`
  unfoldable pub lock : TryMutex X N → S → Finished (Unit {0}) × S
  unfolding without_result
  lock m st = without_result (lock_mutex m.sess m.mtx (ctx_or m.ctx m.lock_ctx) st)

  unfoldable pub unlock : TryMutex X N → S → Finished (Unit {0}) × S
  unfolding without_result
  unlock m st = without_result (unlock_mutex m.sess m.mtx (ctx_or m.ctx m.unlock_ctx) st)

  unfoldable pub close_mutex : TryMutex X N → S → Option Error × S
  close_mutex m st = close_session m.sess st

  unfoldable pub try_lock : TryMutex X N → ℤ → S → Finished Bool × S
  unfolding with_result
  try_lock m timeout st =
      let ctx = ctx_or m.ctx m.try_lock_ctx in
      with_result
        (lock_mutex m.sess m.mtx (if is_positive timeout then with_timeout ctx timeout else ctx) st)
