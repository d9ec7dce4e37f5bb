-- ===== src/SerialVolume/Etcd.antt =====
-- middleware/serialvolume/etcd/etcd_lock_provider.go: the configuration of the etcd client. A duration
-- is its number of nanoseconds; `parse_duration` is time.ParseDuration, and `number_error` the error
-- of a value that package time or strconv cannot parse.
pub mod EnvVars
pub mod Settings
pub mod Client
pub mod Paths
use gocsi.SerialVolume.Etcd.EnvVars
use gocsi.Base.{
  ℤ, pos, Bool, true, false, Option, none, some, List, [], Text, is_empty, split, atoi,
  if◌then◌else◌,
}
use gocsi.Context.{or_empty, parse_bool}
use gocsi.Status.{Error, Attempt, failed, got, ◌>>=◌}

-- The fields of `etcd.Config` that the provider sets; `tls` is the flag InsecureSkipVerify of the TLS
-- configuration, if there is one.
pub record Config : Type 0 where
  pub endpoints : List Text
  pub auto_sync_interval : ℤ
  pub dial_keep_alive_time : ℤ
  pub dial_keep_alive_timeout : ℤ
  pub dial_timeout : ℤ
  pub max_call_recv_msg_size : ℤ
  pub max_call_send_msg_size : ℤ
  pub username : Text
  pub password : Text
  pub reject_old_cluster : Bool
  pub tls : Option Bool

-- Without a value there are no endpoints.
abbrev pub split_endpoints : Text → List Text
split_endpoints v = if is_empty v then [] else split b',' v

module _ (parse_duration : Text → Option ℤ) (number_error : Text → Error) where
  abbrev or_error {ℓ} : {A : Type ℓ} → Text → Option A → Attempt A
  or_error v none = failed (number_error v)
  or_error v (some a) = got a

  -- A variable that is empty leaves the field at 0.
  unfoldable pub duration_field : Text → Attempt ℤ
  duration_field v = if is_empty v then got (pos 0) else or_error v (parse_duration v)

  unfoldable pub size_field : Text → Attempt ℤ
  size_field v = if is_empty v then got (pos 0) else or_error v (atoi v)

  unfoldable pub bool_field : Option Text → Attempt Bool
  bool_field none = got false
  bool_field (some v) = or_error v (parse_bool v)

  -- The TLS configuration, if it is wanted.
  tls_config : (Text → Option Text) → Bool → Attempt (Option Bool)
  unfolding bool_field
  tls_config env false = got none
  tls_config env true = do insecure ← bool_field (env EnvVars.tls_insecure); got (some insecure)

  tls_field : (Text → Option Text) → Attempt (Option Bool)
  unfolding bool_field tls_config
  tls_field env = do wanted ← bool_field (env EnvVars.tls); tls_config env wanted

  -- `initConfig`
  unfoldable pub init_config : (Text → Option Text) → Attempt Config
  unfolding duration_field size_field bool_field tls_field
  init_config env = do
    auto_sync ← duration_field (or_empty (env EnvVars.auto_sync_interval))
    keep_alive ← duration_field (or_empty (env EnvVars.dial_keep_alive_time))
    keep_alive_timeout ← duration_field (or_empty (env EnvVars.dial_keep_alive_timeout))
    dial ← duration_field (or_empty (env EnvVars.dial_timeout))
    recv ← size_field (or_empty (env EnvVars.max_call_recv_msg_sz))
    send ← size_field (or_empty (env EnvVars.max_call_send_msg_sz))
    reject ← bool_field (env EnvVars.reject_old_cluster)
    insecure ← tls_field env
    got (record {
      endpoints = split_endpoints (or_empty (env EnvVars.endpoints));
      auto_sync_interval = auto_sync;
      dial_keep_alive_time = keep_alive;
      dial_keep_alive_timeout = keep_alive_timeout;
      dial_timeout = dial;
      max_call_recv_msg_size = recv;
      max_call_send_msg_size = send;
      username = or_empty (env EnvVars.username);
      password = or_empty (env EnvVars.password);
      reject_old_cluster = reject;
      tls = insecure;
    })
