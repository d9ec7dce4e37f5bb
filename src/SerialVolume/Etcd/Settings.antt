-- ===== src/SerialVolume/Etcd/Settings.antt =====
-- What initConfig reads out of the environment.
use gocsi.Base.{
  ◌≡◌, ◌↔◌, refl, ap, ◌∙◌, arith, ℤ, pos, Bool, true, false, Option, none, some, [], ◌∷◌, Text,
  atoi,
}
use gocsi.Context.{or_empty, parse_bool}
use gocsi.Status.{Error, Attempt, got, failed, ◌>>=◌}
use gocsi.SerialVolume.Etcd.EnvVars
use gocsi.SerialVolume.Etcd.{
  Config, split_endpoints, duration_field, size_field, bool_field, tls_config, tls_field,
  init_config,
}

-- The number that a variable stands for: 0 where it is empty.
abbrev pub IsNumber : (Text → Option ℤ) → Text → ℤ → Type 0
IsNumber parse [] n = n ≡ pos 0
IsNumber parse (c ∷ v) n = parse (c ∷ v) ≡ some n

-- The flag that a variable stands for: false where it is not set.
abbrev pub IsFlag : Option Text → Bool → Type 0
IsFlag none b = b ≡ false
IsFlag (some v) b = parse_bool v ≡ some b

-- The TLS configuration: none unless it is wanted, and else the flag of the other variable.
abbrev pub IsTls : Option Text → Option Text → Option Bool → Type 0
IsTls wanted insecure none = IsFlag wanted false
IsTls wanted insecure (some b) = IsFlag wanted true × IsFlag insecure b

module _ (parse_duration : Text → Option ℤ) (env : Text → Option Text) where
  pub record IsConfig (c : Config) : Type 0 where
    pub endpoints : c.endpoints ≡ split_endpoints (or_empty (env EnvVars.endpoints))
    pub auto_sync_interval :
        IsNumber parse_duration (or_empty (env EnvVars.auto_sync_interval)) c.auto_sync_interval
    pub dial_keep_alive_time :
        IsNumber parse_duration (or_empty (env EnvVars.dial_keep_alive_time)) c.dial_keep_alive_time
    pub dial_keep_alive_timeout :
        IsNumber parse_duration
          (or_empty (env EnvVars.dial_keep_alive_timeout))
          c.dial_keep_alive_timeout
    pub dial_timeout : IsNumber parse_duration (or_empty (env EnvVars.dial_timeout)) c.dial_timeout
    pub max_call_recv_msg_size :
        IsNumber atoi (or_empty (env EnvVars.max_call_recv_msg_sz)) c.max_call_recv_msg_size
    pub max_call_send_msg_size :
        IsNumber atoi (or_empty (env EnvVars.max_call_send_msg_sz)) c.max_call_send_msg_size
    pub username : c.username ≡ or_empty (env EnvVars.username)
    pub password : c.password ≡ or_empty (env EnvVars.password)
    pub reject_old_cluster : IsFlag (env EnvVars.reject_old_cluster) c.reject_old_cluster
    pub tls : IsTls (env EnvVars.tls) (env EnvVars.tls_insecure) c.tls

>>=-eq-got :
    {A B : Type 0} (m : Attempt A) (f : A → Attempt B) {b : B}
    → (m >>= f) ≡ got b
    → (a : A) × (m ≡ got a) × (f a ≡ got b)
>>=-eq-got (got a) f h = (a, refl, h)
>>=-eq-got (failed e) f h = cc

module _ (parse_duration : Text → Option ℤ) (number_error : Text → Error) where
  duration_field_iff :
      (v : Text) (n : ℤ)
      → (duration_field parse_duration number_error v ≡ got n) ↔ IsNumber parse_duration v n
  unfolding duration_field
  duration_field_iff [] n = ground arith
  duration_field_iff (c ∷ v) n = ground arith

  size_field_iff :
      (v : Text) (n : ℤ) → (size_field parse_duration number_error v ≡ got n) ↔ IsNumber atoi v n
  unfolding size_field
  size_field_iff [] n = ground arith
  size_field_iff (c ∷ v) n = ground arith

  bool_field_iff :
      (v : Option Text) (b : Bool) → (bool_field parse_duration number_error v ≡ got b) ↔ IsFlag v b
  unfolding bool_field
  bool_field_iff none b = ground arith
  bool_field_iff (some v) b = ground arith

  tls_config-IsTls :
      (env : Text → Option Text) (wanted : Bool) (t : Option Bool)
      → IsFlag (env EnvVars.tls) wanted
      → tls_config parse_duration number_error env wanted ≡ got t
      → IsTls (env EnvVars.tls) (env EnvVars.tls_insecure) t
  unfolding tls_config
  tls_config-IsTls env false none h e = h
  tls_config-IsTls env false (some b) h e = absurd (cc)
  tls_config-IsTls env true none h e =
      let (b, eb, e') =
        >>=-eq-got (bool_field parse_duration number_error (env EnvVars.tls_insecure)) _ e in
      absurd (cc)
  tls_config-IsTls env true (some b) h e =
      let (b', eb, e') =
        >>=-eq-got (bool_field parse_duration number_error (env EnvVars.tls_insecure)) _ e in
      (h, (bool_field_iff (env EnvVars.tls_insecure) b).0 (eb ∙ cc))

  tls_field-IsTls :
      (env : Text → Option Text) (t : Option Bool)
      → tls_field parse_duration number_error env ≡ got t
      → IsTls (env EnvVars.tls) (env EnvVars.tls_insecure) t
  unfolding tls_field
  tls_field-IsTls env t e =
      let (w, ew, e') = >>=-eq-got (bool_field parse_duration number_error (env EnvVars.tls)) _ e in
      tls_config-IsTls env w t ((bool_field_iff (env EnvVars.tls) w).0 ew) e'

  IsTls-tls_field :
      (env : Text → Option Text) (t : Option Bool)
      → IsTls (env EnvVars.tls) (env EnvVars.tls_insecure) t
      → tls_field parse_duration number_error env ≡ got t
  unfolding tls_field tls_config
  IsTls-tls_field env none h = rw ((bool_field_iff (env EnvVars.tls) false).1 h) refl
  IsTls-tls_field env (some b) (h, k) =
      rw ((bool_field_iff (env EnvVars.tls) true).1 h)
        (rw ((bool_field_iff (env EnvVars.tls_insecure) b).1 k) refl)

  IsConfig-init_config :
      (env : Text → Option Text) (c : Config)
      → IsConfig parse_duration env c
      → init_config parse_duration number_error env ≡ got c
  unfolding init_config
  IsConfig-init_config env c k = rw ((duration_field_iff _ _).1 k.auto_sync_interval) (
      rw ((duration_field_iff _ _).1 k.dial_keep_alive_time) (
        rw ((duration_field_iff _ _).1 k.dial_keep_alive_timeout) (
          rw ((duration_field_iff _ _).1 k.dial_timeout) (
            rw ((size_field_iff _ _).1 k.max_call_recv_msg_size) (
              rw ((size_field_iff _ _).1 k.max_call_send_msg_size) (
                rw ((bool_field_iff _ _).1 k.reject_old_cluster)
                  (rw (IsTls-tls_field env c.tls k.tls) (ground arith))))))))

  init_config-IsConfig :
      (env : Text → Option Text) (c : Config)
      → init_config parse_duration number_error env ≡ got c
      → IsConfig parse_duration env c
  unfolding init_config
  init_config-IsConfig env c h =
      let (a1, e1, h1) =
        >>=-eq-got
          (duration_field parse_duration number_error (or_empty (env EnvVars.auto_sync_interval))) _
          h in
      let (a2, e2, h2) =
        >>=-eq-got
          (duration_field parse_duration number_error (or_empty (env EnvVars.dial_keep_alive_time)))
          _ h1 in
      let (a3, e3, h3) =
        >>=-eq-got
          (duration_field parse_duration number_error
            (or_empty (env EnvVars.dial_keep_alive_timeout)))
          _ h2 in
      let (a4, e4, h4) =
        >>=-eq-got
          (duration_field parse_duration number_error (or_empty (env EnvVars.dial_timeout))) _ h3 in
      let (a5, e5, h5) =
        >>=-eq-got
          (size_field parse_duration number_error (or_empty (env EnvVars.max_call_recv_msg_sz))) _
          h4 in
      let (a6, e6, h6) =
        >>=-eq-got
          (size_field parse_duration number_error (or_empty (env EnvVars.max_call_send_msg_sz))) _
          h5 in
      let (a7, e7, h7) =
        >>=-eq-got (bool_field parse_duration number_error (env EnvVars.reject_old_cluster)) _ h6 in
      let (a8, e8, h8) = >>=-eq-got (tls_field parse_duration number_error env) _ h7 in
      record {
        endpoints = ground arith;
        auto_sync_interval = (duration_field_iff _ _).0 (e1 ∙ ap got (ground arith));
        dial_keep_alive_time = (duration_field_iff _ _).0 (e2 ∙ ap got (ground arith));
        dial_keep_alive_timeout = (duration_field_iff _ _).0 (e3 ∙ ap got (ground arith));
        dial_timeout = (duration_field_iff _ _).0 (e4 ∙ ap got (ground arith));
        max_call_recv_msg_size = (size_field_iff _ _).0 (e5 ∙ ap got (ground arith));
        max_call_send_msg_size = (size_field_iff _ _).0 (e6 ∙ ap got (ground arith));
        username = ground arith;
        password = ground arith;
        reject_old_cluster = (bool_field_iff _ _).0 (e7 ∙ ap got (ground arith));
        tls = tls_field-IsTls env c.tls (e8 ∙ ap got (ground arith));
      }

  -- initConfig succeeds exactly when each variable that has a value can be parsed, the one on the
  -- verification of TLS only where TLS is wanted, and the configuration then has these values; an
  -- empty variable leaves its number at 0 and its text empty, and one that is not set its flag at
  -- false.
  pub init_config-got_iff :
      (env : Text → Option Text) (c : Config)
      → (init_config parse_duration number_error env ≡ got c) ↔ IsConfig parse_duration env c
  init_config-got_iff env c = (init_config-IsConfig env c, IsConfig-init_config env c)
