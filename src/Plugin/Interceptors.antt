-- ===== src/Plugin/Interceptors.antt =====
-- middleware.go: `initInterceptors`. A variable is read by a function `env`, which is `LookupEnv` in
-- the plug-in's context and environment. `parse_duration` is that of package time.
pub mod Laws
pub mod Form
use gocsi.Base.{
  Bool, true, false, not, Option, none, some, List, [], ◌∷◌, ◌++◌, ◌||◌, Text, is_empty,
  if◌then◌else◌,
}
use gocsi.Csi.{Version}
use gocsi.Context.{or_empty, parse_bool}
use gocsi.SpecValidator.{
  WithOption, supported_versions, request_validation, response_validation, requires_node_id,
  requires_publish_volume_info, requires_volume_attributes, requires_create_volume_credentials,
  requires_delete_volume_credentials, requires_controller_publish_volume_credentials,
  requires_controller_unpublish_volume_credentials, requires_node_publish_volume_credentials,
  requires_node_unpublish_volume_credentials,
}
use gocsi.Plugin.{or_false, env_bool}
use gocsi.Plugin.EnvVars

-- The variables of the first `var` block.
pub record Switches : Type 0 where
  pub req_logging : Bool
  pub rep_logging : Bool
  pub serial_vol : Bool
  pub spec : Bool
  pub node_id : Bool
  pub pub_vol_info : Bool
  pub vol_attribs : Bool
  pub creds : Bool
  pub creds_new_vol : Bool
  pub creds_del_vol : Bool
  pub creds_ctrlr_pub_vol : Bool
  pub creds_ctrlr_unpub_vol : Bool
  pub creds_node_pub_vol : Bool
  pub creds_node_unpub_vol : Bool

-- The interceptors that may be installed, with their settings: the serial access has a timeout, if one
-- is set, and the provider of etcd, if there is one, in place of the one in memory.
pub data Installed (D P : Type 0) : Type 0 where
  inject_context : Installed D P
  request_id : Installed D P
  logger : (req rep : Bool) → Installed D P
  spec_validator : List WithOption → Installed D P
  plugin_info : Installed D P
  known_versions : Installed D P
  serial_volume : (timeout : Option D) (provider : Option P) → Installed D P

-- `log.Fatal` ends the process.
pub data Initialised (A : Type 0) : Type 0 where
  ready : A → Initialised A
  exits : Initialised A

-- What `etcd.New` returns.
pub data Created (P : Type 0) : Type 0 where
  created : P → Created P
  failed : Created P

-- `if b { l = append(l, x) }`
abbrev pub when {ℓ} : {A : Type ℓ} → Bool → A → List A
when true x = x ∷ []
when false x = []

unfoldable pub read_switches : (Text → Option Text) → Switches
read_switches env = record {
  req_logging = env_bool (env EnvVars.req_logging);
  rep_logging = env_bool (env EnvVars.rep_logging);
  serial_vol = env_bool (env EnvVars.serial_vol_access);
  spec = env_bool (env EnvVars.spec_validation);
  node_id = env_bool (env EnvVars.require_node_id);
  pub_vol_info = env_bool (env EnvVars.require_pub_vol_info);
  vol_attribs = env_bool (env EnvVars.require_vol_attribs);
  creds = env_bool (env EnvVars.creds);
  creds_new_vol = env_bool (env EnvVars.creds_create_vol);
  creds_del_vol = env_bool (env EnvVars.creds_delete_vol);
  creds_ctrlr_pub_vol = env_bool (env EnvVars.creds_ctrlr_pub_vol);
  creds_ctrlr_unpub_vol = env_bool (env EnvVars.creds_ctrlr_unpub_vol);
  creds_node_pub_vol = env_bool (env EnvVars.creds_node_pub_vol);
  creds_node_unpub_vol = env_bool (env EnvVars.creds_node_unpub_vol);
}

-- The general option enables all of the requirements.
unfoldable pub with_all_creds : Switches → Switches
with_all_creds s =
    if s.creds
    then record s {
      creds_new_vol = true;
      creds_del_vol = true;
      creds_ctrlr_pub_vol = true;
      creds_ctrlr_unpub_vol = true;
      creds_node_pub_vol = true;
      creds_node_unpub_vol = true;
    }
    else s

-- `if v, ok := LookupEnv(…); ok { b, _ = strconv.ParseBool(v) }`
abbrev pub override : Option Text → Bool → Bool
override none b = b
override (some v) b = or_false (parse_bool v)

unfoldable pub with_spec_req : (Text → Option Text) → Switches → Bool
with_spec_req env s =
    override (env EnvVars.spec_req_validation)
      (if not s.spec then s.creds || (s.node_id || (s.pub_vol_info || s.vol_attribs)) else s.spec)

unfoldable pub with_spec_rep : (Text → Option Text) → Switches → Bool
with_spec_rep env s = override (env EnvVars.spec_rep_validation) s.spec

abbrev pub is_nonempty : List Version → Bool
is_nonempty [] = false
is_nonempty (v ∷ vs) = true

-- The options of the validator.
unfoldable pub spec_opts : Bool → Bool → List Version → Switches → List WithOption
spec_opts req rep vs s =
    when req request_validation
    ++ (when rep response_validation
        ++ (when (is_nonempty vs) (supported_versions vs)
            ++ (when s.creds_new_vol requires_create_volume_credentials
                ++ (when s.creds_del_vol requires_delete_volume_credentials
                    ++ (when s.creds_ctrlr_pub_vol requires_controller_publish_volume_credentials
                        ++ (when s.creds_ctrlr_unpub_vol
                              requires_controller_unpublish_volume_credentials
                            ++ (when s.creds_node_pub_vol requires_node_publish_volume_credentials
                                ++ (when s.creds_node_unpub_vol
                                      requires_node_unpublish_volume_credentials
                                    ++ (when s.node_id requires_node_id
                                        ++ (when s.pub_vol_info requires_publish_volume_info
                                            ++ when s.vol_attribs
                                                requires_volume_attributes))))))))))

abbrev pub is_set : Option Text → Bool
is_set none = false
is_set (some v) = true

module _ {D P : Type 0} where
  -- The interceptors of the other parts, in the order in which they are appended.
  unfoldable pub before_serial :
      (Text → Option Text) → List Version → Switches → List (Installed D P)
  unfolding with_spec_req with_spec_rep spec_opts
  before_serial env vs s =
      let logging = s.req_logging || s.rep_logging in
      let req = with_spec_req env s in
      let rep = with_spec_rep env s in
      inject_context
      ∷ (when logging request_id
          ++ (when logging (logger s.req_logging s.rep_logging)
              ++ (when (req || rep) (spec_validator (spec_opts req rep vs s))
                  ++ (when (is_set (env EnvVars.plugin_info)) plugin_info
                      ++ when (is_nonempty vs) known_versions))))

module _ {D P : Type 0} (parse_duration : Text → Option D) (new_etcd : Created P) where
  -- The timeout: an empty value, or one that cannot be parsed, sets none.
  unfoldable pub serial_timeout : Text → Option D
  serial_timeout v = if is_empty v then none else parse_duration v

  with_provider : List (Installed D P) → Option D → Created P → Initialised (List (Installed D P))
  with_provider l t failed = exits
  with_provider l t (created p) = ready (l ++ serial_volume t (some p) ∷ [])

  -- The last part: serial access to the volumes.
  add_serial :
      (Text → Option Text) → Bool → List (Installed D P) → Initialised (List (Installed D P))
  unfolding serial_timeout with_provider
  add_serial env false l = ready l
  add_serial env true l =
      let t = serial_timeout (or_empty (env EnvVars.serial_vol_access_timeout)) in
      if is_empty (or_empty (env EnvVars.serial_vol_access_etcd_endpoints))
      then ready (l ++ serial_volume t none ∷ [])
      else with_provider l t new_etcd

  -- `initInterceptors`: what it appends to the plug-in's interceptors.
  unfoldable pub init_interceptors :
      (Text → Option Text) → List Version → Initialised (List (Installed D P))
  unfolding before_serial add_serial read_switches with_all_creds
  init_interceptors env vs =
      let s = with_all_creds (read_switches env) in
      add_serial env s.serial_vol (before_serial env vs s)
