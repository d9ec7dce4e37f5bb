-- ===== src/Mock/Provider.antt =====
-- mock/provider/provider.go: the plug-in of the mock service.
pub mod Guard
use gocsi.Base.{true, none, List, [], ◌∷◌, ◌++◌, Text, text}
use gocsi.Plugin.EnvVars
use gocsi.Plugin.Serve.{Setup}

-- `service.SupportedVersions`
abbrev pub supported_versions : Text
supported_versions = text "0.1.0, 0.2.0, 1.0.0, 1.1.0"

-- `EnvVars`
abbrev pub env_vars : List Text
env_vars =
    (EnvVars.serial_vol_access ++ text "=true")
    ∷ (EnvVars.spec_validation ++ text "=true")
    ∷ (EnvVars.require_node_id ++ text "=true")
    ∷ (EnvVars.require_pub_vol_info ++ text "=true")
    ∷ (EnvVars.supported_versions ++ (text "=" ++ supported_versions))
    ∷ []

-- `New`: a plug-in with the fields of this one, on what another one runs on.
abbrev pub new_plugin : {U D P S : Type 0} → Setup U D P S → Setup U D P S
new_plugin p = record p {
  before_serve = λ is st. ((is, none), st);
  env_vars = env_vars;
  interceptors = [];
  services = record { has_identity = true; has_controller = true; has_node = true };
  versions = [];
  info = record { name = []; vendor_version = []; manifest = none };
}
