-- ===== src/SpecValidator.antt =====
-- middleware/specvalidator/spec_validator.go: the options of the interceptor. The checks and the
-- handlers are in the modules below.
pub mod Fields
pub mod Capabilities
pub mod Patterns
pub mod Errors
pub mod Requests
pub mod Responses
pub mod Handle
pub mod Options
use mathlib.Core.List.{foldl}
use gocsi.Base.{Bool, true, false, List, [], ◌∷◌, ◌||◌, Text, ◌==◌, if◌then◌else◌}
use gocsi.Status.{
  create_volume, delete_volume, controller_publish_volume, controller_unpublish_volume,
  node_publish_volume, node_unpublish_volume,
}
use gocsi.Csi.{Version}
use gocsi.Utils.Methods.{method_name}

-- The mutex only guards `requires_credentials`, a set of full method names.
pub record Opts : Type 0 where
  pub supported_versions : List Version
  pub req_validation : Bool
  pub rep_validation : Bool
  pub requires_node_id : Bool
  pub requires_pub_vol_info : Bool
  pub requires_vol_attribs : Bool
  pub requires_credentials : List Text

abbrev pub no_opts : Opts
no_opts = record {
  supported_versions = [];
  req_validation = false;
  rep_validation = false;
  requires_node_id = false;
  requires_pub_vol_info = false;
  requires_vol_attribs = false;
  requires_credentials = [];
}

abbrev pub contains : List Text → Text → Bool
contains [] m = false
contains (x ∷ xs) m = m == x || contains xs m

require_credentials : Text → Opts → Opts
require_credentials m o = record o {
  requires_credentials =
      if contains o.requires_credentials m
      then o.requires_credentials
      else m ∷ o.requires_credentials;
}

-- The functions that return an `Option`, each by what it does to the options.
pub data WithOption : Type 0 where
  supported_versions : List Version → WithOption
  request_validation response_validation : WithOption
  requires_node_id requires_publish_volume_info requires_volume_attributes : WithOption
  requires_create_volume_credentials requires_delete_volume_credentials : WithOption
  requires_controller_publish_volume_credentials : WithOption
  requires_controller_unpublish_volume_credentials : WithOption
  requires_node_publish_volume_credentials requires_node_unpublish_volume_credentials : WithOption

unfoldable pub with_option : Opts → WithOption → Opts
unfolding require_credentials
with_option o (supported_versions vs) = record o { supported_versions = vs }
with_option o request_validation = record o { req_validation = true }
with_option o response_validation = record o { rep_validation = true }
with_option o requires_node_id = record o { requires_node_id = true }
with_option o requires_publish_volume_info = record o { requires_pub_vol_info = true }
with_option o requires_volume_attributes = record o { requires_vol_attribs = true }
with_option o requires_create_volume_credentials = require_credentials (method_name create_volume) o
with_option o requires_delete_volume_credentials = require_credentials (method_name delete_volume) o
with_option o requires_controller_publish_volume_credentials =
    require_credentials (method_name controller_publish_volume) o
with_option o requires_controller_unpublish_volume_credentials =
    require_credentials (method_name controller_unpublish_volume) o
with_option o requires_node_publish_volume_credentials =
    require_credentials (method_name node_publish_volume) o
with_option o requires_node_unpublish_volume_credentials =
    require_credentials (method_name node_unpublish_volume) o

-- `newSpecValidator`
unfoldable pub new_spec_validator : List WithOption → Opts
unfolding with_option
new_spec_validator opts = foldl with_option no_opts opts
