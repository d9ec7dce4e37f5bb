-- ===== src/Csc/Interceptors.antt =====
-- csc/cmd/interceptors.go, and the debug mode in csc/cmd/root.go: the interceptors that the client's
-- flags ask for.
pub mod Client
pub mod Laws
use gocsi.Base.{Bool, true, false, List, [], ◌∷◌, ◌++◌, ◌||◌, if◌then◌else◌}
use gocsi.SpecValidator.{
  WithOption, requires_node_id, requires_publish_volume_info, requires_volume_attributes,
  requires_create_volume_credentials, requires_delete_volume_credentials,
  requires_controller_publish_volume_credentials, requires_controller_unpublish_volume_credentials,
  requires_node_publish_volume_credentials, requires_node_unpublish_volume_credentials,
}

-- The flags of the root command that choose its interceptors.
pub record Flags : Type 0 where
  pub with_req_logging : Bool
  pub with_rep_logging : Bool
  pub with_spec_validator : Bool
  pub with_requires_creds : Bool
  pub with_requires_node_id : Bool
  pub with_requires_pub_vol_info : Bool
  pub with_requires_volume_attributes : Bool

-- What debug mode sets; the source assigns the same flag twice.
unfoldable pub debug_flags : Bool → Flags → Flags
debug_flags debug f = if debug then record f { with_req_logging = true } else f

-- An interceptor of the client, with what it is built from.
pub data ClientInstalled : Type 0 where
  request_id_injector : ClientInstalled
  client_logger : (req rep : Bool) → ClientInstalled
  client_spec_validator : List WithOption → ClientInstalled

abbrev all_if {ℓ} : {A : Type ℓ} → Bool → List A → List A
all_if b l = if b then l else []

abbrev creds_opts : List WithOption
creds_opts =
    requires_create_volume_credentials ∷ requires_delete_volume_credentials
    ∷ requires_controller_publish_volume_credentials
    ∷ requires_controller_unpublish_volume_credentials ∷ requires_node_publish_volume_credentials
    ∷ requires_node_unpublish_volume_credentials ∷ []

-- `specOpts`
unfoldable pub client_spec_opts : Flags → List WithOption
client_spec_opts f =
    all_if f.with_requires_creds creds_opts
    ++ (all_if f.with_requires_node_id (requires_node_id ∷ [])
        ++ (all_if f.with_requires_pub_vol_info (requires_publish_volume_info ∷ [])
            ++ all_if f.with_requires_volume_attributes (requires_volume_attributes ∷ [])))

-- `root.withSpecValidator`, which each requirement turns on.
unfoldable pub wants_spec_validator : Flags → Bool
wants_spec_validator f =
    f.with_spec_validator
    || (f.with_requires_creds
        || (f.with_requires_node_id
            || (f.with_requires_pub_vol_info || f.with_requires_volume_attributes)))

-- The request ID injector and the logger.
unfoldable pub logging_interceptors : Flags → List ClientInstalled
logging_interceptors f =
    all_if (f.with_req_logging || f.with_rep_logging)
      (request_id_injector ∷ client_logger f.with_req_logging f.with_rep_logging ∷ [])

-- `iceptors`
unfoldable pub client_interceptors : Flags → List ClientInstalled
unfolding logging_interceptors wants_spec_validator client_spec_opts
client_interceptors f =
    logging_interceptors f
    ++ all_if (wants_spec_validator f) (client_spec_validator (client_spec_opts f) ∷ [])
