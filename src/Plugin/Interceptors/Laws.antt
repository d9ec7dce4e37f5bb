-- ===== src/Plugin/Interceptors/Laws.antt =====
-- The settings of the validator, and the order of the interceptors.
use gocsi.Base.{
  ◌≡◌, refl, ◌∙◌, arith, Bool, true, false, List, [], ◌∷◌, ◌++◌, ◌||◌, ◌&&◌, text, ◌==◌,
}
use gocsi.Csi.{Version}
use gocsi.Status.{
  Rpc, create_volume, delete_volume, controller_publish_volume, controller_unpublish_volume,
  node_publish_volume, node_unpublish_volume,
}
use gocsi.Utils.Methods.{method_name}
use gocsi.SpecValidator.{
  Opts, contains, WithOption, supported_versions, request_validation, response_validation,
  requires_node_id, requires_publish_volume_info, requires_volume_attributes,
  requires_create_volume_credentials, requires_delete_volume_credentials,
  requires_controller_publish_volume_credentials, requires_controller_unpublish_volume_credentials,
  requires_node_publish_volume_credentials, requires_node_unpublish_volume_credentials,
  new_spec_validator,
}
use gocsi.SpecValidator.Options.{
  has, has-append, requires_for, requires_credentials-has, is_request_validation,
  is_response_validation, is_node_id, is_publish_volume_info, is_volume_attributes,
  req_validation-has, rep_validation-has, requires_node_id-has, requires_pub_vol_info-has,
  requires_vol_attribs-has, versions_of, supported_versions-versions_of,
}
use gocsi.Plugin.Interceptors.{Switches, when, is_nonempty, spec_opts}

-- The switch for the credentials of an RPC; other RPCs have none.
abbrev pub creds_for : Switches → Rpc → Bool
creds_for s create_volume = s.creds_new_vol
creds_for s delete_volume = s.creds_del_vol
creds_for s controller_publish_volume = s.creds_ctrlr_pub_vol
creds_for s controller_unpublish_volume = s.creds_ctrlr_unpub_vol
creds_for s node_publish_volume = s.creds_node_pub_vol
creds_for s node_unpublish_volume = s.creds_node_unpub_vol
creds_for s _ = false

-- The settings that the switches ask for.
pub record Configured (req rep : Bool) (vs : List Version) (s : Switches) (o : Opts) : Type 0 where
  pub versions : o.supported_versions ≡ vs
  pub requests : o.req_validation ≡ req
  pub responses : o.rep_validation ≡ rep
  pub node_id : o.requires_node_id ≡ s.node_id
  pub pub_vol_info : o.requires_pub_vol_info ≡ s.pub_vol_info
  pub vol_attribs : o.requires_vol_attribs ≡ s.vol_attribs
  pub credentials : (k : Rpc) → contains o.requires_credentials (method_name k) ≡ creds_for s k

has-when : (p : WithOption → Bool) (b : Bool) (x : WithOption) → has p (when b x) ≡ (b && p x)
has-when p b x = ground arith

-- The options one by one.
has-spec_opts :
    (p : WithOption → Bool) (req rep : Bool) (vs : List Version) (s : Switches)
    → has p (spec_opts req rep vs s) ≡ (
        (req && p request_validation)
        || ((rep && p response_validation)
            || ((is_nonempty vs && p (supported_versions vs))
                || ((s.creds_new_vol && p requires_create_volume_credentials)
                    || ((s.creds_del_vol && p requires_delete_volume_credentials)
                        || ((s.creds_ctrlr_pub_vol
                              && p requires_controller_publish_volume_credentials)
                            || ((s.creds_ctrlr_unpub_vol
                                  && p requires_controller_unpublish_volume_credentials)
                                || ((s.creds_node_pub_vol
                                      && p requires_node_publish_volume_credentials)
                                    || ((s.creds_node_unpub_vol
                                          && p requires_node_unpublish_volume_credentials)
                                        || ((s.node_id && p requires_node_id)
                                            || ((s.pub_vol_info && p requires_publish_volume_info)
                                                || (s.vol_attribs
                                                    && p requires_volume_attributes))))))))))))
unfolding spec_opts
has-spec_opts p req rep vs s = simp (has-append, has-when)

abbrev is_plain : WithOption → Bool
is_plain (supported_versions vs) = false
is_plain _ = true

versions_of-when :
    (b : Bool) (x : WithOption) (vs : List Version) (l : List WithOption)
    → is_plain x ≡ true
    → versions_of vs (when b x ++ l) ≡ versions_of vs l
versions_of-when false x vs l h = refl
versions_of-when true (supported_versions ws) vs l h = cc
versions_of-when true x vs l h = refl

versions_of_last :
    (b : Bool) (x : WithOption) (vs : List Version)
    → is_plain x ≡ true
    → versions_of vs (when b x) ≡ vs
versions_of_last false x vs h = refl
versions_of_last true (supported_versions ws) vs h = cc
versions_of_last true x vs h = refl

versions_of_given :
    (vs : List Version) (l : List WithOption)
    → versions_of [] (when (is_nonempty vs) (supported_versions vs) ++ l) ≡ versions_of vs l
versions_of_given [] l = refl
versions_of_given (v ∷ vs) l = refl

versions_of-spec_opts :
    (req rep : Bool) (vs : List Version) (s : Switches)
    → versions_of [] (spec_opts req rep vs s) ≡ vs
unfolding spec_opts
versions_of-spec_opts req rep vs s =
    versions_of-when req _ [] _ refl
    ∙ versions_of-when rep _ [] _ refl
    ∙ versions_of_given vs _
    ∙ versions_of-when s.creds_new_vol _ vs _ refl
    ∙ versions_of-when s.creds_del_vol _ vs _ refl
    ∙ versions_of-when s.creds_ctrlr_pub_vol _ vs _ refl
    ∙ versions_of-when s.creds_ctrlr_unpub_vol _ vs _ refl
    ∙ versions_of-when s.creds_node_pub_vol _ vs _ refl
    ∙ versions_of-when s.creds_node_unpub_vol _ vs _ refl
    ∙ versions_of-when s.node_id _ vs _ refl
    ∙ versions_of-when s.pub_vol_info _ vs _ refl
    ∙ versions_of_last s.vol_attribs _ vs refl

and_true : (b : Bool) → (b && true) ≡ b
and_true b = ground arith

and_false : (b : Bool) → (b && false) ≡ false
and_false b = ground arith

or_false : (b : Bool) → (b || false) ≡ b
or_false b = ground arith

ruleset tests = (and_true, and_false, or_false)

creds_lem :
    (req rep : Bool) (vs : List Version) (s : Switches) (k : Rpc)
    → has (requires_for (method_name k)) (spec_opts req rep vs s) ≡ creds_for s k
unfolding method_name text ◌==◌
creds_lem req rep vs s create_volume = rw has-spec_opts (simp tests)
creds_lem req rep vs s _ = rw has-spec_opts (simp tests)

module _ (req rep : Bool) (vs : List Version) (s : Switches) where
  -- The validator that is installed checks requests and responses as it is told to, has the versions
  -- that it is given, and requires the node ID, the publish volume info, the volume attributes, and
  -- the credentials of each RPC exactly where the switches say so.
  pub new_spec_validator-Configured :
      Configured req rep vs s (new_spec_validator (spec_opts req rep vs s))
  new_spec_validator-Configured = record {
    versions = supported_versions-versions_of _ ∙ versions_of-spec_opts req rep vs s;
    requests = req_validation-has _ ∙ has-spec_opts is_request_validation req rep vs s ∙ simp tests;
    responses =
        rep_validation-has _ ∙ has-spec_opts is_response_validation req rep vs s ∙ simp tests;
    node_id = requires_node_id-has _ ∙ has-spec_opts is_node_id req rep vs s ∙ simp tests;
    pub_vol_info =
        requires_pub_vol_info-has _
        ∙ has-spec_opts is_publish_volume_info req rep vs s
        ∙ simp tests;
    vol_attribs =
        requires_vol_attribs-has _ ∙ has-spec_opts is_volume_attributes req rep vs s ∙ simp tests;
    credentials = λ k. requires_credentials-has _ (method_name k) ∙ creds_lem req rep vs s k;
  }
