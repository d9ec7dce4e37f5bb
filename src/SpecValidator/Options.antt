-- ===== src/SpecValidator/Options.antt =====
-- What a list of options does to the interceptor's settings.
use mathlib.Core.List.{foldl}
use gocsi.Base.{
  ◌≡◌, refl, ap, arith, Bool, true, false, List, [], ◌∷◌, ◌++◌, ◌||◌, Text, ◌==◌, ==_iff,
}
use gocsi.Csi.{Version}
use gocsi.Status.{
  create_volume, delete_volume, controller_publish_volume, controller_unpublish_volume,
  node_publish_volume, node_unpublish_volume,
}
use gocsi.Utils.Methods.{method_name}
use gocsi.SpecValidator.{
  Opts, no_opts, contains, require_credentials, WithOption, supported_versions, request_validation,
  response_validation, requires_node_id, requires_publish_volume_info, requires_volume_attributes,
  requires_create_volume_credentials, requires_delete_volume_credentials,
  requires_controller_publish_volume_credentials, requires_controller_unpublish_volume_credentials,
  requires_node_publish_volume_credentials, requires_node_unpublish_volume_credentials, with_option,
  new_spec_validator,
}

-- Some option of the list is one of these.
abbrev pub has : (WithOption → Bool) → List WithOption → Bool
has p [] = false
has p (x ∷ l) = p x || has p l

pub has-append :
    (p : WithOption → Bool) (l k : List WithOption) → has p (l ++ k) ≡ (has p l || has p k)
has-append p [] k = refl
has-append p (x ∷ l) k = ground (arith, has-append p l k)

-- A setting that each option of a kind turns on, and no other option changes.
flag-foldl :
    (f : Opts → Bool) (p : WithOption → Bool)
    → ((o : Opts) (x : WithOption) → f (with_option o x) ≡ (f o || p x))
    → (o : Opts) (l : List WithOption) → f (foldl with_option o l) ≡ (f o || has p l)
flag-foldl f p h o [] = ground arith
flag-foldl f p h o (x ∷ l) = ground (arith, flag-foldl f p h (with_option o x) l, h o x)

-- The option requires credentials of the method.
abbrev pub requires_for : Text → WithOption → Bool
requires_for m requires_create_volume_credentials = m == method_name create_volume
requires_for m requires_delete_volume_credentials = m == method_name delete_volume
requires_for m requires_controller_publish_volume_credentials =
    m == method_name controller_publish_volume
requires_for m requires_controller_unpublish_volume_credentials =
    m == method_name controller_unpublish_volume
requires_for m requires_node_publish_volume_credentials = m == method_name node_publish_volume
requires_for m requires_node_unpublish_volume_credentials = m == method_name node_unpublish_volume
requires_for m _ = false

contains-require_credentials :
    (o : Opts) (m n : Text)
    → contains (require_credentials n o).requires_credentials m
      ≡ (contains o.requires_credentials m || m == n)
unfolding require_credentials
contains-require_credentials o m n =
    ground (arith, ==_iff m n, λ (e : m ≡ n). ap (contains o.requires_credentials) e)

contains-with_option :
    (m : Text) (o : Opts) (x : WithOption)
    → contains (with_option o x).requires_credentials m
      ≡ (contains o.requires_credentials m || requires_for m x)
unfolding with_option
contains-with_option m o requires_create_volume_credentials = contains-require_credentials o m _
contains-with_option m o requires_delete_volume_credentials = contains-require_credentials o m _
contains-with_option m o requires_controller_publish_volume_credentials =
    contains-require_credentials o m _
contains-with_option m o requires_controller_unpublish_volume_credentials =
    contains-require_credentials o m _
contains-with_option m o requires_node_publish_volume_credentials =
    contains-require_credentials o m _
contains-with_option m o requires_node_unpublish_volume_credentials =
    contains-require_credentials o m _
contains-with_option m o _ = ground arith

abbrev pub is_request_validation : WithOption → Bool
is_request_validation request_validation = true
is_request_validation _ = false

abbrev pub is_response_validation : WithOption → Bool
is_response_validation response_validation = true
is_response_validation _ = false

abbrev pub is_node_id : WithOption → Bool
is_node_id requires_node_id = true
is_node_id _ = false

abbrev pub is_publish_volume_info : WithOption → Bool
is_publish_volume_info requires_publish_volume_info = true
is_publish_volume_info _ = false

abbrev pub is_volume_attributes : WithOption → Bool
is_volume_attributes requires_volume_attributes = true
is_volume_attributes _ = false

req_validation-with_option :
    (o : Opts) (x : WithOption)
    → (with_option o x).req_validation ≡ (o.req_validation || is_request_validation x)
unfolding with_option require_credentials
req_validation-with_option o x = ground arith

rep_validation-with_option :
    (o : Opts) (x : WithOption)
    → (with_option o x).rep_validation ≡ (o.rep_validation || is_response_validation x)
unfolding with_option require_credentials
rep_validation-with_option o x = ground arith

requires_node_id-with_option :
    (o : Opts) (x : WithOption)
    → (with_option o x).requires_node_id ≡ (o.requires_node_id || is_node_id x)
unfolding with_option require_credentials
requires_node_id-with_option o x = ground arith

requires_pub_vol_info-with_option :
    (o : Opts) (x : WithOption)
    → (with_option o x).requires_pub_vol_info
      ≡ (o.requires_pub_vol_info || is_publish_volume_info x)
unfolding with_option require_credentials
requires_pub_vol_info-with_option o x = ground arith

requires_vol_attribs-with_option :
    (o : Opts) (x : WithOption)
    → (with_option o x).requires_vol_attribs ≡ (o.requires_vol_attribs || is_volume_attributes x)
unfolding with_option require_credentials
requires_vol_attribs-with_option o x = ground arith

module _ (l : List WithOption) where
  pub requires_credentials-has :
      (m : Text) → contains (new_spec_validator l).requires_credentials m ≡ has (requires_for m) l
  unfolding new_spec_validator
  requires_credentials-has m =
      flag-foldl (λ o. contains o.requires_credentials m) (requires_for m) (contains-with_option m)
        no_opts l

  pub req_validation-has : (new_spec_validator l).req_validation ≡ has is_request_validation l
  unfolding new_spec_validator
  req_validation-has =
      flag-foldl (λ o. o.req_validation) is_request_validation req_validation-with_option no_opts l

  pub rep_validation-has : (new_spec_validator l).rep_validation ≡ has is_response_validation l
  unfolding new_spec_validator
  rep_validation-has =
      flag-foldl (λ o. o.rep_validation) is_response_validation rep_validation-with_option no_opts l

  pub requires_node_id-has : (new_spec_validator l).requires_node_id ≡ has is_node_id l
  unfolding new_spec_validator
  requires_node_id-has =
      flag-foldl (λ o. o.requires_node_id) is_node_id requires_node_id-with_option no_opts l

  pub requires_pub_vol_info-has :
      (new_spec_validator l).requires_pub_vol_info ≡ has is_publish_volume_info l
  unfolding new_spec_validator
  requires_pub_vol_info-has =
      flag-foldl (λ o. o.requires_pub_vol_info) is_publish_volume_info
        requires_pub_vol_info-with_option no_opts l

  pub requires_vol_attribs-has :
      (new_spec_validator l).requires_vol_attribs ≡ has is_volume_attributes l
  unfolding new_spec_validator
  requires_vol_attribs-has =
      flag-foldl (λ o. o.requires_vol_attribs) is_volume_attributes requires_vol_attribs-with_option
        no_opts l

-- The versions of the last option that gives some, or else `vs`.
abbrev pub versions_of : List Version → List WithOption → List Version
versions_of vs [] = vs
versions_of vs (supported_versions ws ∷ l) = versions_of ws l
versions_of vs (_ ∷ l) = versions_of vs l

foldl-versions_of :
    (l : List WithOption) (o : Opts)
    → (foldl with_option o l).supported_versions ≡ versions_of o.supported_versions l
unfolding with_option require_credentials
foldl-versions_of [] o = refl
foldl-versions_of (supported_versions ws ∷ l) o = foldl-versions_of l _
foldl-versions_of (request_validation ∷ l) o = foldl-versions_of l _
foldl-versions_of (response_validation ∷ l) o = foldl-versions_of l _
foldl-versions_of (requires_node_id ∷ l) o = foldl-versions_of l _
foldl-versions_of (requires_publish_volume_info ∷ l) o = foldl-versions_of l _
foldl-versions_of (requires_volume_attributes ∷ l) o = foldl-versions_of l _
foldl-versions_of (requires_create_volume_credentials ∷ l) o = foldl-versions_of l _
foldl-versions_of (requires_delete_volume_credentials ∷ l) o = foldl-versions_of l _
foldl-versions_of (requires_controller_publish_volume_credentials ∷ l) o = foldl-versions_of l _
foldl-versions_of (requires_controller_unpublish_volume_credentials ∷ l) o = foldl-versions_of l _
foldl-versions_of (requires_node_publish_volume_credentials ∷ l) o = foldl-versions_of l _
foldl-versions_of (requires_node_unpublish_volume_credentials ∷ l) o = foldl-versions_of l _

pub supported_versions-versions_of :
    (l : List WithOption) → (new_spec_validator l).supported_versions ≡ versions_of [] l
unfolding new_spec_validator
supported_versions-versions_of l = foldl-versions_of l no_opts
