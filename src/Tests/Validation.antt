-- ===== src/Tests/Validation.antt =====
-- middleware/specvalidator on concrete messages.
use gocsi.Base.{
  ℕ, ◌≡◌, ◌≢◌, ◌↔◌, ◌⊎◌, refl, sym, ◌∙◌, ◌+◌, Bool, true, false, Bool-cases, inl, inr,
  if◌then◌else◌, Option, none, some, List, [], ◌∷◌, ◌++◌, Text, text, All,
}
use gocsi.Csi.{Version, VolumeCapability, VolumeInfo, mount, Request, Response}
use gocsi.Csi.Reflect.{
  Field, string_field, map_field, request_fields, response_fields, get_version, get_volume_id,
}
use gocsi.Status.{
  Code, invalid_argument, internal, Status, Error, status_error, pass, fail, Reply, reply, Outcome,
  returned, replies, create_volume, ◌>>◌,
}
use gocsi.Utils.Versions.{compare_versions}
use gocsi.Utils.Methods.{method_name, is_nil_response}
use gocsi.SpecValidator.{Opts, no_opts}
use gocsi.SpecValidator.Fields.Order.{same, mixed, done, validate_field_sizes-Reordered}
use mathlib.Core.List.{Permᴰ}
use gocsi.SpecValidator.Fields.{validate_field_sizes, Fits, validate_field_sizes-eq-pass_iff}
use gocsi.SpecValidator.Capabilities.{validate_volume_capabilities_arg}
use gocsi.SpecValidator.Requests.{validate_request, validate_request_version}
use gocsi.SpecValidator.Requests.Conformance.{
  Conforms, HasVersionOf, validate_request-eq-pass_iff, validate_request_version-eq-pass_iff,
}
use gocsi.SpecValidator.Requests.Codes.{request_error-IsInvalidArgument}
use gocsi.SpecValidator.Responses.{validate_response}
use gocsi.SpecValidator.Responses.Conformance
use gocsi.SpecValidator.Responses.Conformance.{validate_response-eq-pass_iff}
use gocsi.SpecValidator.Responses.Codes.{response_error_codes}
use gocsi.SpecValidator.Handle.{handle}
use gocsi.SpecValidator.Handle.Laws.Invalid.{Appends, IsReported, handle_invalid_response}
use gocsi.SpecValidator.Handle.Laws.{
  IsAccepted, IsDelivered, handle_refuses, handle_success, handle_delivers,
}

abbrev v010 : Version
v010 = record { major = 0; minor = 1; patch = 0 }

abbrev opts : Opts
opts = record no_opts {
  supported_versions = v010 ∷ [];
  req_validation = true;
  rep_validation = true;
}

abbrev method : Text
method = method_name create_volume

abbrev capability : Option VolumeCapability
capability = some (record {
  access_type = some (mount (some (record { fs_type = text "ext4"; mount_flags = [] })));
  access_mode = some 1;
})

abbrev create_named : Text → Request
create_named name = Request.create_volume (record {
  version = some v010;
  name = name;
  capacity_range = none;
  volume_capabilities = capability ∷ [];
  parameters = none;
  user_credentials = none;
})

abbrev good : Request
good = create_named (text "data")

-- without a name
abbrev bad : Request
bad = create_named []

validate_request-eq-pass_iff_example :
    (validate_request opts method good ≡ pass) ↔ Conforms opts method good
validate_request-eq-pass_iff_example = validate_request-eq-pass_iff opts method good

good_passes : validate_request opts method good ≡ pass
unfolding validate_request method_name text validate_field_sizes request_fields get_volume_id
    validate_volume_capabilities_arg
good_passes = refl

good_version : validate_request_version opts good ≡ pass
unfolding validate_request_version get_version compare_versions
good_version = refl

accepted : IsAccepted opts method good
accepted = (
  (validate_request_version-eq-pass_iff opts good).0 good_version,
  (validate_request-eq-pass_iff opts method good).0 good_passes,
)

bad_fails : (m : Text) × (validate_request opts method bad ≡ fail (status_error invalid_argument m))
unfolding validate_request method_name text validate_field_sizes request_fields get_volume_id
bad_fails = (_, refl)

not_fail : {e : Error} → ¬ (pass ≡ fail e)
not_fail h = absurd cc

bad_not-IsAccepted : ¬ IsAccepted opts method bad
bad_not-IsAccepted (v, c) =
    let (m, e) = bad_fails in
    not_fail (sym ((validate_request-eq-pass_iff opts method bad).1 c) ∙ e)

-- A plug-in that counts its calls.
abbrev answer : Response → ℕ → Outcome × ℕ
answer r n = (replies r, n + 1)

abbrev volume : Response
volume =
    Response.create_volume (some (record { capacity_bytes = 7; id = text "1"; attributes = none }))

-- without an id
abbrev nameless : Response
nameless = Response.create_volume (some (record { capacity_bytes = 7; id = []; attributes = none }))

-- A message whose list has a nil element cannot be encoded.
abbrev has_nil : List (Option (Option VolumeInfo)) → Bool
has_nil [] = false
has_nil (none ∷ es) = true
has_nil (some e ∷ es) = has_nil es

abbrev entries_of : Response → List (Option (Option VolumeInfo))
entries_of (Response.list_volumes rep) = rep.entries
entries_of _ = []

abbrev attach : Status → Response → Option Status
attach st r =
    if has_nil (entries_of r) then none else some (record st { details = st.details ++ r ∷ [] })

handle_refuses_example :
    ((handle attach opts method (some bad) (answer volume) 5).1 ≡ 5)
    × ((r : Reply) → (handle attach opts method (some bad) (answer volume) 5).0 ≢ returned r none)
handle_refuses_example =
    handle_refuses attach opts method (answer volume) 5 bad refl bad_not-IsAccepted

good_returns :
    (handle attach opts method (some good) (answer volume) 5).0 ≡ returned (reply volume) none
unfolding handle method_name text validate_request_version get_version compare_versions
    validate_request validate_field_sizes request_fields get_volume_id
    validate_volume_capabilities_arg is_nil_response validate_response response_fields
good_returns = refl

handle_success_example :
    (opts.req_validation ≡ true → IsAccepted opts method good)
    × ((answer volume 5).0 ≡ returned (reply volume) none)
    × (opts.rep_validation ≡ true → IsDelivered attach opts method volume)
handle_success_example =
    handle_success attach opts method (answer volume) 5 good volume good_returns

volume_valid : All Fits (response_fields volume) × Conformance.MeetsRules opts volume
unfolding response_fields text
volume_valid = ((tt, tt), (λ e. cc, λ e. cc))

handle_delivers_example :
    handle attach opts method (some good) (answer volume) 5 ≡ (returned (reply volume) none, 6)
handle_delivers_example =
    handle_delivers attach opts method good (answer volume) 5 volume (λ e. accepted) refl
      (λ e. volume_valid)

attach-Appends : Appends attach
attach-Appends st st' d h kept = elim (Bool-cases (has_nil (entries_of d))) [
  | inl lost ↦ let gone : attach st d ≡ none = rw lost refl in absurd (cc)
  | inr fine ↦
      let there : attach st d ≡ some (record st { details = st.details ++ d ∷ [] }) =
        rw fine refl in
      cc
]

nameless_fails :
    (m : Text) × (validate_response opts method (reply nameless) ≡ fail (status_error internal m))
unfolding validate_response is_nil_response validate_field_sizes response_fields
nameless_fails = (_, refl)

handle_invalid_response_example :
    (c : Code) × (m : Text) × (status_error internal nameless_fails.0 ≡ status_error c m)
    × ((c ≡ invalid_argument) ⊎ (c ≡ internal))
    × IsReported attach nameless c m (handle attach opts method (some good) (answer nameless) 5).0
handle_invalid_response_example =
    handle_invalid_response attach attach-Appends opts method good (answer nameless) 5 nameless
      (status_error internal nameless_fails.0) refl (λ e. accepted) refl nameless_fails.1

-- A list of an entry without a volume, which is why it is invalid, and a nil entry.
abbrev holed : Response
holed = Response.list_volumes (record { entries = some none ∷ none ∷ []; next_token = [] })

-- The caller gets it.
holed_fails :
    (m : Text) × (validate_response opts method (reply holed) ≡ fail (status_error internal m))
unfolding validate_response is_nil_response validate_field_sizes response_fields text
holed_fails = (_, refl)

delivered_invalid :
    (handle attach opts method (some good) (answer holed) 5).0 ≡ returned (reply holed) none
unfolding handle method_name text validate_request_version get_version compare_versions
    validate_request validate_field_sizes request_fields get_volume_id
    validate_volume_capabilities_arg is_nil_response validate_response response_fields
delivered_invalid = refl

validate_request_version-eq-pass_iff_example :
    (validate_request_version opts good ≡ pass)
    ↔ ((opts.supported_versions ≡ []) ⊎ HasVersionOf opts.supported_versions (get_version good))
validate_request_version-eq-pass_iff_example = validate_request_version-eq-pass_iff opts good

validate_response-eq-pass_iff_example :
    (validate_response opts method (reply nameless) ≡ pass)
    ↔ (All Fits (response_fields nameless) × Conformance.MeetsRules opts nameless)
validate_response-eq-pass_iff_example = validate_response-eq-pass_iff opts method nameless

bad_request_fails :
    (m : Text) × ((do validate_request_version opts bad; validate_request opts method bad)
      ≡ fail (status_error invalid_argument m))
unfolding validate_request_version get_version compare_versions validate_request method_name text
    validate_field_sizes request_fields get_volume_id
bad_request_fails = (_, refl)

request_error-IsInvalidArgument_example :
    (m : Text) × (status_error invalid_argument bad_request_fails.0
      ≡ status_error invalid_argument m)
request_error-IsInvalidArgument_example =
    request_error-IsInvalidArgument opts method bad
      (status_error invalid_argument bad_request_fails.0) bad_request_fails.1

response_error_codes_example :
    ((m : Text) × (validate_field_sizes (response_fields nameless)
        ≡ fail (status_error internal nameless_fails.0))
      × (status_error internal nameless_fails.0 ≡ status_error invalid_argument m))
    ⊎ ((m : Text) × (status_error internal nameless_fails.0 ≡ status_error internal m))
response_error_codes_example =
    response_error_codes opts method nameless (status_error internal nameless_fails.0)
      nameless_fails.1

validate_field_sizes-eq-pass_iff_example :
    (validate_field_sizes (request_fields good) ≡ pass) ↔ All Fits (request_fields good)
validate_field_sizes-eq-pass_iff_example = validate_field_sizes-eq-pass_iff (request_fields good)

-- Two orders of one map behind a name.
abbrev in_order : List Field
in_order =
    string_field (text "Name") (text "data")
    ∷ map_field (text "Parameters") (some ((text "a", text "1") ∷ (text "b", text "2") ∷ []))
    ∷ []

abbrev swapped : List Field
swapped =
    string_field (text "Name") (text "data")
    ∷ map_field (text "Parameters") (some ((text "b", text "2") ∷ (text "a", text "1") ∷ []))
    ∷ []

validate_field_sizes-Reordered_example :
    ((validate_field_sizes in_order ≡ pass) ↔ (validate_field_sizes swapped ≡ pass))
    × ((e : Error)
        → validate_field_sizes in_order ≡ fail e
        → (m : Text) × (validate_field_sizes swapped ≡ fail (status_error invalid_argument m)))
validate_field_sizes-Reordered_example = validate_field_sizes-Reordered in_order swapped (
    same (string_field (text "Name") (text "data"))
      (mixed (text "Parameters") (Permᴰ.swap refl refl) done))
