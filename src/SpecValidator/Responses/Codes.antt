-- ===== src/SpecValidator/Responses/Codes.antt =====
-- The codes of the errors of the response checks.
use gocsi.Base.{ℕ, ◌+◌, Text, Option, none, some, List, [], ◌∷◌, ◌≡◌, ◌⊎◌, inl, inr, refl}
use gocsi.Csi.{VolumeInfo, Response}
use gocsi.Csi.Reflect.{response_fields}
use gocsi.Status.{Check, fail, ◌>>◌, Error, status_error, internal, invalid_argument, reply}
use gocsi.Utils.Methods.{is_nil_response}
use gocsi.SpecValidator.{Opts}
use gocsi.SpecValidator.Errors.{
  FailsWith, passing, failing, panicking, FailsWith-message, code_rules,
}
use gocsi.SpecValidator.Fields.{validate_field_sizes, validate_field_sizes-FailsWith}
use gocsi.SpecValidator.Responses.{
  validate_create_volume_response, check_list_entries, validate_get_plugin_info_response,
  response_by_type, validate_response,
}

check_list_entries-FailsWith :
    (i : ℕ) (es : List (Option (Option VolumeInfo))) → FailsWith internal (check_list_entries i es)
unfolding check_list_entries
check_list_entries-FailsWith i [] = passing
check_list_entries-FailsWith i (none ∷ es) = panicking
check_list_entries-FailsWith i (some none ∷ es) = failing _
check_list_entries-FailsWith i (some (some info) ∷ es) =
    search (code_rules, check_list_entries-FailsWith (i + 1) es)

validate_create_volume_response-FailsWith :
    (s : Opts) (info : Option VolumeInfo)
    → FailsWith internal (validate_create_volume_response s info)
unfolding validate_create_volume_response
validate_create_volume_response-FailsWith s none = failing _
validate_create_volume_response-FailsWith s (some info) = search code_rules

response_by_type-FailsWith : (s : Opts) (r : Response) → FailsWith internal (response_by_type s r)
unfolding response_by_type validate_get_plugin_info_response
response_by_type-FailsWith s (Response.create_volume info) =
    validate_create_volume_response-FailsWith s info
response_by_type-FailsWith s (Response.list_volumes r) = check_list_entries-FailsWith 0 r.entries
response_by_type-FailsWith s (Response.get_plugin_info r) = search code_rules depth 12
response_by_type-FailsWith s _ = search code_rules

reply_error_codes :
    (s : Opts) (r : Response) (c : Check) (e : Error)
    → validate_field_sizes (response_fields r) ≡ c
    → FailsWith invalid_argument c
    → (c >> response_by_type s r) ≡ fail e
    → ((m : Text) × (validate_field_sizes (response_fields r) ≡ fail e)
        × (e ≡ status_error invalid_argument m))
      ⊎ ((m : Text) × (e ≡ status_error internal m))
reply_error_codes s r c e same passing h =
    inr (FailsWith-message (response_by_type-FailsWith s r) h)
reply_error_codes s r c e same panicking h = cc
reply_error_codes s r c e same (failing m) h = inl (m, cc, cc)

-- A failing response check reports the code InvalidArgument for a field that is too long, and
-- Internal for everything else; in both cases the error is a new RPC status.
pub response_error_codes :
    (s : Opts) (method : Text) (r : Response) (e : Error)
    → validate_response s method (reply r) ≡ fail e
    → ((m : Text) × (validate_field_sizes (response_fields r) ≡ fail e)
        × (e ≡ status_error invalid_argument m))
      ⊎ ((m : Text) × (e ≡ status_error internal m))
unfolding validate_response is_nil_response
response_error_codes s method r e h =
    reply_error_codes s r (validate_field_sizes (response_fields r)) e refl
      (validate_field_sizes-FailsWith (response_fields r)) h
