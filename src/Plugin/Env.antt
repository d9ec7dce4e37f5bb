-- ===== src/Plugin/Env.antt =====
-- envvars.go: the initialisation of the plug-in's environment.
pub mod Precedence
use gocsi.Base.{
  Bool, true, false, Option, none, some, List, [], ◌∷◌, Text, text, cut, split_n, insert, EqualFold,
  if◌then◌else◌,
}
use gocsi.Csi.{Version, GetPluginInfoResponse}
use gocsi.Context.{Os, Context, or_empty, or_else, lookup_env, setenv}
use gocsi.Utils.Versions.{parse_versions}
use gocsi.Utils.Parsing.{Tools, Parsed, parsed, panics, parse_map}
use gocsi.Plugin.{EnvMap, env_bool}
use gocsi.Plugin.EnvVars.{debug, req_logging, rep_logging}

module _ (fold : EqualFold) (os : Os EnvMap) (to_upper : Text → Text) (ctx : Context EnvMap) where
  -- One round of the loop: `SplitN` gives one or two parts, so no entry is skipped.
  init_env_var : Text → EnvMap → EnvMap
  init_env_var entry m =
      let p = cut b'=' entry in
      let key = to_upper p.0 in insert key (or_empty (or_else (lookup_env fold os ctx key m) p.1)) m

  pub fill : List Text → EnvMap → EnvMap
  unfolding init_env_var
  fill [] m = m
  fill (entry ∷ entries) m = fill entries (init_env_var entry m)

  abbrev set_true : Text → EnvMap → EnvMap
  set_true key m = (setenv os ctx key (text "true") m).1

  -- `initEnvVars`
  unfoldable pub init_env_vars : List Text → EnvMap
  unfolding fill
  init_env_vars entries =
      let m = fill entries [] in
      if env_bool (lookup_env fold os ctx debug m)
      then set_true rep_logging (set_true req_logging m)
      else m

-- `initSupportedVersions`, by what `LookupEnv` finds.
unfoldable pub init_supported_versions : Option Text → List Version → List Version
init_supported_versions none vs = vs
init_supported_versions (some sz_versions) vs = parse_versions sz_versions

abbrev with_manifest :
    GetPluginInfoResponse → Parsed (Option (List (Text × Text))) → Parsed GetPluginInfoResponse
with_manifest info (parsed m) = parsed (record info { manifest = m })
with_manifest info panics = panics

module _ (tools : Tools) where
  open tools use {trim_space}

  -- The name, the vendor version and the manifest, as far as they are given.
  info_of_parts : List Text → GetPluginInfoResponse → Parsed GetPluginInfoResponse
  info_of_parts [] info = parsed info
  info_of_parts (a ∷ []) info = parsed (record info { name = trim_space a })
  info_of_parts (a ∷ b ∷ []) info =
      parsed (record info { name = trim_space a; vendor_version = trim_space b })
  info_of_parts (a ∷ b ∷ c ∷ cs) info =
      with_manifest (record info { name = trim_space a; vendor_version = trim_space b })
        (parse_map tools (trim_space c))

  -- `initPluginInfo`, by what `LookupEnv` finds.
  unfoldable pub init_plugin_info :
      Option Text → GetPluginInfoResponse → Parsed GetPluginInfoResponse
  unfolding info_of_parts
  init_plugin_info none info = parsed info
  init_plugin_info (some sz_info) info = info_of_parts (split_n 3 b',' sz_info) info
