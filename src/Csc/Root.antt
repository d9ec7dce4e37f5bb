-- ===== src/Csc/Root.antt =====
-- csc/cmd/root.go and csc/cmd/formats.go: what comes before and after a command of the client.
pub mod Template
use gocsi.Base.{
  ℕ, ℤ, Bool, true, false, Option, none, some, List, [], Text, text, ◌++◌, ◌==◌, is_empty,
  if◌then◌else◌,
}
use gocsi.Csi.{GoMap}
use gocsi.Status.{Error, status, plain, Attempt, failed, got}
use gocsi.Status
use gocsi.Utils.Endpoint.{Files, Endpoint, endpoint, parse_proto_addr}
use gocsi.Utils.Endpoint
use gocsi.Utils.Parsing.{Tools, Parsed, parsed, parse_map}
use gocsi.Utils.Parsing
use gocsi.Csc.Interceptors.{Flags, ClientInstalled, debug_flags, client_interceptors}

-- The templates of csc/cmd/formats.go.
abbrev volume_info_format : Text
volume_info_format =
    text "{{printf \"%q\\t%d\" .Id .CapacityBytes}}"
    ++ (text "{{if .Attributes}}{{\"\\t\"}}"
        ++ (text "{{range $k, $v := .Attributes}}{{printf \"%q=%q\\t\" $k $v}}{{end}}"
            ++ text "{{end}}{{\"\\n\"}}"))

abbrev list_volumes_format : Text
list_volumes_format =
    text "{{range $k, $v := .Entries}}"
    ++ (text "{{with $v.VolumeInfo}}"
        ++ (volume_info_format
            ++ (text "{{end}}"
                ++ (text "{{end}}"
                    ++ text "{{if .NextToken}}{{printf \"token=%q\\n\" .NextToken}}{{end}}"))))

abbrev supported_versions_format : Text
supported_versions_format =
    text "{{range $v := .SupportedVersions}}"
    ++ text "{{printf \"%d.%d.%d\\n\" $v.Major $v.Minor $v.Patch}}{{end}}"

abbrev plugin_info_format : Text
plugin_info_format =
    text "{{printf \"%q\\t%q\" .Name .VendorVersion}}"
    ++ (text "{{range $k, $v := .Manifest}}{{printf \"\\t%q=%q\" $k $v}}{{end}}"
        ++ text "{{\"\\n\"}}")

-- The template of a command by its name, for which `format` is not given.
unfoldable pub default_format : Text → Bool → Text
default_format name paging =
    if name == text "list-volumes"
    then (if paging then volume_info_format else list_volumes_format)
    else if name == text "create-volume"
    then volume_info_format
    else if name == text "supported-versions"
    then supported_versions_format
    else if name == text "plugin-info"
    then plugin_info_format
    else []

-- The codes of grpc as numbers.
unfoldable pub code_number : Status.Code → ℕ
code_number Status.ok = 0
code_number Status.canceled = 1
code_number Status.unknown = 2
code_number Status.invalid_argument = 3
code_number Status.deadline_exceeded = 4
code_number Status.not_found = 5
code_number Status.already_exists = 6
code_number Status.permission_denied = 7
code_number Status.resource_exhausted = 8
code_number Status.failed_precondition = 9
code_number Status.aborted = 10
code_number Status.out_of_range = 11
code_number Status.unimplemented = 12
code_number Status.internal = 13
code_number Status.unavailable = 14
code_number Status.data_loss = 15
code_number Status.unauthenticated = 16

abbrev help_hint : Text
help_hint = text "\nPlease use -h,--help for more information\n"

-- `Execute`: the exit code, and what is written to the standard error.
unfoldable pub exit_of : Option Error → ℕ × Text
unfolding code_number
exit_of none = (0, [])
exit_of (some (status st)) = (code_number st.code, st.message ++ (text "\n" ++ help_hint))
exit_of (some (plain t)) = (1, t ++ (text "\n" ++ help_hint))

-- The packages text/template, net and grpc, for templates `T`, connections `N` and clients `C`.
pub record Host (T N C S : Type 0) : Type 0 where
  pub parse_template : Text → Attempt T
  pub net_dial : (proto addr : Text) → (timeout : ℤ) → S → Attempt N × S
  pub dial :
      (endpoint : Text)
      → (insecure : Bool) → (dialer : Text → ℤ → S → Attempt N × S) → List ClientInstalled
      → S
      → Attempt C × S

-- What the root command's flags give, with the name of the command that runs.
pub record Setup : Type 0 where
  pub debug : Bool
  pub name : Text
  pub paging : Bool
  pub format : Text
  pub endpoint : Text
  pub insecure : Bool
  pub flags : Flags

pub record Prepared (T C : Type 0) : Type 0 where
  pub tpl : Option T
  pub user_creds : GoMap
  pub client : C

-- The function before the command returns nil or an error, or panics.
pub data Started (T C : Type 0) : Type 0 where
  started : Prepared T C → Started T C
  stopped : Error → Started T C
  panics : Started T C

module _ {T N C S : Type 0} (host : Host T N C S) (tools : Tools) (files : Files S) where
  open host use {parse_template, net_dial, dial}

  dial_endpoint : ℤ → Endpoint × S → Attempt N × S
  dial_endpoint timeout (endpoint proto addr, st) = net_dial proto addr timeout st
  dial_endpoint timeout (Endpoint.failed e, st) = (failed e, st)

  -- The dialer of the connection.
  unfoldable pub dialer : Text → ℤ → S → Attempt N × S
  unfolding dial_endpoint
  dialer target timeout st = dial_endpoint timeout (parse_proto_addr files target st)

  abbrev format_of : Setup → Text
  format_of s = if is_empty s.format then default_format s.name s.paging else s.format

  abbrev some_template : Attempt T → Attempt (Option T)
  some_template (failed e) = failed e
  some_template (got t) = got (some t)

  template_of : Text → Attempt (Option T)
  template_of format = if is_empty format then got none else some_template (parse_template format)

  with_client : Option T → GoMap → Attempt C × S → Started T C × S
  with_client tpl creds (failed e, st) = (stopped e, st)
  with_client tpl creds (got c, st) =
      (started (record { tpl = tpl; user_creds = creds; client = c }), st)

  with_creds : Setup → Option T → Parsed GoMap → S → Started T C × S
  unfolding with_client dialer
  with_creds s tpl Parsed.panics st = (panics, st)
  with_creds s tpl (parsed creds) st =
      with_client tpl creds
        (dial s.endpoint s.insecure dialer (client_interceptors (debug_flags s.debug s.flags)) st)

  with_template : Setup → (creds : Text) → Attempt (Option T) → S → Started T C × S
  unfolding with_creds
  with_template s creds (failed e) st = (stopped e, st)
  with_template s creds (got tpl) st = with_creds s tpl (parse_map tools creds) st

  -- `PersistentPreRunE`; `creds` is the value of X_CSI_USER_CREDENTIALS.
  unfoldable pub pre_run : Setup → (creds : Text) → S → Started T C × S
  unfolding with_template template_of
  pre_run s creds st = with_template s creds (template_of (format_of s)) st
