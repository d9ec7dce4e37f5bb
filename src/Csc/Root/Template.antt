-- ===== src/Csc/Root/Template.antt =====
-- csc/cmd/root.go: the template that a command prints with.
use gocsi.Base.{
  ◌≡◌, refl, ap, arith, Bool, true, false, Bool-cases, Option, some, inl, inr, Text, text, ◌==◌,
  ◌||◌, is_empty,
}
use gocsi.Csi.{GoMap}
use gocsi.Status.{Attempt, failed, got}
use gocsi.Utils.Endpoint.{Files}
use gocsi.Utils.Parsing.{Tools, Parsed, parsed}
use gocsi.Csc.Root.{
  Host, Setup, Prepared, started, default_format, volume_info_format, list_volumes_format,
  supported_versions_format, plugin_info_format, with_client, with_creds, with_template,
  template_of, some_template, format_of, pre_run,
}

-- The commands that print with the template.
abbrev pub executes_template : Text → Bool
executes_template name =
    name == text "list-volumes"
    || (name == text "create-volume"
        || (name == text "supported-versions" || name == text "plugin-info"))

volume_format_filled : is_empty volume_info_format ≡ false
unfolding text
volume_format_filled = refl

list_format_filled : is_empty list_volumes_format ≡ false
unfolding text
list_format_filled = refl

versions_format_filled : is_empty supported_versions_format ≡ false
unfolding text
versions_format_filled = refl

plugin_format_filled : is_empty plugin_info_format ≡ false
unfolding text
plugin_format_filled = refl

default_format_filled :
    (name : Text) (paging : Bool)
    → executes_template name ≡ true
    → is_empty (default_format name paging) ≡ false
unfolding default_format
default_format_filled name paging h = ground (
  arith, h, volume_format_filled, list_format_filled, versions_format_filled, plugin_format_filled,
)

module _ {T N C S : Type 0} (host : Host T N C S) (tools : Tools) (files : Files S) where
  format_filled :
      (s : Setup)
      → executes_template s.name ≡ true
      → is_empty (format_of host tools files s) ≡ false
  format_filled s h = elim (Bool-cases (is_empty s.format)) [
    | inl empty ↦ rw empty (default_format_filled s.name s.paging h)
    | inr given ↦ rw given given
  ]

  with_client-tpl :
      (tpl : Option T) (creds : GoMap) (r : Attempt C × S) (p : Prepared T C) (st' : S)
      → with_client host tools files tpl creds r ≡ (started p, st')
      → p.tpl ≡ tpl
  unfolding with_client
  with_client-tpl tpl creds (failed e, st) p st' h = cc
  with_client-tpl tpl creds (got c, st) p st' h =
      let same : p ≡ record { tpl = tpl; user_creds = creds; client = c } = cc in
      ap (λ (r : Prepared T C). r.tpl) same

  with_creds-tpl :
      (s : Setup) (tpl : Option T) (m : Parsed GoMap) (st : S) (p : Prepared T C) (st' : S)
      → with_creds host tools files s tpl m st ≡ (started p, st')
      → p.tpl ≡ tpl
  unfolding with_creds
  with_creds-tpl s tpl Parsed.panics st p st' h = cc
  with_creds-tpl s tpl (parsed creds) st p st' h = with_client-tpl tpl creds _ p st' h

  with_template-tpl :
      (s : Setup) (creds : Text) (a : Attempt T) (st : S) (p : Prepared T C) (st' : S)
      → with_template host tools files s creds (some_template host tools files a) st
        ≡ (started p, st')
      → (t : T) × (p.tpl ≡ some t)
  unfolding with_template
  with_template-tpl s creds (failed e) st p st' h = cc
  with_template-tpl s creds (got t) st p st' h = (t, with_creds-tpl s (some t) _ st p st' h)

  -- A command that prints with the template runs only if there is one: it never executes a nil
  -- template.
  pub pre_run-tpl :
      (s : Setup) (creds : Text) (st : S) (p : Prepared T C) (st' : S)
      → executes_template s.name ≡ true
      → pre_run host tools files s creds st ≡ (started p, st')
      → (t : T) × (p.tpl ≡ some t)
  unfolding pre_run template_of
  pre_run-tpl s creds st p st' name h =
      with_template-tpl s creds (host.parse_template (format_of host tools files s)) st p st'
        (rw (format_filled s name) at h)
