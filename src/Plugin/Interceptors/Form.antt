-- ===== src/Plugin/Interceptors/Form.antt =====
-- The interceptors that are installed, part by part.
use gocsi.Base.{
  ◌≡◌, ◌⊎◌, inl, inr, refl, Bool, true, false, Bool-cases, Option, none, some, List, [], ◌∷◌, ◌++◌,
  Text, is_empty,
}
use mathlib.Core.Path.{subst}
use mathlib.Core.List.{append-nil}
use gocsi.Base.{sym}
use gocsi.Csi.{Version}
use gocsi.Context.{or_empty}
use gocsi.Plugin.EnvVars
use gocsi.Plugin.Interceptors.{
  Switches, Installed, serial_volume, Initialised, ready, exits, Created, created, failed,
  read_switches, with_all_creds, before_serial, with_provider, add_serial, init_interceptors,
}

-- The switches after the general option for the credentials.
abbrev pub switches : (Text → Option Text) → Switches
switches env = with_all_creds (read_switches env)

module _ {D P : Type 0} where
  -- Nothing, or one interceptor for the serial access.
  abbrev pub IsSerial : List (Installed D P) → Type 0
  IsSerial tail = (tail ≡ []) ⊎ ((t : Option D) × (p : Option P) × (tail ≡ serial_volume t p ∷ []))

  abbrev Ends : List (Installed D P) → Initialised (List (Installed D P)) → Type 0
  Ends l exits = Unit
  Ends l (ready k) = (tail : List (Installed D P)) × (k ≡ l ++ tail) × IsSerial tail

module _ {D P : Type 0} (parse_duration : Text → Option D) (new_etcd : Created P)
    (env : Text → Option Text) where
  with_provider-Ends :
      (l : List (Installed D P)) (t : Option D) (c : Created P)
      → Ends l (with_provider parse_duration new_etcd l t c)
  unfolding with_provider
  with_provider-Ends l t failed = tt
  with_provider-Ends l t (created p) = (_, refl, inr (t, some p, refl))

  add_serial-Ends :
      (b : Bool) (l : List (Installed D P)) → Ends l (add_serial parse_duration new_etcd env b l)
  unfolding add_serial
  add_serial-Ends false l = ([], sym (append-nil l), inl refl)
  add_serial-Ends true l =
      elim (Bool-cases (is_empty (or_empty (env EnvVars.serial_vol_access_etcd_endpoints)))) [
        | inl e ↦ rw e (_, refl, inr (_, none, refl))
        | inr e ↦ rw e (with_provider-Ends l _ new_etcd)
      ]

  pub init_interceptors-Ends :
      (vs : List Version) {k : List (Installed D P)}
      → init_interceptors parse_duration new_etcd env vs ≡ ready k
      → (tail : List (Installed D P)) × (k ≡ before_serial env vs (switches env) ++ tail)
        × IsSerial tail
  unfolding init_interceptors
  init_interceptors-Ends vs e =
      subst (Ends (before_serial env vs (switches env))) e (add_serial-Ends _ _)
