-- ===== src/Csc/VarTypes/RoundTrip.antt =====
-- A volume capability, written as the value of a flag, and read back.
use gocsi.Base.{
  ℕ, ◌≡◌, refl, false, none, some, List, [], ◌∷◌, ◌++◌, Text, text, ◌==◌, All, IsFree, split_n,
  join, cut-separated, split-join, lookup, EqualFold,
}
use gocsi.Csi.{VolumeCapability}
use gocsi.Utils.Parsing.{new_mount_capability}
use gocsi.Csc.VarTypes.{
  mode_values, mode, mode_of, type_of, add_capability, set_mode, set_parts, set_capability,
}

-- "MODE,mount,FSTYPE,FLAG,…"
abbrev pub mount_value : Text → Text → List Text → Text
mount_value m fs flags = m ++ (b',' ∷ (text "mount" ++ (b',' ∷ (fs ++ (b',' ∷ join b',' flags)))))

mount_IsFree : IsFree b',' (text "mount")
unfolding text
mount_IsFree = (refl, (refl, (refl, (refl, (refl, tt)))))

is_mount : (text "mount" == text "1") ≡ false × (text "mount" == text "2") ≡ false
unfolding text ◌==◌
is_mount = (refl, refl)

split_n-mount_value :
    (m fs flags : Text)
    → IsFree b',' m
    → IsFree b',' fs
    → split_n 4 b',' (m ++ (b',' ∷ (text "mount" ++ (b',' ∷ (fs ++ (b',' ∷ flags))))))
      ≡ m ∷ text "mount" ∷ fs ∷ flags ∷ []
unfolding split_n
split_n-mount_value m fs flags hm hfs = rw (cut-separated b',' m _ hm) (
    rw (cut-separated b',' (text "mount") _ mount_IsFree)
      (rw (cut-separated b',' fs flags hfs) refl))

-- A mode's name, with the mode's number.
abbrev pub IsMode : Text → ℕ → Type 0
IsMode m i = lookup m mode_values ≡ some i

mode_of_known : (m : Text) (i : ℕ) → IsMode m i → mode_of m ≡ mode (some i)
unfolding mode_of lookup ◌==◌ text
mode_of_known m i known = rw known refl

-- The value "MODE,mount,FSTYPE,FLAG,…", with the name of a mode and parts that hold no comma, adds the
-- capability with that mode, file system and flags, where EqualFold tells "mount" from "block".
pub set_capability-mount_value :
    (fold : EqualFold) (number_error : Text → Text) (m : Text) (i : ℕ) (fs flag : Text)
    (flags : List Text) (caps : List VolumeCapability)
    → fold.equal_fold (text "mount") (text "block") ≡ false
    → IsMode m i
    → IsFree b',' m
    → IsFree b',' fs
    → IsFree b',' flag
    → All (IsFree b',') flags
    → set_capability fold number_error (mount_value m fs (flag ∷ flags)) caps
      ≡ (none, caps ++ new_mount_capability i fs (flag ∷ flags) ∷ [])
unfolding set_capability set_parts set_mode type_of add_capability new_mount_capability
set_capability-mount_value fold number_error m i fs flag flags caps other known hm hfs hflag
      hflags =
    rw (split_n-mount_value m fs (join b',' (flag ∷ flags)) hm hfs) (
      rw (mode_of_known m i known) (
        rw is_mount.0 (
          rw other (
            rw is_mount.1 (
              rw (fold.fold_refl (text "mount"))
                (rw (split-join b',' flag flags hflag hflags) refl))))))
