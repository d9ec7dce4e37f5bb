-- ===== src/SpecValidator/Capabilities.antt =====
-- `validateVolumeCapabilityArg` and `validateVolumeCapabilitiesArg`. The switches on the access type
-- have no default branch here: the oneof has two wrapper types.
use gocsi.Base.{
  ℕ, ◌+◌, ◌≡◌, ◌≢◌, ◌↔◌, refl, arith, Bool, true, false, Option, none, some, [], ◌∷◌, ◌++◌, Text,
  text, itoa, All,
}
use gocsi.Csi.{VolumeCapability, VolCaps, AccessType, block, mount}
use gocsi.SpecValidator.Errors.{FailsWith, FailsWith->>, passing, failing, panicking}
use gocsi.Status.{Check, pass, fail, panics, ◌>>◌, status_error, invalid_argument}

check_access_type : Text → Option AccessType → Check
check_access_type prefix none =
    fail (status_error invalid_argument (text "required: " ++ (prefix ++ text "AccessType")))
check_access_type prefix (some (block none)) =
    fail (status_error invalid_argument (text "required: " ++ (prefix ++ text "AccessType.Block")))
check_access_type prefix (some (block (some b))) = pass
check_access_type prefix (some (mount none)) =
    fail (status_error invalid_argument (text "required: " ++ (prefix ++ text "AccessType.Mount")))
check_access_type prefix (some (mount (some m))) = pass

check_access_mode : Text → Option ℕ → Check
check_access_mode prefix none =
    fail (status_error invalid_argument (text "required: " ++ (prefix ++ text "AccessMode")))
check_access_mode prefix (some mode) = pass

-- The tests that the two functions share; only the prefix of the messages differs.
check_capability : Text → VolumeCapability → Check
unfolding check_access_type check_access_mode
check_capability prefix cap = do
  check_access_mode prefix cap.access_mode
  check_access_type prefix cap.access_type

-- A nil pointer that is not required is dereferenced.
unfoldable pub validate_volume_capability_arg : Option VolumeCapability → Bool → Check
unfolding check_capability
validate_volume_capability_arg none true =
    fail (status_error invalid_argument (text "required: VolumeCapability"))
validate_volume_capability_arg none false = panics
validate_volume_capability_arg (some cap) required = check_capability [] cap

-- The loop; `i` is the index.
check_capabilities : ℕ → VolCaps → Check
unfolding check_capability
check_capabilities i [] = pass
check_capabilities i (none ∷ caps) = panics
check_capabilities i (some cap ∷ caps) = do
  check_capability (text "VolumeCapabilities[" ++ (itoa i ++ text "].")) cap
  check_capabilities (i + 1) caps

unfoldable pub validate_volume_capabilities_arg : VolCaps → Bool → Check
unfolding check_capabilities
validate_volume_capabilities_arg [] true =
    fail (status_error invalid_argument (text "required: VolumeCapabilities"))
validate_volume_capabilities_arg [] false = pass
validate_volume_capabilities_arg (cap ∷ caps) required = check_capabilities 0 (cap ∷ caps)

-- An access type is set, and so is the message in it.
abbrev pub IsAccessType : Option AccessType → Type 0
IsAccessType none = ⊥
IsAccessType (some (block b)) = b ≢ none
IsAccessType (some (mount m)) = m ≢ none

-- A capability that the CSI specification allows, behind its pointer.
abbrev pub IsCapability : Option VolumeCapability → Type 0
IsCapability none = ⊥
IsCapability (some cap) = (cap.access_mode ≢ none) × IsAccessType cap.access_type

check_access_type-eq-pass_iff :
    (prefix : Text) (t : Option AccessType) → (check_access_type prefix t ≡ pass) ↔ IsAccessType t
unfolding check_access_type
check_access_type-eq-pass_iff prefix t = ground arith

check_capability-eq-pass_iff :
    (prefix : Text) (cap : VolumeCapability)
    → (check_capability prefix cap ≡ pass) ↔ IsCapability (some cap)
unfolding check_capability
check_capability-eq-pass_iff prefix cap =
    ground (arith, check_access_type-eq-pass_iff prefix cap.access_type)

-- A single capability passes exactly when it is there and is complete, also where it is optional.
pub validate_volume_capability_arg-eq-pass_iff :
    (cap : Option VolumeCapability) (required : Bool)
    → (validate_volume_capability_arg cap required ≡ pass) ↔ IsCapability cap
unfolding validate_volume_capability_arg
validate_volume_capability_arg-eq-pass_iff none true = ground arith
validate_volume_capability_arg-eq-pass_iff none false = ground arith
validate_volume_capability_arg-eq-pass_iff (some cap) required = check_capability-eq-pass_iff [] cap

check_capabilities-eq-pass_iff :
    (i : ℕ) (caps : VolCaps) → (check_capabilities i caps ≡ pass) ↔ All IsCapability caps
unfolding check_capabilities
check_capabilities-eq-pass_iff i [] = (λ _. tt, λ _. refl)
check_capabilities-eq-pass_iff i (none ∷ caps) = ground arith
check_capabilities-eq-pass_iff i (some cap ∷ caps) = ground (
  arith,
  check_capability-eq-pass_iff (text "VolumeCapabilities[" ++ (itoa i ++ text "].")) cap,
  check_capabilities-eq-pass_iff (i + 1) caps,
)

-- A list of capabilities passes exactly when all are complete, and there is one if one is required.
pub validate_volume_capabilities_arg-eq-pass_iff :
    (caps : VolCaps) (required : Bool)
    → (validate_volume_capabilities_arg caps required ≡ pass)
      ↔ (All IsCapability caps × (required ≡ true → caps ≢ []))
unfolding validate_volume_capabilities_arg
validate_volume_capabilities_arg-eq-pass_iff [] true = ground arith
validate_volume_capabilities_arg-eq-pass_iff [] false = ground arith
validate_volume_capabilities_arg-eq-pass_iff (cap ∷ caps) required =
    ground (arith, check_capabilities-eq-pass_iff 0 (cap ∷ caps))

check_access_type-FailsWith :
    (prefix : Text) (t : Option AccessType)
    → FailsWith invalid_argument (check_access_type prefix t)
unfolding check_access_type
check_access_type-FailsWith prefix none = failing _
check_access_type-FailsWith prefix (some (block none)) = failing _
check_access_type-FailsWith prefix (some (mount none)) = failing _
check_access_type-FailsWith prefix (some (block (some b))) = passing
check_access_type-FailsWith prefix (some (mount (some m))) = passing

check_access_mode-FailsWith :
    (prefix : Text) (mode : Option ℕ) → FailsWith invalid_argument (check_access_mode prefix mode)
unfolding check_access_mode
check_access_mode-FailsWith prefix none = failing _
check_access_mode-FailsWith prefix (some mode) = passing

check_capability-FailsWith :
    (prefix : Text) (cap : VolumeCapability)
    → FailsWith invalid_argument (check_capability prefix cap)
unfolding check_capability
check_capability-FailsWith prefix cap =
    FailsWith->> (check_access_mode-FailsWith prefix cap.access_mode)
      (check_access_type-FailsWith prefix cap.access_type)

pub validate_volume_capability_arg-FailsWith :
    (cap : Option VolumeCapability) (required : Bool)
    → FailsWith invalid_argument (validate_volume_capability_arg cap required)
unfolding validate_volume_capability_arg
validate_volume_capability_arg-FailsWith none true = failing _
validate_volume_capability_arg-FailsWith none false = panicking
validate_volume_capability_arg-FailsWith (some cap) required = check_capability-FailsWith [] cap

check_capabilities-FailsWith :
    (i : ℕ) (caps : VolCaps) → FailsWith invalid_argument (check_capabilities i caps)
unfolding check_capabilities
check_capabilities-FailsWith i [] = passing
check_capabilities-FailsWith i (none ∷ caps) = panicking
check_capabilities-FailsWith i (some cap ∷ caps) =
    FailsWith->>
      (check_capability-FailsWith (text "VolumeCapabilities[" ++ (itoa i ++ text "].")) cap)
      (check_capabilities-FailsWith (i + 1) caps)

pub validate_volume_capabilities_arg-FailsWith :
    (caps : VolCaps) (required : Bool)
    → FailsWith invalid_argument (validate_volume_capabilities_arg caps required)
unfolding validate_volume_capabilities_arg
validate_volume_capabilities_arg-FailsWith [] true = failing _
validate_volume_capabilities_arg-FailsWith [] false = passing
validate_volume_capabilities_arg-FailsWith (cap ∷ caps) required =
    check_capabilities-FailsWith 0 (cap ∷ caps)
