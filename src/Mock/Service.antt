-- ===== src/Mock/Service.antt =====
-- mock/service/service.go: the state of the service, and how a volume is made and found. The mutexes
-- are held for the whole of each operation below; `Mock.Controller` says where one is not.
pub mod Find
use gocsi.Base.{
  ℕ, ◌+◌, ◌*◌, ◌%◌, ◌^◌, Bool, false, Option, none, some, List, [], ◌∷◌, Text, text, itoa, ◌==◌,
  lookup, EqualFold, if◌then◌else◌,
}
use gocsi.Csi.{VolumeInfo, GoMap}

abbrev pub name : Text
name = text "com.thecodeteam.mock"

abbrev pub vendor_version : Text
vendor_version = text "0.1.0"

abbrev pub supported_versions : Text
supported_versions = text "0.1.0, 0.2.0, 1.0.0, 1.1.0"

abbrev pub manifest : GoMap
manifest = some ((text "url", text "https://github.com/thecodeteam/gocsi/tree/master/mock") ∷ [])

pub record Service : Type 0 where
  pub node_id : Text
  pub vols : List VolumeInfo
  -- a uint64
  pub vols_nid : ℕ

abbrev gib : ℕ
gib = 1024 * (1024 * 1024)

abbrev pub gib100 : ℕ
gib100 = gib * 100

abbrev pub tib100 : ℕ
tib100 = gib * 1024 * 100

-- `newVolume`, with the atomic increment of the counter.
unfoldable pub new_volume : Service → Text → ℕ → VolumeInfo × Service
new_volume s name capacity =
    let nid = (s.vols_nid + 1) % 2 ^ 64 in
    (
      record {
        capacity_bytes = capacity;
        id = itoa nid;
        attributes = some ((text "name", name) ∷ []);
      },
      record s { vols_nid = nid },
    )

-- `New`
unfoldable pub new : Service
unfolding new_volume
new =
    let empty : Service = record { node_id = name; vols = []; vols_nid = 0 } in
    let (v1, s1) = new_volume empty (text "Mock Volume 1") gib100 in
    let (v2, s2) = new_volume s1 (text "Mock Volume 2") gib100 in
    let (v3, s3) = new_volume s2 (text "Mock Volume 3") gib100 in
    record s3 { vols = v1 ∷ v2 ∷ v3 ∷ [] }

-- `m[k]` with its second result
abbrev pub attribute : VolumeInfo → Text → Option Text
attribute v k = elim v.attributes [ none ↦ none | some m ↦ lookup k m ]

-- `m[k]`, empty if the key is missing
abbrev pub text_or_empty : Option Text → Text
text_or_empty none = []
text_or_empty (some t) = t

module _ (fold : EqualFold) where
  open fold use {equal_fold}

  folds_to : Text → Option Text → Bool
  folds_to v none = false
  folds_to v (some n) = equal_fold v n

  -- The switch on the key.
  pub is_match : Text → Text → VolumeInfo → Bool
  unfolding folds_to
  is_match k v vi =
      if k == text "id"
      then equal_fold v vi.id
      else if k == text "name"
      then folds_to v (attribute vi (text "name"))
      else false

  -- The loop; `i` is the index. The result -1 is `none`.
  pub find_from : Text → Text → ℕ → List VolumeInfo → Option (ℕ × VolumeInfo)
  unfolding is_match
  find_from k v i [] = none
  find_from k v i (vi ∷ vis) = if is_match k v vi then some (i, vi) else find_from k v (i + 1) vis

  unfoldable pub find_vol_no_lock : Service → Text → Text → Option (ℕ × VolumeInfo)
  unfolding find_from
  find_vol_no_lock s k v = find_from k v 0 s.vols

  unfoldable pub find_vol_by_name : Service → Text → Option (ℕ × VolumeInfo)
  unfolding find_vol_no_lock
  find_vol_by_name s name = find_vol_no_lock s (text "name") name
