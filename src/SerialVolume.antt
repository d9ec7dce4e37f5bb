-- ===== src/SerialVolume.antt =====
-- middleware/serialvolume/serial_volume_locker.go: requests for one volume are served one at a time.
pub mod Provider
pub mod Steps
pub mod Exclusion
pub mod Release
pub mod Etcd
use gocsi.Base.{◌≡◌, Bool, true, false, Option, none, some, Text, text}
use native.Mathlib.Decide.{ℕ_discrete}
use gocsi.Csi.{Request}
use gocsi.Status.{Error, Outcome, no_reply, returned, refuses, aborted}
use gocsi.Utils.Chain.{Handler}

abbrev pub pending : Text
pending = text "pending"

-- What a lock is for: a volume's id, or its name.
pub data Key : Type 0 where
  id : Text → Key
  named : Text → Key

pub Key-discrete : Discrete Key
Key-discrete = hlevel ℕ_discrete

-- What `GetLockWithID` and `GetLockWithName` return.
pub data Lookup (L : Type 0) : Type 0 where
  got : L → Lookup L
  failed : Error → Lookup L

-- `VolumeLockerProvider` and `gosync.TryLocker`: the locks live in the state `S`. `close` does
-- nothing for a lock that is no `io.Closer`; `try_lock` is with the timeout of the options.
pub record Locker (S L : Type 0) : Type 0 where
  pub get_lock : Key → S → Lookup L × S
  pub close : L → S → S
  pub try_lock : L → S → Bool × S
  pub unlock : L → S → S

-- The switch of `handle`: the lock that a request needs.
unfoldable pub key_of : Request → Option Key
key_of (Request.controller_publish_volume req) = some (id req.volume_id)
key_of (Request.controller_unpublish_volume req) = some (id req.volume_id)
key_of (Request.create_volume req) = some (named req.name)
key_of (Request.delete_volume req) = some (id req.volume_id)
key_of (Request.node_publish_volume req) = some (id req.volume_id)
key_of (Request.node_unpublish_volume req) = some (id req.volume_id)
key_of (Request.validate_volume_capabilities req) = none
key_of (Request.list_volumes req) = none
key_of (Request.get_capacity req) = none
key_of (Request.controller_get_capabilities v) = none
key_of (Request.controller_probe v) = none
key_of Request.get_supported_versions = none
key_of (Request.get_plugin_info v) = none
key_of (Request.get_node_id v) = none
key_of (Request.node_probe v) = none
key_of (Request.node_get_capabilities v) = none

module _ {S L : Type 0} (locker : Locker S L) where
  open locker use {get_lock, close, try_lock, unlock}

  -- The handler under the lock; the deferred `Unlock` and `Close` run when it panics, too.
  pub after_try : L → Bool × S → (S → Outcome × S) → Outcome × S
  after_try l (false, s) next = (refuses aborted pending, close l s)
  after_try l (true, s) next = let (out, s') = next s in (out, close l (unlock l s'))

  pub after_get : Lookup L × S → (S → Outcome × S) → Outcome × S
  unfolding after_try
  after_get (failed e, s) next = (returned no_reply (some e), s)
  after_get (got l, s) next = after_try l (try_lock l s) next

  -- `handle`, and the six methods that it calls.
  unfoldable pub handle : Request → (S → Outcome × S) → S → Outcome × S
  unfolding after_get
  handle req next s = elim (key_of req) [ none ↦ next s | some k ↦ after_get (get_lock k s) next ]
