-- ===== src/SerialVolume/Release.antt =====
-- One request through the interceptor of middleware/serialvolume/serial_volume_locker.go, with the locks
-- of default_lock_provider.go, while no other request takes a step.
use gocsi.Base.{ℕ, ◌≡◌, Bool, true, false}
use gocsi.Csi.{Request}
use gocsi.Status.{Outcome, refuses, aborted}
use gocsi.SerialVolume.{Key, Lookup, Locker, got, pending, handle}
use gocsi.SerialVolume.Provider.{Locks, get_lock}
use gocsi.SerialVolume.Steps.{update}

-- The locks, which of them are locked, and the state of the handler.
pub record Guarded (T : Type 0) : Type 0 where
  pub locks : Locks
  pub held : ℕ → Bool
  pub inner : T

module _ {T : Type 0} where
  pub found : ℕ × Locks → Guarded T → Lookup ℕ × Guarded T
  found (a, l) g = (got a, record g { locks = l })

  pub try : Bool → ℕ → Guarded T → Bool × Guarded T
  try true a g = (false, g)
  try false a g = (true, record g { held = update g.held a true })

  -- `defaultLockProvider`: its locks are no `io.Closer`.
  abbrev pub default_locker : Locker (Guarded T) ℕ
  default_locker = record {
    get_lock = λ k g. found (get_lock k g.locks) g;
    close = λ a g. g;
    try_lock = λ a g. try (g.held a) a g;
    unlock = λ a g. record g { held = update g.held a false };
  }

  -- A handler that knows nothing of the locks.
  abbrev lift : (T → Outcome × T) → Guarded T → Outcome × Guarded T
  lift h g = let (out, t) = h g.inner in (out, record g { inner = t })

  unfoldable pub serial : Request → (T → Outcome × T) → Guarded T → Outcome × Guarded T
  unfolding found try
  serial req h g = handle default_locker req (lift h) g

  -- What the interceptor does for a request that needs the lock of `k`.
  pub data Serves (k : Key) (h : T → Outcome × T) (g : Guarded T)
      : Outcome × Guarded T → Type 0 where
    refused :
        g.held (get_lock k g.locks).0 ≡ true
        → Serves k h g (refuses aborted pending, record g { locks = (get_lock k g.locks).1 })
    served :
        {held : ℕ → Bool}
        → g.held (get_lock k g.locks).0 ≡ false
        → ((b : ℕ) → held b ≡ g.held b)
        → Serves k h g (
          (h g.inner).0,
          record { locks = (get_lock k g.locks).1; held = held; inner = (h g.inner).1 },
        )
