-- ===== src/SerialVolume/Steps.antt =====
-- The requests that run at the same time through the interceptor of
-- middleware/serialvolume/serial_volume_locker.go, with the locks of default_lock_provider.go.
use gocsi.Base.{ℕ, ◌≡◌, Bool, true, false, some, nat_eq, if◌then◌else◌}
use gocsi.SerialVolume.{Key}
use gocsi.SerialVolume.Provider.{Locks, no_locks, get_lock, lock_of, Distinct}

-- A request: it has not looked up its lock, it waits in `TryLock`, it is in the handler, or it is over.
pub data Thread : Type 0 where
  arrived : Key → Thread
  waiting : Key → ℕ → Thread
  running : Key → ℕ → Thread
  over : Thread

-- `held` says of each `TryMutex` whether it is locked.
pub record World : Type 0 where
  pub locks : Locks
  pub held : ℕ → Bool
  pub threads : ℕ → Thread

abbrev pub update {ℓ} : {A : Type ℓ} → (ℕ → A) → ℕ → A → ℕ → A
update f i x j = if nat_eq i j then x else f j

abbrev pub start : World
start = record { locks = no_locks; held = λ a. false; threads = λ i. over }

-- The steps of one request, `i`, while the others stand still. A `TryLock` that waits may time out at
-- any time: when the mutex is freed as the timer fires, either may be taken.
pub data Step (w : World) : World → Type 0 where
  arrive :
      (i : ℕ) (k : Key)
      → w.threads i ≡ over
      → Step w (record w { threads = update w.threads i (arrived k) })
  get :
      (i : ℕ) (k : Key)
      → w.threads i ≡ arrived k
      → Step w (record w {
        locks = (get_lock k w.locks).1;
        threads = update w.threads i (waiting k (get_lock k w.locks).0);
      })
  lock :
      (i : ℕ) (k : Key) (a : ℕ)
      → w.threads i ≡ waiting k a
      → w.held a ≡ false
      → Step w
          (record w { held = update w.held a true; threads = update w.threads i (running k a) })
  abort :
      (i : ℕ) (k : Key) (a : ℕ)
      → w.threads i ≡ waiting k a
      → Step w (record w { threads = update w.threads i over })
  unlock :
      (i : ℕ) (k : Key) (a : ℕ)
      → w.threads i ≡ running k a
      → Step w (record w { held = update w.held a false; threads = update w.threads i over })

pub data Reachable : World → Type 0 where
  none_yet : Reachable start
  after : {w w' : World} → Reachable w → Step w w' → Reachable w'

-- What a request knows of its lock.
abbrev pub HasLock : Locks → Thread → Type 0
HasLock l (arrived k) = Unit
HasLock l (waiting k a) = lock_of l k ≡ some a
HasLock l (running k a) = lock_of l k ≡ some a
HasLock l over = Unit

-- The request is in the handler with the lock `a`.
abbrev pub Runs : ℕ → Thread → Type 0
Runs a (arrived k) = ⊥
Runs a (waiting k b) = ⊥
Runs a (running k b) = a ≡ b
Runs a over = ⊥

-- Every request that has a lock has the one of its key; a mutex is locked while a request runs under it, and one at most.
pub record Invariant (w : World) : Type 0 where
  pub distinct : Distinct w.locks
  pub has_lock : (i : ℕ) → HasLock w.locks (w.threads i)
  pub is_held : (i a : ℕ) → Runs a (w.threads i) → w.held a ≡ true
  pub is_alone : (i j a : ℕ) → Runs a (w.threads i) → Runs a (w.threads j) → i ≡ j
  pub has_owner : (a : ℕ) → w.held a ≡ true → (i : ℕ) × Runs a (w.threads i)
