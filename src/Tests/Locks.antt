-- ===== src/Tests/Locks.antt =====
-- middleware/serialvolume on concrete requests.
use gocsi.Base.{ℕ, ◌≡◌, refl, ◌+◌, true, false, none, text, ◌==◌, lookup, insert}
use gocsi.Csi.{Request, Response}
use gocsi.Status.{Outcome, replies}
use gocsi.SerialVolume.{Key, id}
use gocsi.SerialVolume.Provider.{Locks, no_locks, get_lock, Distinct, Found, get_lock-Found}
use gocsi.SerialVolume.Steps.{
  arrived, waiting, running, World, start, arrive, get, lock, update, Reachable, none_yet, after,
}
use gocsi.SerialVolume.Exclusion.{mutual_exclusion, abort-owner, reachable-Invariant}
use gocsi.SerialVolume.Release.{Guarded}

abbrev volume : Key
volume = id (text "7")

no_locks-Distinct : Distinct no_locks
no_locks-Distinct = (reachable-Invariant none_yet).distinct

get_lock-Found_example :
    Found volume no_locks (get_lock volume no_locks).1 (get_lock volume no_locks).0
get_lock-Found_example = get_lock-Found volume no_locks no_locks-Distinct

-- Two requests for one volume: the first is in the handler, the second waits.
abbrev first_locks : Locks
first_locks = (get_lock volume no_locks).1

abbrev w1 : World
w1 = record start { threads = update start.threads 0 (arrived volume) }

abbrev w2 : World
w2 = record w1 {
  locks = first_locks;
  threads = update w1.threads 0 (waiting volume (get_lock volume no_locks).0);
}

abbrev w3 : World
w3 = record w2 {
  held = update w2.held (get_lock volume no_locks).0 true;
  threads = update w2.threads 0 (running volume (get_lock volume no_locks).0);
}

abbrev w4 : World
w4 = record w3 { threads = update w3.threads 1 (arrived volume) }

abbrev w5 : World
w5 = record w4 {
  locks = (get_lock volume w4.locks).1;
  threads = update w4.threads 1 (waiting volume (get_lock volume w4.locks).0);
}

fifth_world : Reachable w5
unfolding get_lock lookup insert text ◌==◌
fifth_world =
    after
      (after
        (after (after (after none_yet (arrive 0 volume refl)) (get 0 volume refl))
          (lock 0 volume 0 refl refl))
        (arrive 1 volume refl))
      (get 1 volume refl)

runs_0 : w5.threads 0 ≡ running volume 0
unfolding get_lock lookup insert text ◌==◌
runs_0 = refl

waits_1 : w5.threads 1 ≡ waiting volume 0
unfolding get_lock lookup insert text ◌==◌
waits_1 = refl

held_0 : w5.held 0 ≡ true
unfolding get_lock lookup insert text ◌==◌
held_0 = refl

mutual_exclusion_example : ◌≡◌ {A = ℕ} 0 0
mutual_exclusion_example = mutual_exclusion w5 0 0 volume 0 0 fifth_world runs_0 runs_0

abort-owner_example : (j : ℕ) × (w5.threads j ≡ running volume 0)
abort-owner_example = abort-owner w5 1 volume 0 fifth_world waits_1 held_0

-- A request to delete the volume, to a handler that counts its calls.
abbrev delete_7 : Request
delete_7 =
    Request.delete_volume (record { version = none; volume_id = text "7"; user_credentials = none })

abbrev count_call : ℕ → Outcome × ℕ
count_call n = (replies Response.delete_volume, n + 1)

abbrev unlocked : Guarded ℕ
unlocked = record { locks = no_locks; held = λ a. false; inner = 5 }
