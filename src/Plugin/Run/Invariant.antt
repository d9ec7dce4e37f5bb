-- ===== src/Plugin/Run/Invariant.antt =====
-- What every step of a process of gocsi.go keeps.
use gocsi.Base.{
  ◌≡◌, ◌≢◌, ◌⊎◌, refl, ap, sym, ◌∙◌, arith, ℕ, Bool, true, false, Bool-cases, inl, inr, Option,
  none, some, if◌then◌else◌,
}
use mathlib.Core.Path.{subst}
use gocsi.Status.{Error}
use gocsi.Plugin.Run.{
  Signal, sigterm, sighup, sigint, sigquit, other, Process, Main, aborted, returned, Trap, waiting,
  stopping, draining, removing, leaving, Ending, running, exited, crashed, rm_sock_file, stop,
  after_serve, is_exit_signal,
}

-- No call is pending, and none can begin.
abbrev pub IsDrained : Process → Type 0
IsDrained p = (p.listening ≡ false) × (p.pending ≡ 0)

-- What holds where the goroutine of the signals is; every stop is graceful.
abbrev pub TrapHolds : Bool → Process → Trap → Type 0
TrapHolds unix p waiting = p.stop_once ≡ false
TrapHolds unix p (stopping graceful) = (graceful ≡ true) × (p.stop_once ≡ false)
TrapHolds unix p (draining graceful) = (graceful ≡ true) × (p.listening ≡ false)
TrapHolds unix p (removing graceful) = (graceful ≡ true) × IsDrained p
TrapHolds unix p (leaving graceful) = (graceful ≡ true) × (p.rm_once ≡ true) × IsDrained p

-- An exit leaves no socket file, or is the one of `initInterceptors`; one with the code 0 leaves no
-- call.
abbrev pub EndHolds : Main → Bool → ℕ → Ending → Type 0
EndHolds main sock_file pending running = Unit
EndHolds main sock_file pending (exited n) =
    ((sock_file ≡ false) ⊎ ((main ≡ aborted) × (n ≡ 1))) × (n ≡ 0 → pending ≡ 0)
EndHolds main sock_file pending crashed = Unit

pub record Holds (unix : Bool) (p : Process) : Type 0 where
  pub trap : p.ending ≡ running → TrapHolds unix p p.trap
  pub ending : EndHolds p.main p.sock_file p.pending p.ending
  pub file : p.rm_once ≡ true → p.sock_file ≡ false
  pub kept : unix ≡ false → p.sock_file ≡ false
  pub failed : p.main ≢ returned none

module _ (unix : Bool) where
  trap_kept :
      (p q : Process) (t : Trap)
      → q.stop_once ≡ p.stop_once
      → (p.listening ≡ false → q.listening ≡ false)
      → (IsDrained p → q.pending ≡ 0)
      → (p.rm_once ≡ true → q.rm_once ≡ true)
      → TrapHolds unix p t
      → TrapHolds unix q t
  trap_kept p q waiting so li pe rm h = so ∙ h
  trap_kept p q (stopping g) so li pe rm (e, h) = (e, so ∙ h)
  trap_kept p q (draining g) so li pe rm (e, h) = (e, li h)
  trap_kept p q (removing g) so li pe rm (e, h) = (e, (li h.0, pe h))
  trap_kept p q (leaving g) so li pe rm (e, r, h) = (e, rm r, (li h.0, pe h))

  pub still_running : (m : Main) (b : Bool) (n : ℕ) (e : Ending) → e ≡ running → EndHolds m b n e
  still_running m b n running h = tt
  still_running m b n (exited k) h = absurd (cc)
  still_running m b n crashed h = tt

  -- A step that ends the process with neither a call nor the file touched.
  pub end_step :
      (p : Process) (m : Main) (e : Ending)
      → Holds unix p
      → m ≢ returned none
      → e ≢ running
      → EndHolds m p.sock_file p.pending e
      → Holds unix (record p { main = m; ending = e })
  end_step p m e h ne over k = record {
    trap = λ r'. absurd (over r');
    ending = k;
    file = h.file;
    kept = h.kept;
    failed = ne;
  }

  pub no_file :
      (p : Process)
      → (p.rm_once ≡ true → p.sock_file ≡ false)
      → (unix ≡ false → p.sock_file ≡ false)
      → (rm_sock_file unix p).sock_file ≡ false
  unfolding rm_sock_file
  no_file p file kept = ground arith

  -- A step of the main goroutine within `Serve`, or of a call.
  pub main_step :
      (p : Process) (m : Main) (hs li : Bool) (n : ℕ)
      → Holds unix p
      → p.ending ≡ running
      → m ≢ returned none
      → (p.listening ≡ false → li ≡ false)
      → (IsDrained p → n ≡ 0)
      → Holds unix (record p { main = m; has_server = hs; listening = li; pending = n })
  main_step p m hs li n h r ne fl fp = record {
    trap = λ r'.
        trap_kept p (record p { main = m; has_server = hs; listening = li; pending = n }) p.trap
          refl fl fp (λ e. e) (h.trap r);
    ending = still_running m p.sock_file n p.ending r;
    file = h.file;
    kept = h.kept;
    failed = ne;
  }

  -- A step of the goroutine of the signals that keeps the rest.
  pub trap_step :
      (p : Process) (t : Trap)
      → Holds unix p
      → p.ending ≡ running
      → TrapHolds unix (record p { trap = t }) t
      → Holds unix (record p { trap = t })
  trap_step p t h r k = record {
    trap = λ r'. k;
    ending = still_running p.main p.sock_file p.pending p.ending r;
    file = h.file;
    kept = h.kept;
    failed = h.failed;
  }

  pub at_trap :
      (p : Process) (t : Trap) → Holds unix p → p.ending ≡ running → p.trap ≡ t → TrapHolds unix p t
  at_trap p t h r e = subst (TrapHolds unix p) e (h.trap r)

  pub stop-Holds :
      (p : Process) (g : Bool)
      → Holds unix p
      → p.ending ≡ running
      → g ≡ true
      → p.stop_once ≡ false
      → Holds unix (stop g p)
  unfolding stop
  stop-Holds p g h r gt so = elim (Bool-cases p.has_server) [
    | inl there ↦
        rw (so, there)
          (record {
            trap = λ r'. (gt, refl);
            ending = still_running p.main p.sock_file (if g then p.pending else 0) p.ending r;
            file = h.file;
            kept = h.kept;
            failed = h.failed;
          })
    | inr missing ↦
        rw (so, missing)
          (record {
            trap = λ r'. absurd (cc);
            ending = tt;
            file = h.file;
            kept = h.kept;
            failed = h.failed;
          })
  ]

  pub after_serve-Holds :
      (p : Process) (err : Option Error)
      → Holds unix p
      → p.main ≡ returned err
      → Holds unix (after_serve unix err p)
  unfolding after_serve rm_sock_file
  after_serve-Holds p none h e = absurd (h.failed e)
  after_serve-Holds p (some x) h e = record {
    trap = λ r'. absurd (cc);
    ending = (inl (no_file p h.file h.kept), λ z. absurd (omega (arith, z)));
    file = λ _. no_file p h.file h.kept;
    kept = λ _. no_file p h.file h.kept;
    failed = h.failed;
  }

  pub signal_graceful : (s : Signal) (g : Bool) → is_exit_signal s ≡ (true, g) → g ≡ true
  unfolding is_exit_signal
  signal_graceful sigterm g h = sym (ap (λ x. x.1) h)
  signal_graceful sighup g h = sym (ap (λ x. x.1) h)
  signal_graceful sigint g h = sym (ap (λ x. x.1) h)
  signal_graceful sigquit g h = sym (ap (λ x. x.1) h)
  signal_graceful other g h = absurd (cc)
