-- ===== src/Plugin/Run/Exit.antt =====
-- How a process of gocsi.go exits.
use gocsi.Base.{◌≡◌, ◌⊎◌, refl, arith, ℕ, suc, Bool, true, false, inl, inr, some}
use mathlib.Core.Path.{subst}
use gocsi.Plugin.Run.{
  Process, made, serving, aborted, returned, waiting, stopping, draining, removing, leaving,
  running, exited, crashed, rm_sock_file, is_exit_signal, Step, serve_fails, init_exits,
  serve_panics, make_server, register_fails, start_serving, call_begins, call_ends, call_panics,
  accept_fails, serve_returned, signal, stop_server, drained, remove_file, leave, Reachable, begins,
  steps,
}
use gocsi.Plugin.Run.Invariant.{
  Holds, EndHolds, still_running, end_step, no_file, main_step, trap_step, at_trap, stop-Holds,
  after_serve-Holds, signal_graceful,
}

module _ (unix : Bool) where
  Step-Holds : (p q : Process) → Holds unix p → p.ending ≡ running → Step unix p q → Holds unix q
  unfolding is_exit_signal rm_sock_file
  Step-Holds p _ h r (serve_fails e m) =
      main_step unix p (returned (some e)) p.has_server p.listening p.pending h r (λ d. cc) (λ l. l)
        (λ d. d.1)
  Step-Holds p _ h r (init_exits m) =
      end_step unix p aborted (exited 1) h (λ d. cc) (λ d. cc)
        (inr (refl, refl), λ z. absurd (omega (arith, z)))
  Step-Holds p _ h r (serve_panics m) = end_step unix p p.main crashed h h.failed (λ d. cc) tt
  Step-Holds p _ h r (make_server m) =
      main_step unix p made true p.listening p.pending h r (λ d. cc) (λ l. l) (λ d. d.1)
  Step-Holds p _ h r (register_fails e m) =
      main_step unix p (returned (some e)) p.has_server p.listening p.pending h r (λ d. cc) (λ l. l)
        (λ d. d.1)
  Step-Holds p _ h r (start_serving m) =
      main_step unix p serving p.has_server p.listening p.pending h r (λ d. cc) (λ l. l) (λ d. d.1)
  Step-Holds p _ h r (call_begins m l) =
      main_step unix p p.main p.has_server p.listening (suc p.pending) h r h.failed (λ l. l)
        (λ d. absurd (cc))
  Step-Holds p _ h r (call_ends n e) =
      main_step unix p p.main p.has_server p.listening n h r h.failed (λ l. l)
        (λ d. absurd (omega (arith, d.1, e)))
  Step-Holds p _ h r (call_panics n e) = end_step unix p p.main crashed h h.failed (λ d. cc) tt
  Step-Holds p _ h r (accept_fails e m) =
      main_step unix p (returned (some e)) p.has_server false p.pending h r (λ d. cc) (λ l. refl)
        (λ d. d.1)
  Step-Holds p _ h r (serve_returned err m) = after_serve-Holds unix p err h m
  Step-Holds p _ h r (signal s graceful w e) =
      trap_step unix p (stopping graceful) h r
        (signal_graceful unix s graceful e, at_trap unix p waiting h r w)
  Step-Holds p _ h r (stop_server graceful w) =
      let (g, so) = at_trap unix p (stopping graceful) h r w in stop-Holds unix p graceful h r g so
  Step-Holds p _ h r (drained graceful w n) =
      let (g, l) = at_trap unix p (draining graceful) h r w in
      trap_step unix p (removing graceful) h r (g, (l, n))
  Step-Holds p _ h r (remove_file graceful w) =
      let (g, d) = at_trap unix p (removing graceful) h r w in
      record {
        trap = λ r'. (g, refl, d);
        ending = still_running unix p.main (rm_sock_file unix p).sock_file p.pending p.ending r;
        file = λ e. no_file unix p h.file h.kept;
        kept = λ e. no_file unix p h.file h.kept;
        failed = h.failed;
      }
  Step-Holds p _ h r (leave graceful w) =
      let (g, once, d) = at_trap unix p (leaving graceful) h r w in
      record {
        trap = λ r'. absurd (cc);
        ending = (inl (h.file once), λ z. d.1);
        file = h.file;
        kept = h.kept;
        failed = h.failed;
      }

  Reachable-Holds : {p : Process} → Reachable unix p → Holds unix p
  Reachable-Holds begins = record {
    trap = λ r. refl;
    ending = tt;
    file = λ e. absurd (cc);
    kept = λ e. e;
    failed = λ e. cc;
  }
  Reachable-Holds (steps {p} {q} before r s) = Step-Holds p q (Reachable-Holds before) r s

  -- However the calls, the main goroutine and the signals interleave: a process that has exited has
  -- removed its socket file, unless it is `initInterceptors` that ended it, with the code 1; and one
  -- that has exited with the code 0 has no pending call.
  pub exited_clean :
      (p : Process) (code : ℕ)
      → Reachable unix p
      → p.ending ≡ exited code
      → ((p.sock_file ≡ false) ⊎ ((p.main ≡ aborted) × (code ≡ 1))) × (code ≡ 0 → p.pending ≡ 0)
  exited_clean p code reach e =
      subst (EndHolds p.main p.sock_file p.pending) e (Reachable-Holds reach).ending
