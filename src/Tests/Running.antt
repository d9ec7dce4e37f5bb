-- ===== src/Tests/Running.antt =====
-- Two runs of a process of gocsi.go, over a socket file.
use gocsi.Base.{zero, ◌≡◌, ◌⊎◌, refl, true, false, some, text}
use gocsi.Status.{Error, plain}
use gocsi.Plugin.Run.{
  Process, aborted, exited, init_exits, rm_sock_file, stop, after_serve, is_exit_signal, sigterm,
  make_server, start_serving, call_begins, call_ends, accept_fails, serve_returned, signal,
  stop_server, drained, remove_file, leave, Reachable, begins, steps,
}
use gocsi.Plugin.Run.Exit.{exited_clean}

abbrev closed : Error
closed = plain (text "use of closed network connection")

-- A signal stops the server while a call is pending; `GracefulStop` waits for its end.
waits : (p : Process) × Reachable true p × (p.ending ≡ exited 0)
unfolding stop rm_sock_file is_exit_signal
waits =
    let a = steps begins refl (make_server refl) in
    let b = steps a refl (start_serving refl) in
    let c = steps b refl (call_begins refl refl) in
    let d = steps c refl (signal sigterm true refl refl) in
    let e = steps d refl (stop_server true refl) in
    let f = steps e refl (call_ends 0 refl) in
    let g = steps f refl (drained true refl refl) in
    let h = steps g refl (remove_file true refl) in (_, steps h refl (leave true refl), refl)

exited_clean_example :
    ((waits.0.sock_file ≡ false) ⊎ ((waits.0.main ≡ aborted) × (zero ≡ 1)))
    × (zero ≡ zero → waits.0.pending ≡ 0)
exited_clean_example = exited_clean true waits.0 0 waits.1 waits.2

-- The same, but `Serve` returns with an error once the listener is closed, and the main goroutine
-- exits before the call ends.
cut_off : (p : Process) × Reachable true p × (p.ending ≡ exited 1) × (p.pending ≡ 1)
unfolding stop rm_sock_file is_exit_signal after_serve
cut_off =
    let a = steps begins refl (make_server refl) in
    let b = steps a refl (start_serving refl) in
    let c = steps b refl (call_begins refl refl) in
    let d = steps c refl (signal sigterm true refl refl) in
    let e = steps d refl (stop_server true refl) in
    let f = steps e refl (accept_fails closed refl) in
    (_, steps f refl (serve_returned (some closed) refl), refl, refl)

-- The etcd client cannot be made: the process exits, and its socket file stays.
left_behind : (p : Process) × Reachable true p × (p.ending ≡ exited 1) × (p.sock_file ≡ true)
left_behind = (_, steps begins refl (init_exits refl), refl, refl)
