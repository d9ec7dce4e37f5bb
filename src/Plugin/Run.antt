-- ===== src/Plugin/Run.antt =====
-- gocsi.go: `Run` from the listener on, with the goroutine that `trapSignals` starts. Of the grpc
-- server, it takes that `Stop` and `GracefulStop` close the listener, that `Serve` returns an error
-- once the listener is closed, and that `GracefulStop` waits for the pending calls; of `RemoveAll`, that
-- it removes the file; of a goroutine that panics, that it ends the process, as grpc recovers no
-- handler's panic. The plug-in's own code, its hook and its handlers, does not itself exit the process.
pub mod Invariant
pub mod Exit
use gocsi.Base.{
  ◌≡◌, ℕ, zero, suc, Bool, true, false, Option, none, some, Text, is_empty, if◌then◌else◌, ◌||◌,
  ◌&&◌, not,
}
use gocsi.Status.{Error}

pub data Signal : Type 0 where
  sigterm sighup sigint sigquit other : Signal

-- `isExitSignal`
unfoldable pub is_exit_signal : Signal → Bool × Bool
is_exit_signal other = (false, false)
is_exit_signal _ = (true, true)

-- Where the main goroutine is in `sp.Serve`: before the server is made, before it serves, in it, in
-- the `log.Fatal` of `initInterceptors`, or behind `Serve`, with the error.
pub data Main : Type 0 where
  preparing made serving aborted : Main
  returned : Option Error → Main

-- Where the goroutine of the signals is: before a signal, before the stop of the server, in the wait
-- for the pending calls, before the removal of the file, or before the exit; all but the first with
-- whether the stop is graceful.
pub data Trap : Type 0 where
  waiting : Trap
  stopping draining removing leaving : (graceful : Bool) → Trap

pub data Ending : Type 0 where
  running : Ending
  exited : ℕ → Ending
  crashed : Ending

pub record Process : Type 0 where
  pub main : Main
  pub trap : Trap
  -- `sp.server` is not nil.
  pub has_server : Bool
  -- the functions of `stopOnce` and `rmSockFileOnce` have run
  pub stop_once : Bool
  pub rm_once : Bool
  pub listening : Bool
  pub pending : ℕ
  pub sock_file : Bool
  pub ending : Ending

-- What `Run` does before it listens; `help` is the flag -?.
pub data Begun : Type 0 where
  usage_exit fatal : Begun
  begun : Process → Begun

abbrev pub listening_process : Bool → Process
listening_process unix = record {
  main = preparing;
  trap = waiting;
  has_server = false;
  stop_once = false;
  rm_once = false;
  listening = true;
  pending = 0;
  sock_file = unix;
  ending = running;
}

after_listen : Option Bool → Begun
after_listen none = fatal
after_listen (some unix) = begun (listening_process unix)

-- `listener` is the result of GetCSIEndpointListener: an error, or whether its network is "unix".
unfoldable pub begin : (help : Bool) → (endpoint : Text) → (listener : Option Bool) → Begun
unfolding after_listen
begin help endpoint listener =
    if help || is_empty endpoint then usage_exit else after_listen listener

-- `rmSockFile`
unfoldable pub rm_sock_file : Bool → Process → Process
rm_sock_file unix p = record p {
  rm_once = true;
  sock_file = if unix && not p.rm_once then false else p.sock_file;
}

-- `Stop` and `GracefulStop`, up to the wait for the pending calls; without a server they dereference
-- nil. A second stop does nothing.
unfoldable pub stop : Bool → Process → Process
stop graceful p =
    if p.stop_once
    then record p { trap = removing graceful }
    else if p.has_server
    then record p {
      trap = draining graceful;
      stop_once = true;
      listening = false;
      pending = if graceful then p.pending else 0;
    }
    else record p { stop_once = true; ending = crashed }

-- `log.Fatal` behind `rmSockFile`, where `Serve` has an error.
unfoldable pub after_serve : Bool → Option Error → Process → Process
unfolding rm_sock_file
after_serve unix none p = record p { ending = exited 0 }
after_serve unix (some e) p = record (rm_sock_file unix p) { ending = exited 1 }

-- The end of a trap: `os.Exit(0)` if the stop was graceful, and else `os.Exit(1)`.
abbrev pub exit_code : Bool → ℕ
exit_code true = 0
exit_code false = 1

-- One step of a process that runs.
pub data Step (unix : Bool) : Process → Process → Type 0 where
  serve_fails :
      {p : Process} (e : Error)
      → p.main ≡ preparing
      → Step unix p (record p { main = returned (some e) })
  -- `log.Fatal` in `initInterceptors`, without `rmSockFile`
  init_exits :
      {p : Process}
      → p.main ≡ preparing
      → Step unix p (record p { main = aborted; ending = exited 1 })
  -- a panic in `BeforeServe`, `initPluginInfo` or `initInterceptors`
  serve_panics : {p : Process} → p.main ≡ preparing → Step unix p (record p { ending = crashed })
  make_server :
      {p : Process} → p.main ≡ preparing → Step unix p (record p { main = made; has_server = true })
  register_fails :
      {p : Process} (e : Error)
      → p.main ≡ made
      → Step unix p (record p { main = returned (some e) })
  start_serving : {p : Process} → p.main ≡ made → Step unix p (record p { main = serving })
  call_begins :
      {p : Process}
      → p.main ≡ serving
      → p.listening ≡ true
      → Step unix p (record p { pending = suc p.pending })
  call_ends : {p : Process} (n : ℕ) → p.pending ≡ suc n → Step unix p (record p { pending = n })
  call_panics :
      {p : Process} (n : ℕ) → p.pending ≡ suc n → Step unix p (record p { ending = crashed })
  accept_fails :
      {p : Process} (e : Error)
      → p.main ≡ serving
      → Step unix p (record p { main = returned (some e); listening = false })
  serve_returned :
      {p : Process} (err : Option Error)
      → p.main ≡ returned err
      → Step unix p (after_serve unix err p)
  signal :
      {p : Process} (s : Signal) (graceful : Bool)
      → p.trap ≡ waiting
      → is_exit_signal s ≡ (true, graceful)
      → Step unix p (record p { trap = stopping graceful })
  stop_server :
      {p : Process} (graceful : Bool) → p.trap ≡ stopping graceful → Step unix p (stop graceful p)
  drained :
      {p : Process} (graceful : Bool)
      → p.trap ≡ draining graceful
      → p.pending ≡ 0
      → Step unix p (record p { trap = removing graceful })
  remove_file :
      {p : Process} (graceful : Bool)
      → p.trap ≡ removing graceful
      → Step unix p (record (rm_sock_file unix p) { trap = leaving graceful })
  leave :
      {p : Process} (graceful : Bool)
      → p.trap ≡ leaving graceful
      → Step unix p (record p { ending = exited (exit_code graceful) })

-- What a process may come to; one that has ended makes no step.
pub data Reachable (unix : Bool) : Process → Type 0 where
  begins : Reachable unix (listening_process unix)
  steps : {p q : Process} → Reachable unix p → p.ending ≡ running → Step unix p q → Reachable unix q
