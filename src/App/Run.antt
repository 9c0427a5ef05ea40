-- ===== src/App/Run.antt =====
-- cmd/discovery-server/app/app.go: the end of `run`, and `runServer`: which goroutines there are, the
-- channels and contexts between them, and their steps in any order. A channel without a buffer passes
-- a value when both sides are there, in one step.
pub mod Ends
pub mod Progress
pub mod Stops
use gardener_discovery_serve.Common.{ℕ, suc, ◌≡◌, Bool, true, false, ◌||◌, ◌⊎◌, Option, none, some}

-- `mgrCh <- mgr.Start(mgrCtx)`, and then `cancelSrv()`
pub data Manager (E : Type 0) : Type 0 where
  running : Manager E
  start_returned : Option E → Manager E
  manager_sent : Option E → Manager E
  manager_done : Option E → Manager E

-- the goroutine of `runServer`, about `ListenAndServeTLS` and `errCh`
pub data Listener (E : Type 0) : Type 0 where
  listening : Listener E
  sending : E → Listener E
  delivered : E → Listener E
  closed : Listener E

-- `srvCh <- runServer(serverCtx, log, srv)`, and then `cancelMgr()`
pub data Server (E : Type 0) : Type 0 where
  selecting : Server E
  shutting_down : Server E
  server_returned : Option E → Server E
  server_sent : Option E → Server E
  server_done : Option E → Server E

-- `run` itself, from its `select` on; the results are in the order of `errors.Join`
pub data Main (E : Type 0) : Type 0 where
  waiting : Main E
  has_manager : Option E → Main E
  has_server : Option E → Main E
  returned : Option E → Option E → Main E

-- `ctx_done` is the context of the command, which a signal cancels; the other two are its children.
pub record State (E : Type 0) : Type 0 where
  pub ctx_done : Bool
  pub srv_cancelled : Bool
  pub mgr_cancelled : Bool
  pub shutdown_called : Bool
  pub manager : Manager E
  pub listener : Listener E
  pub server : Server E
  pub main : Main E

abbrev pub init : {E : Type 0} → State E
init = record {
  ctx_done = false;
  srv_cancelled = false;
  mgr_cancelled = false;
  shutdown_called = false;
  manager = running;
  listener = listening;
  server = selecting;
  main = waiting;
}

module _ {E : Type 0} where
  -- What may happen at any time: a signal, a failure of the manager, a failure to serve.
  pub data Free (s t : State E) : Type 0 where
    signal : s.ctx_done ≡ false → t ≡ record s { ctx_done = true } → Free s t
    start_fails :
        (e : Option E)
        → s.manager ≡ running
        → t ≡ record s { manager = start_returned e }
        → Free s t
    listen_fails :
        (e : E) → s.listener ≡ listening → t ≡ record s { listener = sending e } → Free s t

  -- What does happen when it can: the steps of the code, the return of `Start` once its context is
  -- cancelled, of `Shutdown` within its timeout, and of `ListenAndServeTLS` with `ErrServerClosed`
  -- after `Shutdown` was called.
  pub data Due (s t : State E) : Type 0 where
    start_stops :
        (e : Option E)
        → s.manager ≡ running
        → (s.ctx_done || s.mgr_cancelled) ≡ true
        → t ≡ record s { manager = start_returned e }
        → Due s t
    listen_closes :
        s.listener ≡ listening
        → s.shutdown_called ≡ true
        → t ≡ record s { listener = closed }
        → Due s t
    select_error :
        (e : E)
        → s.server ≡ selecting
        → s.listener ≡ sending e
        → t ≡ record s { server = server_returned (some e); listener = delivered e }
        → Due s t
    select_closed :
        s.server ≡ selecting
        → s.listener ≡ closed
        → t ≡ record s { server = server_returned none }
        → Due s t
    select_done :
        s.server ≡ selecting
        → (s.ctx_done || s.srv_cancelled) ≡ true
        → t ≡ record s { server = shutting_down; shutdown_called = true }
        → Due s t
    shutdown_returns :
        (e : Option E)
        → s.server ≡ shutting_down
        → t ≡ record s { server = server_returned e }
        → Due s t
    manager_first :
        (e : Option E)
        → s.manager ≡ start_returned e
        → s.main ≡ waiting
        → t ≡ record s { manager = manager_sent e; main = has_manager e }
        → Due s t
    manager_second :
        (e e' : Option E)
        → s.manager ≡ start_returned e
        → s.main ≡ has_server e'
        → t ≡ record s { manager = manager_sent e; main = returned e' e }
        → Due s t
    cancel_srv :
        (e : Option E)
        → s.manager ≡ manager_sent e
        → t ≡ record s { manager = manager_done e; srv_cancelled = true }
        → Due s t
    server_first :
        (e : Option E)
        → s.server ≡ server_returned e
        → s.main ≡ waiting
        → t ≡ record s { server = server_sent e; main = has_server e }
        → Due s t
    server_second :
        (e e' : Option E)
        → s.server ≡ server_returned e
        → s.main ≡ has_manager e'
        → t ≡ record s { server = server_sent e; main = returned e' e }
        → Due s t
    cancel_mgr :
        (e : Option E)
        → s.server ≡ server_sent e
        → t ≡ record s { server = server_done e; mgr_cancelled = true }
        → Due s t

  abbrev pub Step : State E → State E → Type 0
  Step s t = Due s t ⊎ Free s t

  -- The states that `n` steps lead to.
  pub data Reach : ℕ → State E → Type 0 where
    start : Reach 0 init
    later : {n : ℕ} {s t : State E} → Reach n s → Step s t → Reach (suc n) t
