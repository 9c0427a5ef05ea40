-- ===== src/Tests/Runs.antt =====
-- Executions of `run`, and of a command line.
use gardener_discovery_serve.Common.{
  ℕ, ◌≡◌, ◌≢◌, ◌+◌, ◌≤◌, refl, ◌⊎◌, inl, inr, true, false, none, some, arith,
}
use gardener_discovery_serve.App.Run.{
  start_returned, manager_done, listening, sending, selecting, shutting_down, server_returned,
  server_sent, returned, State, init, signal, start_fails, listen_fails, select_done,
  shutdown_returns, manager_first, cancel_srv, server_second, Reach, start, later,
}
use gardener_discovery_serve.App.Run.Ends.{
  manager_gave, server_gave, rank, run_returns_both, run_bounded,
}
use gardener_discovery_serve.App.Run.Progress.{IsReturned}
use gardener_discovery_serve.App.Run.Stops.{
  DuePath, run_stops, StepPath, stay, move, listener_blocks,
}

-- an error is a number
abbrev failed : State ℕ
failed = record init { manager = start_returned (some 7) }

manager_failed : Reach 1 failed
manager_failed = later start (inr (start_fails (some 7) refl refl))

abbrev ended : State ℕ
ended = record {
  ctx_done = false;
  srv_cancelled = true;
  mgr_cancelled = false;
  shutdown_called = true;
  manager = manager_done (some 7);
  listener = listening;
  server = server_sent none;
  main = returned (some 7) none;
}

-- The manager fails, and the server is shut down.
ended_reached : Reach 6 ended
ended_reached =
    later
      (later
        (later
          (later (later manager_failed (inl (manager_first (some 7) refl refl refl)))
            (inl (cancel_srv (some 7) refl refl)))
          (inl (select_done refl refl refl)))
        (inl (shutdown_returns none refl refl)))
      (inl (server_second none (some 7) refl refl refl))

ended_returns_both :
    ((manager_gave ended.manager ≡ some (some 7)) × (server_gave ended.server ≡ some none))
    ⊎ ((server_gave ended.server ≡ some (some 7)) × (manager_gave ended.manager ≡ some none))
ended_returns_both = run_returns_both 6 ended (some 7) none ended_reached refl

ended_bounded : 6 + rank ended ≤ 10
ended_bounded = run_bounded 6 ended ended_reached

run_stops_example : (t : State ℕ) × DuePath failed t × IsReturned t
run_stops_example = run_stops 1 failed manager_failed (omega arith)

-- The port is taken, and a signal comes before `runServer` looks.
abbrev lost : State ℕ
lost = record init {
  ctx_done = true;
  shutdown_called = true;
  listener = sending 7;
  server = shutting_down;
}

lost_reached : Reach 3 lost
lost_reached =
    later (later (later start (inr (listen_fails 7 refl refl))) (inr (signal refl refl)))
      (inl (select_done refl refl refl))

abbrev forgotten : State ℕ
forgotten = record lost { server = server_returned none }

shut_down : StepPath lost forgotten
shut_down = move (inl (shutdown_returns none refl refl)) stay

listener_blocks_example : (forgotten.listener ≡ sending 7) × (forgotten.server ≢ selecting)
listener_blocks_example = listener_blocks 7 shut_down refl (λ e. cc)
