-- ===== src/App/Run/Stops.antt =====
-- `run` of cmd/discovery-server/app/app.go comes to its return, and what may be left behind.
use gardener_discovery_serve.Common.{ℕ, zero, suc, ◌≡◌, ◌≢◌, ◌<◌, inl, inr, arith}
use gardener_discovery_serve.App.Run.{
  sending, selecting, State, signal, start_fails, listen_fails, Due, start_stops, listen_closes,
  select_error, select_closed, select_done, shutdown_returns, manager_first, manager_second,
  cancel_srv, server_first, server_second, cancel_mgr, Step, Reach, later,
}
use gardener_discovery_serve.App.Run.Ends.{rank, Due-rank, run_bounded}
use gardener_discovery_serve.App.Run.Progress.{IsServing, IsReturned, run_progresses}

module _ {E : Type 0} where
  -- Due steps, one after the other.
  pub data DuePath : State E → State E → Type 0 where
    here : {s : State E} → DuePath s s
    next : {s t u : State E} → Due s t → DuePath t u → DuePath s u

  rank-IsServing : (s : State E) → IsServing s → rank s ≡ 10
  rank-IsServing s h = ground arith

  stops_within :
      (fuel n : ℕ) (s : State E)
      → rank s < fuel
      → rank s < 10
      → Reach n s
      → (t : State E) × DuePath s t × IsReturned t
  stops_within zero n s enough moved r = absurd (omega arith)
  stops_within (suc fuel) n s enough moved r = elim (run_progresses n s r) [
    | inl done ↦ (s, here, done)
    | inr (inl serving) ↦ absurd (omega (arith, rank-IsServing s serving))
    | inr (inr (t, due)) ↦
        let (u, path, done) =
          stops_within fuel (suc n) t (omega (arith, Due-rank due)) (omega (arith, Due-rank due))
            (later r (inl due)) in
        (u, next due path, done)
  ]

  -- Once anything has happened, a signal, a failure of the manager or one of the server, the steps
  -- that are due lead `run` to its return, from every state that the goroutines reach.
  pub run_stops :
      (n : ℕ) (s : State E) → Reach n s → 0 < n → (t : State E) × DuePath s t × IsReturned t
  run_stops n s r some_step =
      stops_within 10 n s (omega (arith, run_bounded n s r)) (omega (arith, run_bounded n s r)) r

  abbrev pub IsBlocked : E → State E → Type 0
  IsBlocked e s = (s.listener ≡ sending e) × (s.server ≢ selecting)

  Step-IsBlocked : {s t : State E} (e : E) → Step s t → IsBlocked e s → IsBlocked e t
  Step-IsBlocked e (inl (start_stops x a b c)) h = ground arith
  Step-IsBlocked e (inl (listen_closes a b c)) h = ground arith
  Step-IsBlocked e (inl (select_error x a b c)) h = ground arith
  Step-IsBlocked e (inl (select_closed a b c)) h = ground arith
  Step-IsBlocked e (inl (select_done a b c)) h = ground arith
  Step-IsBlocked e (inl (shutdown_returns x a c)) h = ground arith
  Step-IsBlocked e (inl (manager_first x a b c)) h = ground arith
  Step-IsBlocked e (inl (manager_second x y a b c)) h = ground arith
  Step-IsBlocked e (inl (cancel_srv x a c)) h = ground arith
  Step-IsBlocked e (inl (server_first x a b c)) h = ground arith
  Step-IsBlocked e (inl (server_second x y a b c)) h = ground arith
  Step-IsBlocked e (inl (cancel_mgr x a c)) h = ground arith
  Step-IsBlocked e (inr (signal a c)) h = ground arith
  Step-IsBlocked e (inr (start_fails x a c)) h = ground arith
  Step-IsBlocked e (inr (listen_fails x a c)) h = ground arith

  -- Any steps, one after the other.
  pub data StepPath : State E → State E → Type 0 where
    stay : {s : State E} → StepPath s s
    move : {s t u : State E} → Step s t → StepPath t u → StepPath s u

  -- A listener that has an error to send when `runServer` has left its `select` for a cancelled
  -- context waits in every later state: its error is lost and its goroutine does not end.
  pub listener_blocks :
      {s t : State E} (e : E)
      → StepPath s t
      → s.listener ≡ sending e
      → s.server ≢ selecting
      → (t.listener ≡ sending e) × (t.server ≢ selecting)
  listener_blocks e stay h k = (h, k)
  listener_blocks e (move st path) h k =
      let (h', k') = Step-IsBlocked e st (h, k) in listener_blocks e path h' k'
