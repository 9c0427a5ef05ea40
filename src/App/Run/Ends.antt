-- ===== src/App/Run/Ends.antt =====
-- How `run` of cmd/discovery-server/app/app.go ends.
use gardener_discovery_serve.Common.{
  ℕ, suc, ◌≡◌, ◌+◌, ◌≤◌, ◌<◌, refl, Bool, true, false, ◌⊎◌, inl, inr, Option, none, some, arith,
}
use gardener_discovery_serve.App.Run.{
  Manager, running, start_returned, manager_sent, manager_done, Listener, listening, sending,
  delivered, Server, selecting, shutting_down, server_returned, server_sent, server_done, Main,
  waiting, has_manager, has_server, returned, State, Free, signal, start_fails, listen_fails, Due,
  start_stops, listen_closes, select_error, select_closed, select_done, shutdown_returns,
  manager_first, manager_second, cancel_srv, server_first, server_second, cancel_mgr, Reach, start,
  later,
}

abbrev pub signal_rank : Bool → ℕ
signal_rank true = 0
signal_rank false = 1

module _ {E : Type 0} where
  -- What a goroutine has sent to `run`.
  abbrev pub manager_gave : Manager E → Option (Option E)
  manager_gave (manager_sent e) = some e
  manager_gave (manager_done e) = some e
  manager_gave _ = none

  abbrev pub server_gave : Server E → Option (Option E)
  server_gave (server_sent e) = some e
  server_gave (server_done e) = some e
  server_gave _ = none

  -- `run` has what the goroutines have sent.
  abbrev pub Has : Main E → Option (Option E) → Option (Option E) → Type 0
  Has waiting m s = (m ≡ none) × (s ≡ none)
  Has (has_manager e) m s = (m ≡ some e) × (s ≡ none)
  Has (has_server e) m s = (m ≡ none) × (s ≡ some e)
  Has (returned a b) m s = ((m ≡ some a) × (s ≡ some b)) ⊎ ((s ≡ some a) × (m ≡ some b))

  abbrev pub IsDone : Manager E → Bool → Type 0
  IsDone (manager_done e) cancelled = cancelled ≡ true
  IsDone _ cancelled = Unit

  abbrev pub IsServerDone : Server E → Bool → Type 0
  IsServerDone (server_done e) cancelled = cancelled ≡ true
  IsServerDone _ cancelled = Unit

  abbrev pub IsPast : Listener E → Server E → Type 0
  IsPast (delivered e) selecting = ⊥
  IsPast _ v = Unit

  pub record Inv (s : State E) : Type 0 where
    pub past : IsPast s.listener s.server
    pub has : Has s.main (manager_gave s.manager) (server_gave s.server)
    pub cancels_srv : IsDone s.manager s.srv_cancelled
    pub cancels_mgr : IsServerDone s.server s.mgr_cancelled

  Due-Inv : {s t : State E} → Due s t → Inv s → Inv t
  Due-Inv (start_stops e a b c) i = ground arith
  Due-Inv (listen_closes a b c) i = ground arith
  Due-Inv (select_error e a b c) i = ground arith
  Due-Inv (select_closed a b c) i = ground arith
  Due-Inv (select_done a b c) i = ground arith
  Due-Inv (shutdown_returns e a c) i = ground arith
  Due-Inv (manager_first e a b c) i = ground arith
  Due-Inv (manager_second e e' a b c) i = ground arith
  Due-Inv (cancel_srv e a c) i = ground arith
  Due-Inv (server_first e a b c) i = ground arith
  Due-Inv (server_second e e' a b c) i = ground arith
  Due-Inv (cancel_mgr e a c) i = ground arith

  Free-Inv : {s t : State E} → Free s t → Inv s → Inv t
  Free-Inv (signal a c) i = ground arith
  Free-Inv (start_fails e a c) i = ground arith
  Free-Inv (listen_fails e a c) i = ground arith

  pub Reach-Inv : {n : ℕ} {s : State E} → Reach n s → Inv s
  Reach-Inv start = record { past = tt; has = (refl, refl); cancels_srv = tt; cancels_mgr = tt }
  Reach-Inv (later r (inl due)) = Due-Inv due (Reach-Inv r)
  Reach-Inv (later r (inr free)) = Free-Inv free (Reach-Inv r)

  returned_gave :
      (s : State E) (a b : Option E)
      → Inv s
      → s.main ≡ returned a b
      → ((manager_gave s.manager ≡ some a) × (server_gave s.server ≡ some b))
        ⊎ ((server_gave s.server ≡ some a) × (manager_gave s.manager ≡ some b))
  returned_gave s a b i h = ground arith

  -- In whatever order the goroutines run, when `run` has returned, the manager and the server have
  -- both sent their results, and what `run` joins are these two results, in one of the two orders.
  pub run_returns_both :
      (n : ℕ) (s : State E) (a b : Option E)
      → Reach n s
      → s.main ≡ returned a b
      → ((manager_gave s.manager ≡ some a) × (server_gave s.server ≡ some b))
        ⊎ ((server_gave s.server ≡ some a) × (manager_gave s.manager ≡ some b))
  run_returns_both n s a b r h = returned_gave s a b (Reach-Inv r) h

  -- how far a goroutine is from its end
  abbrev pub manager_rank : Manager E → ℕ
  manager_rank running = 3
  manager_rank (start_returned e) = 2
  manager_rank (manager_sent e) = 1
  manager_rank (manager_done e) = 0

  abbrev pub server_rank : Server E → ℕ
  server_rank selecting = 4
  server_rank shutting_down = 3
  server_rank (server_returned e) = 2
  server_rank (server_sent e) = 1
  server_rank (server_done e) = 0

  abbrev pub listener_rank : Listener E → ℕ
  listener_rank listening = 2
  listener_rank (sending e) = 1
  listener_rank _ = 0

  abbrev pub rank : State E → ℕ
  rank s =
      signal_rank s.ctx_done
      + manager_rank s.manager
      + server_rank s.server
      + listener_rank s.listener

  pub Due-rank : {s t : State E} → Due s t → rank t < rank s
  Due-rank (start_stops e a b c) = ground arith
  Due-rank (listen_closes a b c) = ground arith
  Due-rank (select_error e a b c) = ground arith
  Due-rank (select_closed a b c) = ground arith
  Due-rank (select_done a b c) = ground arith
  Due-rank (shutdown_returns e a c) = ground arith
  Due-rank (manager_first e a b c) = ground arith
  Due-rank (manager_second e e' a b c) = ground arith
  Due-rank (cancel_srv e a c) = ground arith
  Due-rank (server_first e a b c) = ground arith
  Due-rank (server_second e e' a b c) = ground arith
  Due-rank (cancel_mgr e a c) = ground arith

  Free-rank : {s t : State E} → Free s t → rank t < rank s
  Free-rank (signal a c) = ground arith
  Free-rank (start_fails e a c) = ground arith
  Free-rank (listen_fails e a c) = ground arith

  -- No execution has more than ten steps.
  pub run_bounded : (n : ℕ) (s : State E) → Reach n s → n + rank s ≤ 10
  run_bounded n s start = omega arith
  run_bounded (suc n) t (later {s = s} r (inl due)) = omega (arith, run_bounded n s r, Due-rank due)
  run_bounded (suc n) t (later {s = s} r (inr free)) =
      omega (arith, run_bounded n s r, Free-rank free)
