-- ===== src/App/Run/Progress.antt =====
-- `run` of cmd/discovery-server/app/app.go does not get stuck.
use gardener_discovery_serve.Common.{
  ℕ, ◌≡◌, refl, false, ◌⊎◌, inl, inr, Option, none, some, arith, Bool-cases,
}
use gardener_discovery_serve.App.Run.{
  Manager, running, start_returned, manager_sent, manager_done, Listener, listening, sending,
  delivered, closed, Server, selecting, shutting_down, server_returned, server_sent, server_done,
  Main, waiting, has_manager, has_server, returned, State, Due, start_stops, select_error,
  select_closed, select_done, shutdown_returns, manager_first, manager_second, cancel_srv,
  server_first, server_second, cancel_mgr, Reach,
}
use gardener_discovery_serve.App.Run.Ends.{
  Has, IsDone, IsServerDone, IsPast, manager_gave, server_gave, Inv, Reach-Inv,
}

module _ {E : Type 0} where
  -- Nothing has happened yet: the server serves, the manager runs, no signal came.
  abbrev pub IsServing : State E → Type 0
  IsServing s =
      (s.ctx_done ≡ false)
      × (s.manager ≡ running)
      × (s.listener ≡ listening)
      × (s.server ≡ selecting)
      × (s.main ≡ waiting)

  abbrev pub IsReturned : State E → Type 0
  IsReturned s = (a : Option E) × (b : Option E) × (s.main ≡ returned a b)

  abbrev IsDue : State E → Type 0
  IsDue s = (t : State E) × Due s t

  module _ (s : State E) where
    -- The manager has sent, and the server has not.
    after_manager :
        (m : Manager E) (v : Server E) (a : Option E)
        → s.manager ≡ m
        → s.server ≡ v
        → s.main ≡ has_manager a
        → (manager_gave m ≡ some a) × (server_gave v ≡ none)
        → IsDone m s.srv_cancelled
        → IsDue s
    after_manager running v a em ev ex has on = absurd (cc)
    after_manager (start_returned e) v a em ev ex has on = absurd (cc)
    after_manager (manager_sent e) v a em ev ex has on = (_, cancel_srv e em refl)
    after_manager (manager_done e) selecting a em ev ex has on =
        (_, select_done ev (ground arith) refl)
    after_manager (manager_done e) shutting_down a em ev ex has on =
        (_, shutdown_returns none ev refl)
    after_manager (manager_done e) (server_returned e') a em ev ex has on =
        (_, server_second e' a ev ex refl)
    after_manager (manager_done e) (server_sent e') a em ev ex has on = absurd (cc)
    after_manager (manager_done e) (server_done e') a em ev ex has on = absurd (cc)

    -- The server has sent, and the manager has not.
    after_server :
        (m : Manager E) (v : Server E) (a : Option E)
        → s.manager ≡ m
        → s.server ≡ v
        → s.main ≡ has_server a
        → (manager_gave m ≡ none) × (server_gave v ≡ some a)
        → IsServerDone v s.mgr_cancelled
        → IsDue s
    after_server m selecting a em ev ex has on = absurd (cc)
    after_server m shutting_down a em ev ex has on = absurd (cc)
    after_server m (server_returned e) a em ev ex has on = absurd (cc)
    after_server m (server_sent e) a em ev ex has on = (_, cancel_mgr e ev refl)
    after_server running (server_done e) a em ev ex has on =
        (_, start_stops none em (ground arith) refl)
    after_server (start_returned e') (server_done e) a em ev ex has on =
        (_, manager_second e' a em ex refl)
    after_server (manager_sent e') (server_done e) a em ev ex has on = absurd (cc)
    after_server (manager_done e') (server_done e) a em ev ex has on = absurd (cc)

    -- Neither has sent.
    before :
        (m : Manager E) (v : Server E) (l : Listener E)
        → s.manager ≡ m
        → s.server ≡ v
        → s.listener ≡ l
        → s.main ≡ waiting
        → (manager_gave m ≡ none) × (server_gave v ≡ none)
        → IsPast l v
        → IsServing s ⊎ IsDue s
    before (start_returned e) v l em ev el ex has past = inr (_, manager_first e em ex refl)
    before (manager_sent e) v l em ev el ex has past = absurd (cc)
    before (manager_done e) v l em ev el ex has past = absurd (cc)
    before running shutting_down l em ev el ex has past = inr (_, shutdown_returns none ev refl)
    before running (server_returned e) l em ev el ex has past = inr (_, server_first e ev ex refl)
    before running (server_sent e) l em ev el ex has past = absurd (cc)
    before running (server_done e) l em ev el ex has past = absurd (cc)
    before running selecting (sending e) em ev el ex has past = inr (_, select_error e ev el refl)
    before running selecting (delivered e) em ev el ex has past = elim past [ ]
    before running selecting closed em ev el ex has past = inr (_, select_closed ev el refl)
    before running selecting listening em ev el ex has past = elim (Bool-cases s.ctx_done) [
      | inl done ↦ inr (_, select_done ev (ground arith) refl)
      | inr quiet ↦ inl (quiet, em, el, ev, ex)
    ]

    by_main :
        (x : Main E)
        → s.main ≡ x
        → Has x (manager_gave s.manager) (server_gave s.server)
        → Inv s
        → IsReturned s ⊎ IsServing s ⊎ IsDue s
    by_main waiting ex has i =
        inr (before s.manager s.server s.listener refl refl refl ex has i.past)
    by_main (has_manager a) ex has i =
        inr (inr (after_manager s.manager s.server a refl refl ex has i.cancels_srv))
    by_main (has_server a) ex has i =
        inr (inr (after_server s.manager s.server a refl refl ex has i.cancels_mgr))
    by_main (returned a b) ex has i = inl (a, b, ex)

  -- In every state that the goroutines reach, in whatever order they run, `run` has returned, or the
  -- server serves and nothing has happened yet, or a step is due: nobody waits for good.
  pub run_progresses :
      (n : ℕ) (s : State E) → Reach n s → IsReturned s ⊎ IsServing s ⊎ ((t : State E) × Due s t)
  run_progresses n s r = let i = Reach-Inv r in by_main s s.main refl i.has i
