-- ===== src/Metrics/Counts.antt =====
-- What a request to an instrumented handler of internal/metrics/metrics.go adds to the metrics.
use gardener_discovery_serve.Common.{
  ℕ, ◌+◌, ◌≡◌, refl, ◌&&◌, Bytes, ◌==◌, eqb, if◌then◌else◌, arith,
}
use gardener_discovery_serve.Handler.Http.{Request, ResponseWriter, Handler}
use gardener_discovery_serve.Metrics.{
  Registry, uncounted, observe, count, enter, leave, code_sent, Promhttp, instrument_handler,
}

module _ (p : Promhttp) (path : Bytes) (h : Handler) (r : Request) (m : Registry)
    (w : ResponseWriter) where
  instrumented :
      instrument_handler p path (uncounted h) r (m, w)
      ≡ (observe path (count path (code_sent (h r w)) (leave path (enter path m))), h r w)
  unfolding instrument_handler
  instrumented = rw (p.duration_lem, p.counter_lem, p.in_flight_lem)

  -- An instrumented handler answers what the handler does.
  pub instrument_handler_reply : (instrument_handler p path (uncounted h) r (m, w)).1 ≡ h r w
  instrument_handler_reply = rw instrumented

  -- A request to an instrumented handler is answered as by the handler itself, is counted once under
  -- its path and the status that was sent, is observed once under its path, and is in flight no more.
  pub instrument_handler_counts :
      (q : Bytes) (code : ℕ)
      → let (m', w') = instrument_handler p path (uncounted h) r (m, w) in
        (w' ≡ h r w)
        × (m'.request_total q code
            ≡ m.request_total q code + (if path == q && eqb (code_sent (h r w)) code then 1 else 0))
        × (m'.request_latency q ≡ m.request_latency q + (if path == q then 1 else 0))
        × (m'.request_in_flight q ≡ m.request_in_flight q)
  instrument_handler_counts q code =
      rw instrumented (refl, ground arith, ground arith, ground arith)
