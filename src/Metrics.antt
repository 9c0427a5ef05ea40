-- ===== src/Metrics.antt =====
-- internal/metrics/metrics.go: the three metrics of the server and the instrumented handlers.
pub mod Counts
pub mod Registration
use gardener_discovery_serve.Common.{
  ℕ, ◌+◌, ◌-◌, ◌≡◌, Bool, true, false, ◌&&◌, Option, none, some, Bytes, ◌==◌, eqb, if◌then◌else◌,
}
use gardener_discovery_serve.Handler.Http.{Request, ResponseWriter, Handler}

-- The values of `requestLatency` (how many observations), `requestTotal` and `requestInFlight` by
-- their labels. Registration has their names.
pub record Registry : Type 0 where
  pub request_latency : Bytes → ℕ
  pub request_total : Bytes → ℕ → ℕ
  pub request_in_flight : Bytes → ℕ

-- A handler that also counts.
abbrev pub Instrumented : Type 0
Instrumented = Request → Registry × ResponseWriter → Registry × ResponseWriter

-- A handler that counts nothing.
abbrev pub uncounted : Handler → Instrumented
uncounted h r (m, w) = (m, h r w)

-- `Observe`, `Inc` and `Dec` of a metric with its labels
abbrev pub observe : Bytes → Registry → Registry
observe path m = record m {
  request_latency = λ q. if path == q then m.request_latency q + 1 else m.request_latency q;
}

abbrev pub count : Bytes → ℕ → Registry → Registry
count path code m = record m {
  request_total =
      λ q c. if path == q && eqb code c then m.request_total q c + 1 else m.request_total q c;
}

abbrev pub enter : Bytes → Registry → Registry
enter path m = record m {
  request_in_flight = λ q. if path == q then m.request_in_flight q + 1 else m.request_in_flight q;
}

abbrev pub leave : Bytes → Registry → Registry
leave path m = record m {
  request_in_flight = λ q. if path == q then m.request_in_flight q - 1 else m.request_in_flight q;
}

-- A status that no one wrote counts as 200.
abbrev pub code_sent : ResponseWriter → ℕ
code_sent w = elim w.status [ none ↦ 200 | some code ↦ code ]

-- The package promhttp, with each metric curried with the label of the path: what its handlers do
-- about a handler that they wrap.
pub record Promhttp : Type 0 where
  pub instrument_handler_duration : Bytes → Instrumented → Instrumented
  pub instrument_handler_counter : Bytes → Instrumented → Instrumented
  pub instrument_handler_in_flight : Bytes → Instrumented → Instrumented
  pub duration_lem :
      (path : Bytes) (next : Instrumented) (r : Request) (x : Registry × ResponseWriter)
      → instrument_handler_duration path next r x ≡ (observe path (next r x).0, (next r x).1)
  pub counter_lem :
      (path : Bytes) (next : Instrumented) (r : Request) (x : Registry × ResponseWriter)
      → instrument_handler_counter path next r x
        ≡ (count path (code_sent (next r x).1) (next r x).0, (next r x).1)
  pub in_flight_lem :
      (path : Bytes) (next : Instrumented) (r : Request) (x : Registry × ResponseWriter)
      → instrument_handler_in_flight path next r x
        ≡ (leave path (next r (enter path x.0, x.1)).0, (next r (enter path x.0, x.1)).1)

-- `InstrumentHandler`
unfoldable pub instrument_handler : Promhttp → Bytes → Instrumented → Instrumented
instrument_handler p path h =
    p.instrument_handler_duration path
      (p.instrument_handler_counter path (p.instrument_handler_in_flight path h))
