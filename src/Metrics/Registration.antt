-- ===== src/Metrics/Registration.antt =====
-- internal/metrics/metrics.go: the names and the labels of the metrics, and their registration.
pub mod Exposed
use gardener_discovery_serve.Common.{
  ◌≡◌, Bool, true, false, Option, none, some, List, [], ◌∷◌, ◌++◌, Bytes, bytes, ◌==◌,
  if◌then◌else◌,
}
use gardener_discovery_serve.Common.Results.{Result, ok, err, ◌>>=◌}

-- `HistogramVec`, `CounterVec` and `GaugeVec`
pub data MetricKind : Type 0 where
  histogram : MetricKind
  counter : MetricKind
  gauge : MetricKind

pub record Collector : Type 0 where
  pub kind : MetricKind
  pub subsystem : Bytes
  pub name : Bytes
  pub labels : List Bytes

abbrev pub subsystem_name : Bytes
subsystem_name = bytes "gardener_discovery_server"

abbrev pub request_latency : Collector
request_latency = record {
  kind = histogram;
  subsystem = subsystem_name;
  name = bytes "path_latency_seconds";
  labels = bytes "path" ∷ [];
}

abbrev pub request_total : Collector
request_total = record {
  kind = counter;
  subsystem = subsystem_name;
  name = bytes "path_requests_total";
  labels = bytes "path" ∷ bytes "code" ∷ [];
}

abbrev pub request_in_flight : Collector
request_in_flight = record {
  kind = gauge;
  subsystem = subsystem_name;
  name = bytes "path_requests_in_flight";
  labels = bytes "path" ∷ [];
}

-- The name under which a collector without a namespace is exposed.
abbrev pub fq_name : Collector → Bytes
fq_name c = c.subsystem ++ (bytes "_" ++ c.name)

-- A registry of the package prometheus: `MustRegister` of one collector, or a panic. A collector whose
-- name is free is registered.
pub record Prometheus (Panic R : Type 0) : Type 0 where
  pub find : Bytes → R → Option Collector
  pub must_register : Collector → R → Result Panic R
  pub register_lem :
      (c : Collector) (r : R)
      → find (fq_name c) r ≡ none
      → (r' : R) × (must_register c r ≡ ok r')
        × ((n : Bytes) → find n r' ≡ (if fq_name c == n then some c else find n r))

abbrev pub collectors : List Collector
collectors = request_latency ∷ request_total ∷ request_in_flight ∷ []

module _ {Panic R : Type 0} (p : Prometheus Panic R) where
  -- `MustRegister` of some collectors
  abbrev pub must_register_all : List Collector → R → Result Panic R
  must_register_all [] r = ok r
  must_register_all (c ∷ cs) r = do r' ← p.must_register c r; must_register_all cs r'

  -- `init` over the default registry of prometheus and the registry of controller-runtime
  unfoldable pub init : R × R → Result Panic (R × R)
  init (default, runtime) = do
    default' ← must_register_all collectors default
    runtime' ← must_register_all collectors runtime
    ok (default', runtime')
