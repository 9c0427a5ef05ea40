-- ===== src/Tests/Registered.antt =====
-- The metrics in registries that are lists.
use gardener_discovery_serve.Common.{
  ◌≡◌, refl, some, Option, none, [], Bytes, Map, lookup, insert, lookup-insert,
}
use gardener_discovery_serve.Common.Results.{Result, ok, err}
use gardener_discovery_serve.Metrics.Registration.{Collector, fq_name, Prometheus, collectors, init}
use gardener_discovery_serve.Metrics.Registration.Exposed.{IsExposed, init-IsExposed}

abbrev register : Option Collector → Collector → Map Collector → Result Bytes (Map Collector)
register none c r = ok (insert (fq_name c) c r)
register (some d) c r = err (fq_name c)

register_free :
    (c : Collector) (r : Map Collector) (found : Option Collector)
    → found ≡ none
    → register found c r ≡ ok (insert (fq_name c) c r)
register_free c r none h = refl
register_free c r (some d) h = absurd (cc)

abbrev registries : Prometheus Bytes (Map Collector)
registries = record {
  find = lookup;
  must_register = λ c r. register (lookup (fq_name c) r) c r;
  register_lem = λ c r free. (
    insert (fq_name c) c r,
    register_free c r (lookup (fq_name c) r) free,
    λ n. lookup-insert (fq_name c) n c r,
  );
}

both-IsExposed :
    (after : Map Collector × Map Collector) × (init registries ([], []) ≡ ok after)
    × IsExposed registries collectors [] after.0
    × IsExposed registries collectors [] after.1
unfolding lookup
both-IsExposed =
    init-IsExposed registries [] [] (refl, (refl, (refl, tt))) (refl, (refl, (refl, tt)))
