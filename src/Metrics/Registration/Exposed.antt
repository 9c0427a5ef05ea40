-- ===== src/Metrics/Registration/Exposed.antt =====
-- What the registries have after the `init` of internal/metrics/metrics.go.
use gardener_discovery_serve.Common.{
  ◌≡◌, ◌≢◌, refl, sym, ◌∙◌, none, some, List, [], ◌∷◌, Bytes, ◌==◌, eq_refl, differ, different, All,
  if◌then◌else◌,
}
use gardener_discovery_serve.Common.Results.{ok}
use gardener_discovery_serve.Metrics.Registration.{
  Collector, fq_name, Prometheus, must_register_all, collectors, request_latency, request_total,
  request_in_flight, init,
}

-- No two have one name.
abbrev pub AreDistinct : List Collector → Type 0
AreDistinct [] = Unit
AreDistinct (c ∷ cs) = All (λ d. fq_name c ≢ fq_name d) cs × AreDistinct cs

collectors-AreDistinct : AreDistinct collectors
unfolding ◌==◌
collectors-AreDistinct = (
  (
    different (fq_name request_latency) (fq_name request_total) refl,
    (different (fq_name request_latency) (fq_name request_in_flight) refl, tt),
  ),
  ((different (fq_name request_total) (fq_name request_in_flight) refl, tt), (tt, tt)),
)

module _ {Panic R : Type 0} (p : Prometheus Panic R) where
  abbrev pub IsFree : List Collector → R → Type 0
  IsFree cs r = All (λ c. p.find (fq_name c) r ≡ none) cs

  -- The collectors are there, and under other names there is what was there.
  pub record IsExposed (cs : List Collector) (before after : R) : Type 0 where
    pub exposed : All (λ c. p.find (fq_name c) after ≡ some c) cs
    pub others : (n : Bytes) → All (λ c. fq_name c ≢ n) cs → p.find n after ≡ p.find n before

  still-IsFree :
      (c : Collector) (cs : List Collector) (r r' : R)
      → ((n : Bytes) → p.find n r' ≡ (if fq_name c == n then some c else p.find n r))
      → All (λ d. fq_name c ≢ fq_name d) cs
      → IsFree cs r
      → IsFree cs r'
  still-IsFree c [] r r' added distinct free = tt
  still-IsFree c (d ∷ cs) r r' added (apart, distinct) (free_d, free) = (
    added (fq_name d) ∙ (rw (differ _ _ apart) free_d),
    still-IsFree c cs r r' added distinct free,
  )

  swapped :
      (c : Collector) (cs : List Collector)
      → All (λ d. fq_name c ≢ fq_name d) cs
      → All (λ d. fq_name d ≢ fq_name c) cs
  swapped c [] h = tt
  swapped c (d ∷ cs) (apart, h) = ((λ e. apart (sym e)), swapped c cs h)

  registers :
      (cs : List Collector) (r : R)
      → AreDistinct cs
      → IsFree cs r
      → (after : R) × (must_register_all p cs r ≡ ok after) × IsExposed cs r after
  registers [] r distinct free = (r, refl, record { exposed = tt; others = λ n h. refl })
  registers (c ∷ cs) r (apart, distinct) (free_c, free) =
      let (r', registered, added) = p.register_lem c r free_c in
      let (after, all_registered, rest) =
        registers cs r' distinct (still-IsFree c cs r r' added apart free) in
      (
        after,
        rw registered all_registered,
        record {
          exposed = (
            rest.others (fq_name c) (swapped c cs apart)
                ∙ added (fq_name c)
                ∙ (rw (eq_refl (fq_name c))),
            rest.exposed,
          );
          others = λ n (not_c, not_cs). rest.others n not_cs ∙ added n ∙ (rw (differ _ _ not_c));
        },
      )

  -- Where the names of the three metrics are free in both registries, `init` does not panic, and both
  -- registries then have the three metrics under their names, and under other names what they had.
  pub init-IsExposed :
      (default runtime : R)
      → IsFree collectors default
      → IsFree collectors runtime
      → (after : R × R) × (init p (default, runtime) ≡ ok after)
        × IsExposed collectors default after.0
        × IsExposed collectors runtime after.1
  unfolding init
  init-IsExposed default runtime free free' =
      let (default', registered, exposed) =
        registers collectors default collectors-AreDistinct free in
      let (runtime', registered', exposed') =
        registers collectors runtime collectors-AreDistinct free' in
      ((default', runtime'), rw (registered, registered'), exposed, exposed')
