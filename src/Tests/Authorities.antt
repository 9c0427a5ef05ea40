-- ===== src/Tests/Authorities.antt =====
-- The CA bundles of shoots at concrete inputs.
use gardener_discovery_serve.Common.{
  ◌≡◌, ◌≢◌, ◌↔◌, ◌⊎◌, refl, none, some, [], ◌∷◌, Bytes, bytes, ◌==◌, eq_iff, Map, lookup, true,
  false,
}
use gardener_discovery_serve.Store.Api.{map_api}
use gardener_discovery_serve.Store.Certificate.{Data}
use gardener_discovery_serve.Reconciler.{requeue_after, pass, drop}
use gardener_discovery_serve.Reconciler.Certificate.{
  Reconciler, data_key, check_blocks, check_certs, check_all, init_mapping, reconcile,
}
use gardener_discovery_serve.Reconciler.Certificate.Blocks.{IsCaBundle, check_certs_decides}
use gardener_discovery_serve.Reconciler.Certificate.Publishable.{IsPublishable, ca_checks_iff}
use gardener_discovery_serve.Reconciler.Certificate.Effects.{
  Reflects, reconcile_certificate-Reflects,
}
use gardener_discovery_serve.Reconciler.Certificate.Mapping.{
  published_then_missing, remapped_entry_stays,
}
use gardener_discovery_serve.Tests.Samples.{
  constants, cluster, empty_cluster, req, libraries, shrinks, bundle,
}

check_certs_decides_example :
    ((check_certs libraries (1 ∷ 2 ∷ []) ≡ pass tt) × IsCaBundle libraries (1 ∷ 2 ∷ []))
    ⊎ ((check_certs libraries (1 ∷ 2 ∷ []) ≡ drop) × (¬ IsCaBundle libraries (1 ∷ 2 ∷ [])))
check_certs_decides_example = check_certs_decides libraries shrinks (1 ∷ 2 ∷ [])

not_a_ca : check_certs libraries (1 ∷ 2 ∷ []) ≡ drop
unfolding check_blocks ◌==◌
not_a_ca = refl

checked :
    (uid : Bytes)
    → (uid == uid) ≡ true
    → check_all libraries constants (cluster uid []) req ≡ pass (bundle uid)
unfolding check_all check_blocks lookup ◌==◌
checked uid same = rw same

ca_checks_iff_example :
    (check_all libraries constants (cluster (bytes "u1") []) req ≡ pass (bundle (bytes "u1")))
    ↔ IsPublishable libraries constants (cluster (bytes "u1") []) req (bundle (bytes "u1"))
ca_checks_iff_example =
    ca_checks_iff libraries constants shrinks (cluster (bytes "u1") []) req (bundle (bytes "u1"))

abbrev start : Reconciler (Map (Data Bytes))
start = record { once = false; store_mapping = []; store = [] }

first_published :
    (reconcile map_api libraries 30 constants (cluster (bytes "u1") []) req start).1
    ≡ requeue_after 30
unfolding reconcile check_all check_blocks lookup ◌==◌
first_published = refl

reconcile_certificate-Reflects_example :
    Reflects map_api libraries 30 constants shrinks
      (cluster (bytes "u1") [])
      req
      (init_mapping start)
      (reconcile map_api libraries 30 constants (cluster (bytes "u1") []) req start).0
reconcile_certificate-Reflects_example =
    reconcile_certificate-Reflects map_api libraries 30 constants shrinks (cluster (bytes "u1") [])
      req start 30 first_published

publishable :
    (uid : Bytes)
    → (uid == uid) ≡ true
    → IsPublishable libraries constants (cluster uid []) req (bundle uid)
publishable uid same =
    (ca_checks_iff libraries constants shrinks (cluster uid []) req (bundle uid)).0
      (checked uid same)

first-IsPublishable :
    IsPublishable libraries constants (cluster (bytes "u1") []) req (bundle (bytes "u1"))
unfolding ◌==◌
first-IsPublishable = publishable (bytes "u1") refl

second-IsPublishable :
    IsPublishable libraries constants (cluster (bytes "u2") []) req (bundle (bytes "u2"))
unfolding ◌==◌
second-IsPublishable = publishable (bytes "u2") refl

abbrev after_first : Reconciler (Map (Data Bytes))
after_first = (reconcile map_api libraries 30 constants (cluster (bytes "u1") []) req start).0

published_then_gone :
    lookup
      (data_key (bundle (bytes "u1")))
      (reconcile map_api libraries 30 constants empty_cluster req after_first).0.store
    ≡ none
published_then_gone =
    published_then_missing map_api libraries 30 constants shrinks req (cluster (bytes "u1") [])
      empty_cluster (bundle (bytes "u1")) (1 ∷ 1 ∷ []) start first-IsPublishable refl refl

keys_differ : data_key (bundle (bytes "u1")) ≢ data_key (bundle (bytes "u2"))
unfolding ◌==◌
keys_differ e = cc ((eq_iff (bytes "foo--u1") (bytes "foo--u2")).1 e)

-- The shoot came back with another UID under the same name; then its config map is gone.
remapped_entry_stays_example :
    lookup
      (data_key (bundle (bytes "u1")))
      (reconcile map_api libraries 30 constants empty_cluster req
        (reconcile map_api libraries 30 constants
          (cluster (bytes "u2") [])
          req
          after_first).0).0.store
    ≡ some (record { ca_bundle = 1 ∷ 1 ∷ [] })
remapped_entry_stays_example =
    remapped_entry_stays map_api libraries 30 constants shrinks req (cluster (bytes "u1") [])
      (cluster (bytes "u2") []) empty_cluster (bundle (bytes "u1")) (bundle (bytes "u2"))
      (1 ∷ 1 ∷ []) (1 ∷ 1 ∷ []) start first-IsPublishable refl second-IsPublishable refl keys_differ
      refl
