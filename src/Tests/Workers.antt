-- ===== src/Tests/Workers.antt =====
-- Reconciliations at a time, of two secrets and of two config maps.
use gardener_discovery_serve.Common.{
  ◌≡◌, ◌≢◌, sym, refl, false, ◌==◌, different, [], ◌∷◌, Bytes, bytes, Map, arith,
}
use gardener_discovery_serve.Store.Api.{map_api}
use gardener_discovery_serve.Store.Openidmeta.{Data as OpenidmetaData}
use gardener_discovery_serve.Store.Certificate.{Data as CertificateData}
use gardener_discovery_serve.Reconciler.{NamespacedName}
use gardener_discovery_serve.Reconciler.Certificate.{Reconciler}
use gardener_discovery_serve.Reconciler.Certificate.Keeps.{IsKeyed}
use gardener_discovery_serve.Reconciler.Certificate.Own.{entry_of}
use gardener_discovery_serve.Reconciler.CaWatch.{new_reconciler}
use gardener_discovery_serve.Reconciler.Workers.{Overlapped, idle, begins, ends, in_order}
use gardener_discovery_serve.Reconciler.Workers.Secrets.{
  SecretJob, secret_name, secret_step, workers_in_order,
}
use gardener_discovery_serve.Reconciler.Workers.Bundles.{
  BundleJob, bundle_name, bundle_step, bundle_workers_in_order,
}
use gardener_discovery_serve.Tests.Samples.{
  constants, jose, cluster, broken_cluster, libraries, shrinks,
}
use gardener_discovery_serve.Tests.Published.{gardener}
use gardener_discovery_serve.Tests.Watches.{issuers}
use gardener_discovery_serve.Tests.Bundles.{ca_req, before, now, keys, injective, keyed, empty}

abbrev first : SecretJob (Unit {0})
first = (cluster (bytes "u1") (bytes "keys"), bytes "foo--u1")

abbrev second : SecretJob (Unit {0})
second = (broken_cluster, bytes "foo--u2")

names_differ : (first.1 == second.1) ≡ false
unfolding ◌==◌
names_differ = refl

abbrev step : SecretJob (Unit {0}) → Map (OpenidmetaData Bytes) → Map (OpenidmetaData Bytes)
step = secret_step constants jose map_api 30 issuers

-- The second is begun while the first is under way, and ends before it.
overlapped :
    Overlapped secret_name step 50 [] (first ∷ second ∷ []) [] (step first (step second []))
overlapped = ends [] [] first (
    ends [] (first ∷ []) second (
      begins second (begins first idle (omega arith) tt) (omega arith)
        (different first.1 second.1 names_differ, tt)))

workers_in_order_example :
    map_api.read (bytes "foo--u1") (step first (step second []))
    ≡ map_api.read (bytes "foo--u1") (in_order step (first ∷ second ∷ []) [])
workers_in_order_example =
    workers_in_order constants jose map_api 30 issuers 50 [] (bytes "foo--u1") overlapped tt

abbrev other_req : NamespacedName
other_req = record { namespace = bytes "garden-foo"; name = bytes "baz.ca-cluster" }

-- One config map is there, and the other is gone.
abbrev there : BundleJob (Unit {0})
there = (now, ca_req)

abbrev gone : BundleJob (Unit {0})
gone = (before, other_req)

gone-IsKeyed : IsKeyed libraries gardener keys before other_req
gone-IsKeyed b p = let found = p.found_config_map in absurd (cc found)

bundle_names_differ : (libraries.key_of ca_req == libraries.key_of other_req) ≡ false
unfolding ◌==◌
bundle_names_differ = refl

other_differs : libraries.key_of other_req ≢ libraries.key_of ca_req
other_differs e =
    different (libraries.key_of ca_req) (libraries.key_of other_req) bundle_names_differ (sym e)

abbrev State : Type 0
State = Reconciler (Map (CertificateData Bytes))

abbrev ca_step : BundleJob (Unit {0}) → State → State
ca_step = bundle_step map_api libraries 30 gardener

-- The second is begun while the first is under way, and it still is when the first has ended.
ca_step-Overlapped :
    Overlapped
      (bundle_name libraries)
      ca_step
      50
      (new_reconciler [])
      (there ∷ gone ∷ [])
      (gone ∷ [])
      (ca_step there (new_reconciler []))
ca_step-Overlapped = ends (gone ∷ []) [] there (
    begins gone (begins there idle (omega arith) tt) (omega arith)
      (different (libraries.key_of ca_req) (libraries.key_of other_req) bundle_names_differ, tt))

bundle_workers_in_order_example :
    entry_of map_api keys (libraries.key_of ca_req) (ca_step there (new_reconciler []))
    ≡ entry_of map_api keys
        (libraries.key_of ca_req)
        (in_order ca_step (there ∷ gone ∷ []) (new_reconciler []))
bundle_workers_in_order_example =
    bundle_workers_in_order map_api libraries 30 gardener shrinks keys injective 50 []
      (libraries.key_of ca_req) empty ca_step-Overlapped (keyed, (gone-IsKeyed, tt))
      (other_differs, tt)
