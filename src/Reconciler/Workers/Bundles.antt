-- ===== src/Reconciler/Workers/Bundles.antt =====
-- The workers of the controller of internal/reconciler/certificate/add.go.
use gardener_discovery_serve.Common.{ℕ, ◌≡◌, ◌≢◌, refl, none, List, Bytes, All}
use gardener_discovery_serve.Store.Api.{Api}
use gardener_discovery_serve.Store.Certificate.{Data}
use gardener_discovery_serve.Reconciler.{NamespacedName, Cluster, Constants}
use gardener_discovery_serve.Reconciler.Certificate.{Libraries, Reconciler, reconcile}
use gardener_discovery_serve.Reconciler.Certificate.Blocks.{Shrinks}
use gardener_discovery_serve.Reconciler.Certificate.Tracked.{Tracked-empty}
use gardener_discovery_serve.Reconciler.Certificate.Keeps.{IsKeyed, IsSound, reconcile_keeps}
use gardener_discovery_serve.Reconciler.Certificate.Own.{
  entry_of, IsSame-entry_of, reconcile_certificate_own,
}
use gardener_discovery_serve.Reconciler.CaWatch.{new_reconciler}
use gardener_discovery_serve.Reconciler.Workers.{Overlapped, in_order, IsLocal}
use gardener_discovery_serve.Reconciler.Workers.Linear.{Overlapped-in_order}

-- A reconciliation of a config map: what the API server answers during it, and its request.
abbrev pub BundleJob : Type 0 → Type 0
BundleJob E = Cluster E × NamespacedName

abbrev pub bundle_name : {E : Type 0} → Libraries E → BundleJob E → Bytes
bundle_name libraries job = libraries.key_of job.1

module _ {E S : Type 0} (api : Api (Data Bytes) S) (libraries : Libraries E) (resync_period : ℕ)
    (constants : Constants) where
  abbrev pub bundle_step : BundleJob E → Reconciler S → Reconciler S
  bundle_step job r = (reconcile api libraries resync_period constants job.0 job.1 r).0

  module _ (shrinks : Shrinks libraries) (keys : Bytes → Bytes)
      (injective : (x y : Bytes) → keys x ≡ keys y → x ≡ y) where
    -- The config map of the job stands for its own key.
    abbrev pub IsOwn : BundleJob E → Type 0
    IsOwn job = IsKeyed libraries constants keys job.0 job.1

    bundle_step-IsLocal :
        IsLocal (bundle_name libraries) bundle_step (entry_of api keys) (IsSound api keys) IsOwn
    bundle_step-IsLocal = record {
      keeps = λ job r fit sound.
          (reconcile_keeps api keys injective libraries resync_period constants shrinks job.0 job.1
            r fit sound).0;
      own = λ job r r' fit sound sound' same.
          reconcile_certificate_own api keys libraries resync_period constants shrinks job.0 job.1 r
            r' fit sound sound' same;
      frame = λ job name r fit sound other.
          let (after, others) =
            reconcile_keeps api keys injective libraries resync_period constants shrinks job.0 job.1
              r fit sound in
          IsSame-entry_of api keys injective name r _ sound after (others name other);
    }

    -- Where each config map stands for one key `projectName--shootUID`, and two of them never for one,
    -- and the store is empty at the start, however the workers overlap: for a config map of which no
    -- reconciliation is under way, the mapping and the store have what the reconciliations that were
    -- begun leave one after the other, in the order in which they were begun, each with what the API
    -- server answered during it. pem.Decode shortens its input, and no two reconciliations of one
    -- request are under way at a time.
    pub bundle_workers_in_order :
        (workers : ℕ) (s0 : S) {begun pending : List (BundleJob E)} {r : Reconciler S}
        (name : Bytes)
        → ((key : Bytes) → api.read key s0 ≡ none)
        → Overlapped (bundle_name libraries) bundle_step workers (new_reconciler s0) begun pending r
        → All IsOwn begun
        → All (λ job. bundle_name libraries job ≢ name) pending
        → entry_of api keys name r
          ≡ entry_of api keys name (in_order bundle_step begun (new_reconciler s0))
    bundle_workers_in_order workers s0 name empty o own free =
        Overlapped-in_order (bundle_name libraries) bundle_step (entry_of api keys)
          (IsSound api keys) IsOwn bundle_step-IsLocal workers (new_reconciler s0)
          (record { initial = λ first. refl; tracked = Tracked-empty api keys s0 empty }) name o own
          free
