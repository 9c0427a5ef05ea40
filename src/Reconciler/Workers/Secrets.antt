-- ===== src/Reconciler/Workers/Secrets.antt =====
-- The workers of the controller of internal/reconciler/openidmeta/add.go.
use gardener_discovery_serve.Common.{ℕ, ◌≡◌, ◌≢◌, List, [], ◌∷◌, Bytes, All}
use gardener_discovery_serve.Utils.Load.{Jose}
use gardener_discovery_serve.Store.Api.{Api}
use gardener_discovery_serve.Store.Openidmeta.{Data}
use gardener_discovery_serve.Reconciler.{Cluster, Constants}
use gardener_discovery_serve.Reconciler.Openidmeta.{reconcile}
use gardener_discovery_serve.Reconciler.Openidmeta.Effects.{reconcile_frame, reconcile_own}
use gardener_discovery_serve.Reconciler.Watch.{request}
use gardener_discovery_serve.Reconciler.Workers.{Overlapped, in_order, IsLocal}
use gardener_discovery_serve.Reconciler.Workers.Linear.{Overlapped-in_order}

-- A reconciliation of a secret: what the API server answers during it, and the name of its request.
abbrev pub SecretJob : Type 0 → Type 0
SecretJob E = Cluster E × Bytes

abbrev pub secret_name : {E : Type 0} → SecretJob E → Bytes
secret_name job = job.1

all_fit : {J : Type 0} (jobs : List J) → All (λ job. Unit {0}) jobs
all_fit [] = tt
all_fit (job ∷ jobs) = (tt, all_fit jobs)

module _ {E JsonError Key S : Type 0} (constants : Constants) (jose : Jose JsonError Key)
    (api : Api (Data Bytes) S) (resync_period : ℕ) (namespace : Bytes) where
  abbrev pub secret_step : SecretJob E → S → S
  secret_step job s =
      (reconcile constants jose api resync_period job.0 (request namespace job.1) s).0

  secret_step-IsLocal : IsLocal secret_name secret_step api.read (λ s. Unit {0}) (λ job. Unit {0})
  secret_step-IsLocal = record {
    keeps = λ job s fit sound. tt;
    own = λ job s t fit sound sound' h.
        reconcile_own constants jose api resync_period job.0 (request namespace job.1) s t h;
    frame = λ job name s fit sound other.
        reconcile_frame constants jose api resync_period job.0 (request namespace job.1) s name
          other;
  }

  -- However the workers overlap: for a name of which no reconciliation is under way, the store has
  -- what the reconciliations that were begun leave one after the other, in the order in which they
  -- were begun, each with what the API server answered during it. All requests are of one namespace,
  -- and no two reconciliations of one request are under way at a time.
  pub workers_in_order :
      (workers : ℕ) (s0 : S) {begun pending : List (SecretJob E)} {s : S} (name : Bytes)
      → Overlapped secret_name secret_step workers s0 begun pending s
      → All (λ job. secret_name job ≢ name) pending
      → api.read name s ≡ api.read name (in_order secret_step begun s0)
  workers_in_order workers s0 {begun} name o free =
      Overlapped-in_order secret_name secret_step api.read (λ s. Unit {0}) (λ job. Unit {0})
        secret_step-IsLocal workers s0 tt name o (all_fit begun) free
