-- ===== src/Reconciler/Workers.antt =====
-- The workers of a controller: reconciliations that overlap, as internal/reconciler/openidmeta/add.go
-- and internal/reconciler/certificate/add.go set them up.
pub mod Only
pub mod Linear
pub mod Secrets
pub mod Bundles
use gardener_discovery_serve.Common.{ℕ, ◌≡◌, ◌≢◌, ◌<◌, List, [], ◌∷◌, ◌++◌, length, Bytes, All}

-- A job is a reconciliation, with what the API server answers during it. It has the printed name of
-- its request, and in one step under a lock brings what it comes to into the state.
module _ {J S : Type 0} (name_of : J → Bytes) (step : J → S → S) (workers : ℕ) (s0 : S) where
  -- The jobs that were begun, in this order, those of them that are not done, and the state. A worker
  -- begins one unless all are busy, or one of the same request is not done.
  pub data Overlapped : List J → List J → S → Type 0 where
    idle : Overlapped [] [] s0
    begins :
        {begun pending : List J} {s : S} (job : J)
        → Overlapped begun pending s
        → length pending < workers
        → All (λ other. name_of other ≢ name_of job) pending
        → Overlapped (begun ++ job ∷ []) (job ∷ pending) s
    ends :
        {begun : List J} {s : S} (before after : List J) (job : J)
        → Overlapped begun (before ++ job ∷ after) s
        → Overlapped begun (before ++ after) (step job s)

-- jobs one after the other
abbrev pub in_order : {J S : Type 0} → (J → S → S) → List J → S → S
in_order step [] s = s
in_order step (job ∷ jobs) s = in_order step jobs (step job s)

-- What a job does: it keeps what is sound, and what is seen under its name afterwards depends on what
-- was seen there before and on nothing else; it changes nothing under another name.
pub record IsLocal {J S V : Type 0} (name_of : J → Bytes) (step : J → S → S) (view : Bytes → S → V)
    (IsSound : S → Type 0) (IsFit : J → Type 0) : Type 0 where
  pub keeps : (job : J) (s : S) → IsFit job → IsSound s → IsSound (step job s)
  pub own :
      (job : J) (s t : S)
      → IsFit job
      → IsSound s
      → IsSound t
      → view (name_of job) s ≡ view (name_of job) t
      → view (name_of job) (step job s) ≡ view (name_of job) (step job t)
  pub frame :
      (job : J) (name : Bytes) (s : S)
      → IsFit job
      → IsSound s
      → name_of job ≢ name
      → view name (step job s) ≡ view name s
