-- ===== src/Reconciler/Watch.antt =====
-- The controller of internal/reconciler/openidmeta/add.go over the life of a cluster: its secrets come,
-- change and go, the predicate lets their events through or not, and what is let through is
-- reconciled. The secrets are those of the one namespace that the manager of
-- cmd/discovery-server/app/app.go caches.
pub mod Filtered
pub mod Follows
use gardener_discovery_serve.Common.{
  ℕ, ◌≡◌, ◌≢◌, Bool, true, false, ◌&&◌, Option, none, some, List, Bytes, ◌==◌, if◌then◌else◌,
}
use gardener_discovery_serve.Common.Results.{Result, ok, err}
use gardener_discovery_serve.Utils.Load.{Jose}
use gardener_discovery_serve.Store.Api.{Api}
use gardener_discovery_serve.Store.Openidmeta.{Data}
use gardener_discovery_serve.Reconciler.{
  GetError, is_not_found, NamespacedName, Secret, Cluster, Constants, Outcome, requeue_after,
}
use gardener_discovery_serve.Reconciler.Openidmeta.{reconcile}
use gardener_discovery_serve.Reconciler.Events.{
  Object, secret_object, Event, created, updated, deleted, secret_predicate,
}

-- What the API server says of an object before and after an event.
pub data Change {E A : Type 0} (object : A → Object) (before after : Result (GetError E) A)
    : Event → Type 0 where
  creates :
      (new : A)
      → before ≡ err is_not_found
      → after ≡ ok new
      → Change object before after (created (object new))
  updates :
      (old new : A)
      → before ≡ ok old
      → after ≡ ok new
      → Change object before after (updated (object old) (object new))
  deletes :
      (old : A)
      → before ≡ ok old
      → after ≡ err is_not_found
      → Change object before after (deleted (object old))

-- The cluster in which one secret is another or is missing.
abbrev pub put_secret :
    {E : Type 0} → NamespacedName → Result (GetError E) Secret → Cluster E → Cluster E
put_secret r answer cluster = record cluster {
  get_secret =
      λ q. if r.namespace == q.namespace && r.name == q.name then answer else cluster.get_secret q;
}

-- One name less, and one more.
abbrev pub clear : Bytes → (Bytes → Bool) → Bytes → Bool
clear name stale = λ q. if name == q then false else stale q

abbrev pub mark : Bytes → (Bytes → Bool) → Bytes → Bool
mark name stale = λ q. if name == q then true else stale q

abbrev pub request : Bytes → Bytes → NamespacedName
request namespace name = record { namespace = namespace; name = name }

module _ {E JsonError Key S : Type 0} (constants : Constants) (jose : Jose JsonError Key)
    (api : Api (Data Bytes) S) (resync_period : ℕ) where
  -- `For(&corev1.Secret{}, builder.WithPredicates(secretPredicate()))` and `Complete(r)`: an event that
  -- is filtered out does nothing.
  unfoldable pub on_event : Event → Cluster E → NamespacedName → S → S × Outcome E
  on_event e cluster req s =
      if secret_predicate constants e
      then reconcile constants jose api resync_period cluster req s
      else (s, requeue_after 0)

  module _ (namespace : Bytes) where
    -- The clusters and the stores that follow each other, with the stale names: those for which, since
    -- their last reconciliation that succeeded, the reconciliation of an event has failed, or a
    -- project or a shoot has changed. At the start there is no secret, and the store is empty.
    pub data Watched : Cluster E → S → (Bytes → Bool) → Type 0 where
      starts :
          (cluster : Cluster E) (s : S)
          → ((name : Bytes) → cluster.get_secret (request namespace name) ≡ err is_not_found)
          → ((key : Bytes) → api.read key s ≡ none)
          → Watched cluster s (λ q. false)
      -- a secret changes, and its event is handled without an error
      sees :
          {cluster : Cluster E} {s : S} {stale : Bytes → Bool} (e : Event) (name : Bytes)
          (after : Result (GetError E) Secret) (n : ℕ)
          → Watched cluster s stale
          → Change secret_object (cluster.get_secret (request namespace name)) after e
          → (on_event e
              (put_secret (request namespace name) after cluster)
              (request namespace name)
              s).1
            ≡ requeue_after n
          → Watched
              (put_secret (request namespace name) after cluster)
              (on_event e
                (put_secret (request namespace name) after cluster)
                (request namespace name)
                s).0
              (if secret_predicate constants e then clear name stale else stale)
      -- a secret changes, and the reconciliation fails
      fails :
          {cluster : Cluster E} {s : S} {stale : Bytes → Bool} (e : Event) (name : Bytes)
          (after : Result (GetError E) Secret)
          → Watched cluster s stale
          → Change secret_object (cluster.get_secret (request namespace name)) after e
          → ((n : ℕ)
              → (on_event e
                  (put_secret (request namespace name) after cluster)
                  (request namespace name)
                  s).1
                ≢ requeue_after n)
          → Watched
              (put_secret (request namespace name) after cluster)
              (on_event e
                (put_secret (request namespace name) after cluster)
                (request namespace name)
                s).0
              (mark name stale)
      -- a secret is reconciled again, on a retry or when its period is over
      repeats :
          {cluster : Cluster E} {s : S} {stale : Bytes → Bool} (name : Bytes) (n : ℕ)
          → Watched cluster s stale
          → (reconcile constants jose api resync_period cluster (request namespace name) s).1
            ≡ requeue_after n
          → Watched cluster
              (reconcile constants jose api resync_period cluster (request namespace name) s).0
              (clear name stale)
      fails_again :
          {cluster : Cluster E} {s : S} {stale : Bytes → Bool} (name : Bytes)
          → Watched cluster s stale
          → ((n : ℕ)
              → (reconcile constants jose api resync_period cluster (request namespace name) s).1
                ≢ requeue_after n)
          → Watched cluster
              (reconcile constants jose api resync_period cluster (request namespace name) s).0
              stale
      -- anything but the secrets changes, which no event tells
      others_change :
          {cluster : Cluster E} {s : S} {stale : Bytes → Bool} (cluster' : Cluster E)
          → Watched cluster s stale
          → cluster'.get_secret ≡ cluster.get_secret
          → Watched cluster' s (λ q. true)
