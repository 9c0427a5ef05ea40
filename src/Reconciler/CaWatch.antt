-- ===== src/Reconciler/CaWatch.antt =====
-- The controller of internal/reconciler/certificate/add.go over the life of a cluster: its config maps
-- come, change and go, the predicate lets their events through or not, and what is let through is
-- reconciled.
pub mod Filtered
pub mod Follows
pub mod History
use gardener_discovery_serve.Common.{
  ℕ, ◌≡◌, Bool, true, false, ◌&&◌, Option, none, some, List, [], Bytes, ◌==◌, if◌then◌else◌,
}
use gardener_discovery_serve.Common.Results.{Result, ok, err}
use gardener_discovery_serve.Store.Api.{Api}
use gardener_discovery_serve.Store.Certificate.{Data}
use gardener_discovery_serve.Reconciler.{
  GetError, is_not_found, NamespacedName, ConfigMap, Cluster, Constants, Outcome, requeue_after,
  failed, panicked,
}
use gardener_discovery_serve.Reconciler.Certificate.{Libraries, Reconciler, reconcile}
use gardener_discovery_serve.Reconciler.Events.{config_map_object, Event, configmap_predicate}
use gardener_discovery_serve.Reconciler.Watch.{Change, clear, mark}

-- The cluster in which one config map is another or is missing.
abbrev pub put_config_map :
    {E : Type 0} → NamespacedName → Result (GetError E) ConfigMap → Cluster E → Cluster E
put_config_map r answer cluster = record cluster {
  get_config_map = λ q.
      if r.namespace == q.namespace && r.name == q.name then answer else cluster.get_config_map q;
}

-- An outcome without an error.
abbrev pub is_done : {E : Type 0} → Outcome E → Bool
is_done (requeue_after n) = true
is_done (failed e) = false
is_done panicked = false

-- The stale names after an event: a reconciliation that succeeds takes its name out, one that fails
-- puts it in, and an event that is filtered out leaves them.
abbrev pub stale_after : {E : Type 0} → Bool → Outcome E → Bytes → (Bytes → Bool) → Bytes → Bool
stale_after through outcome name stale =
    if through then (if is_done outcome then clear name stale else mark name stale) else stale

-- A reconciler at the start of the process.
abbrev pub new_reconciler : {S : Type 0} → S → Reconciler S
new_reconciler s = record { once = false; store_mapping = []; store = s }

module _ {E S : Type 0} (api : Api (Data Bytes) S) (libraries : Libraries E) (resync_period : ℕ)
    (constants : Constants) where
  -- `For(&corev1.ConfigMap{}, builder.WithPredicates(configmapPredicate()))` and `Complete(r)`: an
  -- event that is filtered out does nothing.
  unfoldable pub on_config_map_event :
      Event → Cluster E → NamespacedName → Reconciler S → Reconciler S × Outcome E
  on_config_map_event e cluster req r =
      if configmap_predicate constants e
      then reconcile api libraries resync_period constants cluster req r
      else (r, requeue_after 0)

  -- The clusters and the reconcilers that follow each other, with the stale names, as `req.String()`
  -- prints them: those for which, since their last reconciliation that succeeded, a reconciliation has
  -- failed, or something other than a config map has changed. At the start there is no config map,
  -- and the store is empty.
  pub data Watched : Cluster E → Reconciler S → (Bytes → Bool) → Type 0 where
    starts :
        (cluster : Cluster E) (s : S)
        → ((req : NamespacedName) → cluster.get_config_map req ≡ err is_not_found)
        → ((key : Bytes) → api.read key s ≡ none)
        → Watched cluster (new_reconciler s) (λ q. false)
    -- a config map changes, and its event is handled
    sees :
        {cluster : Cluster E} {r : Reconciler S} {stale : Bytes → Bool} (e : Event)
        (req : NamespacedName) (after : Result (GetError E) ConfigMap)
        → Watched cluster r stale
        → Change config_map_object (cluster.get_config_map req) after e
        → Watched
            (put_config_map req after cluster)
            (on_config_map_event e (put_config_map req after cluster) req r).0
            (stale_after
              (configmap_predicate constants e)
              (on_config_map_event e (put_config_map req after cluster) req r).1
              (libraries.key_of req)
              stale)
    -- a config map is reconciled again, on a retry or when its period is over
    repeats :
        {cluster : Cluster E} {r : Reconciler S} {stale : Bytes → Bool} (req : NamespacedName)
        → Watched cluster r stale
        → Watched cluster (reconcile api libraries resync_period constants cluster req r).0 (
            stale_after true
              (reconcile api libraries resync_period constants cluster req r).1
              (libraries.key_of req)
              stale)
    -- anything but the config maps changes, which no event tells
    others_change :
        {cluster : Cluster E} {r : Reconciler S} {stale : Bytes → Bool} (cluster' : Cluster E)
        → Watched cluster r stale
        → cluster'.get_config_map ≡ cluster.get_config_map
        → Watched cluster' r (λ q. true)
