-- ===== src/Reconciler/CaWatch/History.antt =====
-- The store of the CA bundles over the life of a cluster.
use gardener_discovery_serve.Common.{
  different, ℕ, ◌≡◌, ◌⊎◌, inl, inr, refl, sym, ap, ◌∙◌, Bool, true, false, Bool-cases, Option-cases,
  none, some, Bytes, bytes, ◌==◌, eq→≡, lookup, lookup-nil,
}
use mathlib.Core.Path.{subst}
use gardener_discovery_serve.Common.Results.{ok}
use gardener_discovery_serve.Store.Api.{Api}
use gardener_discovery_serve.Store.Certificate.{Data}
use gardener_discovery_serve.Reconciler.{NamespacedName, Cluster, Constants}
use gardener_discovery_serve.Reconciler.Certificate.{
  Libraries, Bundle, Reconciler, data_key, reconcile, label_public, label_restriction,
}
use gardener_discovery_serve.Reconciler.Certificate.Blocks.{Shrinks}
use gardener_discovery_serve.Reconciler.Certificate.Publishable.{IsPublishable}
use gardener_discovery_serve.Reconciler.Certificate.Tracked.{Tracked-empty}
use gardener_discovery_serve.Reconciler.Certificate.Keeps.{IsKeyed, IsSound, reconcile_keeps}
use gardener_discovery_serve.Reconciler.Events.{configmap_predicate}
use gardener_discovery_serve.Reconciler.CaWatch.{
  put_config_map, on_config_map_event, stale_after, Watched, starts, sees, repeats, others_change,
}
use gardener_discovery_serve.Reconciler.CaWatch.Filtered.{missing_unpublishable}
use gardener_discovery_serve.Reconciler.CaWatch.Follows.{
  Follows, others-Follows, reconcile-Follows, on_event-Follows, on_event_keeps, current_after,
  others_after, put_config_map_same, put_config_map_other,
}

module _ {E S : Type 0} (api : Api (Data Bytes) S) (libraries : Libraries E) (resync_period : ℕ)
    (constants : Constants) where
  -- Every config map of the history has a proper name, and stands for one key all the time.
  abbrev pub IsOrderly :
      (IsName : NamespacedName → Type 0) (keys : Bytes → Bytes) {cluster : Cluster E}
      {r : Reconciler S} {stale : Bytes → Bool}
      → Watched api libraries resync_period constants cluster r stale
      → Type 0
  IsOrderly IsName keys (starts cluster s missing empty) = Unit
  IsOrderly IsName keys (sees {cluster = before} e req after w change) =
      IsName req
      × IsKeyed libraries constants keys (put_config_map req after before) req
      × IsOrderly IsName keys w
  IsOrderly IsName keys (repeats {cluster = before} req w) =
      IsName req × IsKeyed libraries constants keys before req × IsOrderly IsName keys w
  IsOrderly IsName keys (others_change cluster' w same) = IsOrderly IsName keys w

  -- The entry of a config map is what it publishes, or it has none.
  abbrev pub IsServed : (Bytes → Bytes) → Cluster E → NamespacedName → S → Type 0
  IsServed keys cluster req s =
      ((b : Bundle) × (payload : Bytes) × IsPublishable libraries constants cluster req b
        × (libraries.marshal b.certs ≡ ok payload)
        × (api.read (keys (libraries.key_of req)) s ≡ some (record { ca_bundle = payload })))
      ⊎ (((b : Bundle) → ¬ IsPublishable libraries constants cluster req b)
          × (api.read (keys (libraries.key_of req)) s ≡ none))

  module _ (shrinks : Shrinks libraries)
      (same_label_public : constants.label_discovery_public ≡ label_public)
      (same_shoot_ca : constants.discovery_shoot_ca ≡ bytes "shoot-ca")
      (same_label_restriction : constants.label_update_restriction ≡ label_restriction)
      (IsName : NamespacedName → Type 0)
      (printed : (q r : NamespacedName)
        → IsName q
        → IsName r
        → libraries.key_of q ≡ libraries.key_of r
        → q ≡ r)
      (keys : Bytes → Bytes) (injective : (x y : Bytes) → keys x ≡ keys y → x ≡ y) where
    Watched-IsSound :
        {cluster : Cluster E} {r : Reconciler S} {stale : Bytes → Bool}
        (w : Watched api libraries resync_period constants cluster r stale)
        → IsOrderly IsName keys w
        → IsSound api keys r
    Watched-IsSound (starts cluster s missing empty) o = record {
      initial = λ first. refl;
      tracked = Tracked-empty api keys s empty;
    }
    Watched-IsSound (sees {cluster = before} {r = r0} e req after w change) (named, keyed, o) =
        (on_event_keeps api libraries constants resync_period shrinks keys injective e
          (put_config_map req after before) req r0 keyed (Watched-IsSound w o)).0
    Watched-IsSound (repeats {cluster = before} {r = r0} req w) (named, keyed, o) =
        (reconcile_keeps api keys injective libraries resync_period constants shrinks before req r0
          keyed (Watched-IsSound w o)).0
    Watched-IsSound (others_change cluster' w same) o = Watched-IsSound w o

    Watched-Follows :
        {cluster : Cluster E} {r : Reconciler S} {stale : Bytes → Bool}
        (w : Watched api libraries resync_period constants cluster r stale)
        → IsOrderly IsName keys w
        → (req : NamespacedName) → IsName req
        → stale (libraries.key_of req) ≡ false
        → Follows api libraries constants cluster req r
    Watched-Follows (starts cluster s missing empty) o req named fresh = inr (
      λ b. missing_unpublishable libraries constants cluster req b (missing req),
      lookup-nil (libraries.key_of req),
    )
    Watched-Follows (sees {cluster = before} {r = r0} {stale = stale0} e other after w change)
          (other_named, keyed, o) req named fresh =
        let now = put_config_map other after before in
        elim (Bool-cases (libraries.key_of other == libraries.key_of req)) [
          | inl same ↦
              let is_req = printed other req other_named named (eq→≡ _ _ same) in
              subst
                (λ q.
                  Follows api libraries constants now q
                    (on_config_map_event api libraries resync_period constants e now other r0).0)
                is_req
                (on_event-Follows api libraries constants resync_period shrinks same_label_public
                  same_shoot_ca same_label_restriction before now other e r0 stale0
                  (rw (put_config_map_same other after before) change)
                  (ap
                      (stale_after (configmap_predicate constants e)
                        (on_config_map_event api libraries resync_period constants e now other r0).1
                        (libraries.key_of other) stale0)
                      (ap libraries.key_of is_req)
                    ∙ fresh)
                  (Watched-Follows w o other other_named))
          | inr differs ↦
              others-Follows api libraries constants now.get_config_map before req r0 _
                (put_config_map_other other req after before
                  (λ q. different _ _ differs (ap libraries.key_of q)))
                ((on_event_keeps api libraries constants resync_period shrinks keys injective e now
                    other r0 keyed (Watched-IsSound w o)).1
                  (libraries.key_of req) (different _ _ differs))
                (Watched-Follows w o req named (
                  others_after (configmap_predicate constants e)
                    (on_config_map_event api libraries resync_period constants e now other r0).1
                    (libraries.key_of other) stale0 (libraries.key_of req) (different _ _ differs)
                    fresh))
        ]
    Watched-Follows (repeats {cluster = before} {r = r0} {stale = stale0} other w)
          (other_named, keyed, o) req named fresh =
        elim (Bool-cases (libraries.key_of other == libraries.key_of req)) [
          | inl same ↦
              let is_req = printed other req other_named named (eq→≡ _ _ same) in
              elim (current_after true
                (reconcile api libraries resync_period constants before other r0).1
                (libraries.key_of other) stale0
                (ap
                    (stale_after true
                      (reconcile api libraries resync_period constants before other r0).1
                      (libraries.key_of other) stale0)
                    (ap libraries.key_of is_req)
                  ∙ fresh)) [
                    | inl (_, done) ↦
                        subst
                          (λ q.
                            Follows api libraries constants before q
                              (reconcile api libraries resync_period constants before other r0).0)
                          is_req
                          (reconcile-Follows api libraries constants resync_period shrinks before
                            other r0 done)
                    | inr (out, _) ↦ absurd (cc out)
                  ]
          | inr differs ↦
              others-Follows api libraries constants before.get_config_map before req r0 _ refl
                ((reconcile_keeps api keys injective libraries resync_period constants shrinks
                    before other r0 keyed (Watched-IsSound w o)).1
                  (libraries.key_of req) (different _ _ differs))
                (Watched-Follows w o req named (
                  others_after true
                    (reconcile api libraries resync_period constants before other r0).1
                    (libraries.key_of other) stale0 (libraries.key_of req) (different _ _ differs)
                    fresh))
        ]
    Watched-Follows (others_change cluster' w same) o req named fresh = absurd (cc)

    served :
        (cluster : Cluster E) (req : NamespacedName) (r : Reconciler S)
        → IsSound api keys r
        → Follows api libraries constants cluster req r
        → IsServed keys cluster req r.store
    served cluster req r sound (inl (b, payload, p, made, entry)) = inl (
      b,
      payload,
      p,
      made,
      ap (λ k. api.read k r.store)
            (sym (sound.tracked.keyed (libraries.key_of req) (data_key b) entry.mapped))
          ∙ entry.stored,
    )
    served cluster req r sound (inr (unpublishable, unmapped)) =
        elim (Option-cases (api.read (keys (libraries.key_of req)) r.store)) [
          | inl gone ↦ inr (unpublishable, gone)
          | inr (d, stored) ↦
              let (j, mapped) = sound.tracked.owned (keys (libraries.key_of req)) d stored in
              let is_j : libraries.key_of req ≡ j =
                injective (libraries.key_of req) j
                  (sound.tracked.keyed j (keys (libraries.key_of req)) mapped) in
              absurd (cc (unmapped, ap (λ k. lookup k r.store_mapping) is_j, mapped))
        ]

    -- Where each config map stands for one key `projectName--shootUID` all the time, and two of them
    -- never for one, whatever has happened to the config maps, the namespaces, the projects and the
    -- shoots since the start with no config map and an empty store: for a config map of which, since
    -- its last reconciliation that succeeded, no reconciliation has failed and nothing else has
    -- changed in the cluster, the store has under its key the payload of its bundle if it may be
    -- published, and nothing if not. pem.Decode shortens its input, the three labels are those that
    -- `Reconcile` spells out, and proper names are printed differently.
    pub Watched-IsServed :
        {cluster : Cluster E} {r : Reconciler S} {stale : Bytes → Bool}
        (w : Watched api libraries resync_period constants cluster r stale)
        → IsOrderly IsName keys w
        → (req : NamespacedName) → IsName req
        → stale (libraries.key_of req) ≡ false
        → IsServed keys cluster req r.store
    Watched-IsServed {cluster} {r} w o req named fresh =
        served cluster req r (Watched-IsSound w o) (Watched-Follows w o req named fresh)
