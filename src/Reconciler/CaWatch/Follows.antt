-- ===== src/Reconciler/CaWatch/Follows.antt =====
-- The store of the CA bundles follows the config maps of the cluster.
use gardener_discovery_serve.Common.{
  ℕ, ◌≡◌, ◌≢◌, ◌⊎◌, inl, inr, refl, sym, ◌∙◌, Bool, true, false, Bool-cases, ◌&&◌, none, Bytes,
  bytes, ◌==◌, eq→≡, eq_refl, eq_iff, lookup, arith,
}
use gardener_discovery_serve.Common.Results.{Result, ok}
use gardener_discovery_serve.Store.Api.{Api}
use gardener_discovery_serve.Store.Certificate.{Data}
use gardener_discovery_serve.Reconciler.{
  GetError, NamespacedName, ConfigMap, Cluster, Constants, Outcome, requeue_after, failed, panicked,
}
use gardener_discovery_serve.Reconciler.Certificate.{
  Libraries, Bundle, Reconciler, data_key, reconcile, label_public, label_restriction,
}
use gardener_discovery_serve.Reconciler.Certificate.Blocks.{Shrinks}
use gardener_discovery_serve.Reconciler.Certificate.Publishable.{IsPublishable}
use gardener_discovery_serve.Reconciler.Certificate.Effects.{
  HasEntry, reconcile_certificate-Reflects,
}
use gardener_discovery_serve.Reconciler.Certificate.Keeps.{
  IsKeyed, IsSound, IsSame, reconcile_keeps,
}
use gardener_discovery_serve.Reconciler.Events.{Event, config_map_object, configmap_predicate}
use gardener_discovery_serve.Reconciler.Watch.{Change}
use gardener_discovery_serve.Reconciler.CaWatch.{
  put_config_map, is_done, stale_after, on_config_map_event,
}
use gardener_discovery_serve.Reconciler.CaWatch.Filtered.{IsPublishable-put, filtered_unpublishable}

done_requeues : {E : Type 0} (o : Outcome E) → is_done o ≡ true → (n : ℕ) × (o ≡ requeue_after n)
done_requeues (requeue_after n) h = (n, refl)
done_requeues (failed e) h = absurd (cc)
done_requeues panicked h = absurd (cc)

module _ {E : Type 0} (through : Bool) (outcome : Outcome E) (name : Bytes)
    (stale : Bytes → Bool) where
  -- A name that is current after its event: the reconciliation was a success, or there was none.
  pub current_after :
      stale_after through outcome name stale name ≡ false
      → ((through ≡ true) × (is_done outcome ≡ true)) ⊎ ((through ≡ false) × (stale name ≡ false))
  current_after h = ground (arith, eq_refl name)

  pub others_after :
      (j : Bytes) → name ≢ j → stale_after through outcome name stale j ≡ false → stale j ≡ false
  others_after j not_j h = ground (arith, eq_iff name j)

pub put_config_map_same :
    {E : Type 0} (r : NamespacedName) (answer : Result (GetError E) ConfigMap) (cluster : Cluster E)
    → Cluster.get_config_map (put_config_map r answer cluster) r ≡ answer
put_config_map_same r answer cluster = rw (eq_refl r.namespace, eq_refl r.name)

pub put_config_map_other :
    {E : Type 0} (r q : NamespacedName) (answer : Result (GetError E) ConfigMap)
    (cluster : Cluster E)
    → r ≢ q
    → Cluster.get_config_map (put_config_map r answer cluster) q ≡ cluster.get_config_map q
put_config_map_other r q answer cluster other =
    elim (Bool-cases (r.namespace == q.namespace && r.name == q.name)) [
      | inl same ↦ absurd (
          other
            (cc (eq→≡ r.namespace q.namespace (ground arith), eq→≡ r.name q.name (ground arith))))
      | inr differs ↦ rw differs
    ]

module _ {E S : Type 0} (api : Api (Data Bytes) S) (libraries : Libraries E)
    (constants : Constants) where
  -- The config map may be published, and stands behind an entry with its payload; or it may not, and
  -- stands behind none.
  abbrev pub Follows : Cluster E → NamespacedName → Reconciler S → Type 0
  Follows cluster req r =
      ((b : Bundle) × (payload : Bytes) × IsPublishable libraries constants cluster req b
        × (libraries.marshal b.certs ≡ ok payload)
        × HasEntry api (libraries.key_of req) (data_key b) payload r)
      ⊎ (((b : Bundle) → ¬ IsPublishable libraries constants cluster req b)
          × (lookup (libraries.key_of req) r.store_mapping ≡ none))

  -- What another config map's reconciliation leaves.
  pub others-Follows :
      (get_config_map : NamespacedName → Result (GetError E) ConfigMap) (cluster : Cluster E)
      (req : NamespacedName) (r r' : Reconciler S)
      → get_config_map req ≡ cluster.get_config_map req
      → IsSame api (libraries.key_of req) r r'
      → Follows cluster req r
      → Follows (record cluster { get_config_map = get_config_map }) req r'
  others-Follows get_config_map cluster req r r' same kept (inl (b, payload, p, made, entry)) =
      inl (
        b,
        payload,
        IsPublishable-put libraries constants get_config_map cluster req b same p,
        made,
        record {
          mapped = kept.same_mapping ∙ entry.mapped;
          stored = kept.same_entry (data_key b) entry.mapped ∙ entry.stored;
        },
      )
  others-Follows get_config_map cluster req r r' same kept (inr (unpublishable, unmapped)) = inr (
    λ b p. unpublishable b (
        IsPublishable-put libraries constants cluster.get_config_map
          (record cluster { get_config_map = get_config_map }) req b (sym same) p),
    kept.same_mapping ∙ unmapped,
  )

  module _ (resync_period : ℕ) (shrinks : Shrinks libraries) where
    pub reconcile-Follows :
        (cluster : Cluster E) (req : NamespacedName) (r : Reconciler S)
        → is_done (reconcile api libraries resync_period constants cluster req r).1 ≡ true
        → Follows cluster req (reconcile api libraries resync_period constants cluster req r).0
    reconcile-Follows cluster req r done =
        let (n, requeues) = done_requeues _ done in
        elim (reconcile_certificate-Reflects api libraries resync_period constants shrinks cluster
          req r n requeues) [
            | inl published ↦ inl published
            | inr (unpublishable, gone) ↦ inr (unpublishable, gone.unmapped)
          ]

    module _ (same_label_public : constants.label_discovery_public ≡ label_public)
        (same_shoot_ca : constants.discovery_shoot_ca ≡ bytes "shoot-ca")
        (same_label_restriction : constants.label_update_restriction ≡ label_restriction) where
      -- Of the config map that an event was about.
      pub on_event-Follows :
          (before after : Cluster E) (req : NamespacedName) (e : Event) (r : Reconciler S)
          (stale : Bytes → Bool)
          → Change config_map_object (before.get_config_map req) (after.get_config_map req) e
          → stale_after
              (configmap_predicate constants e)
              (on_config_map_event api libraries resync_period constants e after req r).1
              (libraries.key_of req)
              stale
              (libraries.key_of req)
            ≡ false
          → (stale (libraries.key_of req) ≡ false → Follows before req r)
          → Follows after req
              (on_config_map_event api libraries resync_period constants e after req r).0
      unfolding on_config_map_event
      on_event-Follows before after req e r stale change current earlier =
          elim (current_after (configmap_predicate constants e)
            (on_config_map_event api libraries resync_period constants e after req r).1
            (libraries.key_of req) stale current) [
              | inl (through, done) ↦
                  rw through (reconcile-Follows after req r (rw through at done))
              | inr (out, fresh) ↦
                  let (old_out, new_out) =
                    filtered_unpublishable libraries constants same_label_public same_shoot_ca
                      same_label_restriction before after req e change out in
                  rw out (
                    inr (
                      new_out,
                      elim (earlier fresh) [
                        | inl (b, payload, p, _, _) ↦ absurd (old_out b p)
                        | inr (_, unmapped) ↦ unmapped
                      ],
                    ))
            ]

    module _ (keys : Bytes → Bytes) (injective : (x y : Bytes) → keys x ≡ keys y → x ≡ y) where
      pub on_event_keeps :
          (e : Event) (cluster : Cluster E) (req : NamespacedName) (r : Reconciler S)
          → IsKeyed libraries constants keys cluster req
          → IsSound api keys r
          → IsSound api keys
              (on_config_map_event api libraries resync_period constants e cluster req r).0
            × ((j : Bytes)
                → libraries.key_of req ≢ j
                → IsSame api j r
                    (on_config_map_event api libraries resync_period constants e cluster req r).0)
      unfolding on_config_map_event
      on_event_keeps e cluster req r keyed sound =
          elim (Bool-cases (configmap_predicate constants e)) [
            | inl through ↦ rw through (
                reconcile_keeps api keys injective libraries resync_period constants shrinks cluster
                  req r keyed sound)
            | inr out ↦
                rw out
                  (sound, λ j not_j. record { same_mapping = refl; same_entry = λ key h. refl })
          ]
