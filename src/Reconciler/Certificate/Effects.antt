-- ===== src/Reconciler/Certificate/Effects.antt =====
-- What a reconciliation of internal/reconciler/certificate does to the mapping and to the store.
use gardener_discovery_serve.Common.{
  ℕ, ◌≡◌, ◌⊎◌, inl, inr, refl, ◌∙◌, none, some, Bytes, eq_refl, lookup, lookup-insert,
  lookup-remove,
}
use gardener_discovery_serve.Common.Results.{Result, ok, err}
use gardener_discovery_serve.Store.Api.{Api}
use gardener_discovery_serve.Store.Certificate.{Data}
use gardener_discovery_serve.Reconciler.{
  NamespacedName, Cluster, Constants, requeue_after, Check, pass, drop, abort, panic,
}
use gardener_discovery_serve.Reconciler.Certificate.{
  Libraries, Bundle, Reconciler, or_empty, data_key, check_all, init_mapping, create_mapping,
  delete_mapping, settle, publish, reconcile,
}
use gardener_discovery_serve.Reconciler.Certificate.Blocks.{Shrinks}
use gardener_discovery_serve.Reconciler.Certificate.Publishable.{IsPublishable, ca_checks_iff}

module _ {S : Type 0} (api : Api (Data Bytes) S) (map_key : Bytes) where
  -- The config map stands behind the entry, and the entry holds the payload.
  pub record HasEntry (key payload : Bytes) (r : Reconciler S) : Type 0 where
    pub mapped : lookup map_key r.store_mapping ≡ some key
    pub stored : api.read key r.store ≡ some (record { ca_bundle = payload })

  -- The config map stands behind no entry, and the entry `key` is gone.
  pub record HasNone (key : Bytes) (r : Reconciler S) : Type 0 where
    pub unmapped : lookup map_key r.store_mapping ≡ none
    pub removed : api.read key r.store ≡ none

  pub create_mapping-HasEntry :
      (key payload : Bytes) (r : Reconciler S)
      → HasEntry key payload (create_mapping api map_key key payload r)
  unfolding create_mapping
  create_mapping-HasEntry key payload r = record {
    mapped = lookup-insert map_key map_key key r.store_mapping ∙ (rw (eq_refl map_key));
    stored = api.read-write key key _ r.store ∙ (rw (eq_refl key));
  }

  pub delete_mapping-HasNone :
      (r : Reconciler S)
      → HasNone (or_empty (lookup map_key r.store_mapping)) (delete_mapping api map_key r)
  unfolding delete_mapping
  delete_mapping-HasNone r = record {
    unmapped = lookup-remove map_key map_key r.store_mapping ∙ (rw (eq_refl map_key));
    removed =
        api.read-delete _ _ r.store ∙ (rw (eq_refl (or_empty (lookup map_key r.store_mapping))));
  }

module _ {E S : Type 0} (api : Api (Data Bytes) S) (libraries : Libraries E) (resync_period : ℕ)
    (constants : Constants) (shrinks : Shrinks libraries) where
  -- The certificates may be published, and are; or they may not, and the config map's entry is gone.
  abbrev pub Reflects : Cluster E → NamespacedName → Reconciler S → Reconciler S → Type 0
  Reflects cluster req before r =
      ((b : Bundle) × (payload : Bytes) × IsPublishable libraries constants cluster req b
        × (libraries.marshal b.certs ≡ ok payload)
        × HasEntry api (libraries.key_of req) (data_key b) payload r)
      ⊎ (((b : Bundle) → ¬ IsPublishable libraries constants cluster req b)
          × HasNone api (libraries.key_of req)
              (or_empty (lookup (libraries.key_of req) before.store_mapping)) r)

  settle-Reflects :
      (cluster : Cluster E) (req : NamespacedName) (c : Check E Bundle) (r : Reconciler S) (n : ℕ)
      → check_all libraries constants cluster req ≡ c
      → (settle api libraries resync_period (libraries.key_of req) c r).1 ≡ requeue_after n
      → Reflects cluster req r (settle api libraries resync_period (libraries.key_of req) c r).0
  settle-Reflects cluster req (pass b) r n e h = published (libraries.marshal b.certs) refl h
    where
      published :
          (m : Result E Bytes)
          → libraries.marshal b.certs ≡ m
          → (publish api libraries resync_period (libraries.key_of req) b m r).1 ≡ requeue_after n
          → Reflects cluster req r
              (publish api libraries resync_period (libraries.key_of req) b m r).0
      published (ok payload) made h = inl (
        b,
        payload,
        (ca_checks_iff libraries constants shrinks cluster req b).0 e,
        made,
        create_mapping-HasEntry api (libraries.key_of req) (data_key b) payload r,
      )
      published (err x) made h = absurd (cc)
  settle-Reflects cluster req drop r n e h = inr (
    λ b p. cc (e, (ca_checks_iff libraries constants shrinks cluster req b).1 p),
    delete_mapping-HasNone api (libraries.key_of req) r,
  )
  settle-Reflects cluster req (abort x) r n e h = absurd (cc)
  settle-Reflects cluster req panic r n e h = absurd (cc)

  -- Where pem.Decode returns a rest shorter than what it was given, after a reconciliation that
  -- returns without an error, either the config map may be published, is mapped to
  -- `projectName--shootUID`, and its payload is stored there; or it may not, is not mapped, and the
  -- entry that it was mapped to before is gone.
  pub reconcile_certificate-Reflects :
      (cluster : Cluster E) (req : NamespacedName) (r : Reconciler S) (n : ℕ)
      → (reconcile api libraries resync_period constants cluster req r).1 ≡ requeue_after n
      → Reflects cluster req
          (init_mapping r)
          (reconcile api libraries resync_period constants cluster req r).0
  unfolding reconcile
  reconcile_certificate-Reflects cluster req r n h =
      settle-Reflects cluster req (check_all libraries constants cluster req) (init_mapping r) n
        refl h
