-- ===== src/Reconciler/Certificate/Mapping.antt =====
-- How the mapping of internal/reconciler/certificate follows a config map over several
-- reconciliations.
use gardener_discovery_serve.Common.{
  ℕ, ◌≡◌, ◌≢◌, ap, ◌∙◌, false, none, some, Bytes, ◌==◌, eq_refl, eq_iff, lookup-insert, arith,
}
use gardener_discovery_serve.Common.Results.{ok, err}
use gardener_discovery_serve.Store.Api.{Api}
use gardener_discovery_serve.Store.Certificate.{Data}
use gardener_discovery_serve.Reconciler.{NamespacedName, Cluster, Constants, is_not_found, drop}
use gardener_discovery_serve.Reconciler.Certificate.{
  Libraries, Bundle, Reconciler, data_key, check_all, init_mapping, create_mapping, delete_mapping,
  settle, publish, reconcile,
}
use gardener_discovery_serve.Reconciler.Certificate.Blocks.{Shrinks}
use gardener_discovery_serve.Reconciler.Certificate.Publishable.{IsPublishable, ca_checks_iff}

differs : {x y : Bytes} → x ≢ y → (y == x) ≡ false
differs {x} {y} n = ground (arith, eq_iff y x, n)

module _ {E S : Type 0} (api : Api (Data Bytes) S) (libraries : Libraries E) (resync_period : ℕ)
    (constants : Constants) (shrinks : Shrinks libraries) (req : NamespacedName) where
  abbrev after : Cluster E → Reconciler S → Reconciler S
  after cluster r = (reconcile api libraries resync_period constants cluster req r).0

  after_publishing :
      (cluster : Cluster E) (b : Bundle) (payload : Bytes) (r : Reconciler S)
      → IsPublishable libraries constants cluster req b
      → libraries.marshal b.certs ≡ ok payload
      → after cluster r
        ≡ create_mapping api (libraries.key_of req) (data_key b) payload (init_mapping r)
  unfolding reconcile
  after_publishing cluster b payload r p made =
      ap (λ c. (settle api libraries resync_period (libraries.key_of req) c (init_mapping r)).0)
        ((ca_checks_iff libraries constants shrinks cluster req b).1 p)
      ∙ ap
          (λ m. (publish api libraries resync_period (libraries.key_of req) b m (init_mapping r)).0)
          made

  check_missing :
      (cluster : Cluster E)
      → cluster.get_config_map req ≡ err is_not_found
      → check_all libraries constants cluster req ≡ drop
  unfolding check_all
  check_missing cluster gone = rw gone

  after_missing :
      (cluster : Cluster E) (r : Reconciler S)
      → cluster.get_config_map req ≡ err is_not_found
      → after cluster r ≡ delete_mapping api (libraries.key_of req) (init_mapping r)
  unfolding reconcile
  after_missing cluster r gone =
      ap (λ c. (settle api libraries resync_period (libraries.key_of req) c (init_mapping r)).0)
        (check_missing cluster gone)

  -- What `create_mapping` leaves behind is not initialised again.
  init-create_mapping :
      (key payload : Bytes) (r : Reconciler S)
      → init_mapping (create_mapping api (libraries.key_of req) key payload (init_mapping r))
        ≡ create_mapping api (libraries.key_of req) key payload (init_mapping r)
  unfolding init_mapping create_mapping
  init-create_mapping key payload r = ground arith

  -- Where pem.Decode returns a rest shorter than what it was given, once a config map that may be
  -- published was published, the next reconciliation of it, if it finds it gone, takes its entry
  -- out of the store.
  pub published_then_missing :
      (c c' : Cluster E) (b : Bundle) (payload : Bytes) (r : Reconciler S)
      → IsPublishable libraries constants c req b
      → libraries.marshal b.certs ≡ ok payload
      → c'.get_config_map req ≡ err is_not_found
      → api.read (data_key b) (after c' (after c r)).store ≡ none
  unfolding create_mapping delete_mapping
  published_then_missing c c' b payload r p made gone = rw (
    after_missing c' (after c r) gone,
    after_publishing c b payload r p made,
    init-create_mapping (data_key b) payload r,
    lookup-insert (libraries.key_of req) (libraries.key_of req) (data_key b)
        (init_mapping r).store_mapping,
    eq_refl (libraries.key_of req),
    api.read-delete,
    eq_refl (data_key b),
  )

  -- Where pem.Decode returns a rest shorter than what it was given, a config map that is published
  -- a second time under another key, with another UID or project, leaves the first entry in the
  -- store: a reconciliation that then finds the config map gone does not take it out.
  pub remapped_entry_stays :
      (c c' c'' : Cluster E) (b b' : Bundle) (payload payload' : Bytes) (r : Reconciler S)
      → IsPublishable libraries constants c req b
      → libraries.marshal b.certs ≡ ok payload
      → IsPublishable libraries constants c' req b'
      → libraries.marshal b'.certs ≡ ok payload'
      → data_key b ≢ data_key b'
      → c''.get_config_map req ≡ err is_not_found
      → api.read (data_key b) (after c'' (after c' (after c r))).store
        ≡ some (record { ca_bundle = payload })
  unfolding create_mapping delete_mapping
  remapped_entry_stays c c' c'' b b' payload payload' r p made p' made' differ gone =
      let other : (data_key b' == data_key b) ≡ false = differs differ in
      rw (
        after_missing c'' (after c' (after c r)) gone,
        after_publishing c' b' payload' (after c r) p' made',
        init-create_mapping (data_key b') payload' (after c r),
        after_publishing c b payload r p made,
        init-create_mapping (data_key b) payload r,
        lookup-insert (libraries.key_of req) (libraries.key_of req) (data_key b'),
        eq_refl (libraries.key_of req),
        api.read-delete,
        other,
        api.read-write,
        other,
        api.read-write,
        eq_refl (data_key b),
      )
