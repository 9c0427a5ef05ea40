-- ===== src/Reconciler/Certificate/Own.antt =====
-- What a reconciliation of internal/reconciler/certificate makes of the entry of its own config map.
use gardener_discovery_serve.Common.{
  ℕ, ◌≡◌, inl, inr, refl, sym, ap, ◌∙◌, Option, Option-cases, none, Bytes, eq_refl, lookup,
  lookup-insert, lookup-remove,
}
use gardener_discovery_serve.Common.Results.{Result, ok, err}
use gardener_discovery_serve.Store.Api.{Api}
use gardener_discovery_serve.Store.Certificate.{Data}
use gardener_discovery_serve.Reconciler.{
  NamespacedName, Cluster, Constants, Check, pass, drop, abort, panic,
}
use gardener_discovery_serve.Reconciler.Certificate.{
  Libraries, Bundle, Reconciler, data_key, check_all, init_mapping, create_mapping, delete_mapping,
  settle, publish, reconcile, or_empty,
}
use gardener_discovery_serve.Reconciler.Certificate.Blocks.{Shrinks}
use gardener_discovery_serve.Reconciler.Certificate.Publishable.{ca_checks_iff}
use gardener_discovery_serve.Reconciler.Certificate.Keeps.{
  IsKeyed, IsSame, IsSound, init_mapping_lem,
}

module _ {S : Type 0} (api : Api (Data Bytes) S) (keys : Bytes → Bytes) where
  -- What is mapped of a config map, and what is stored under its key.
  abbrev pub entry_of : Bytes → Reconciler S → Option Bytes × Option (Data Bytes)
  entry_of name r = (lookup name r.store_mapping, api.read (keys name) r.store)

  module _ (name : Bytes) (r r' : Reconciler S) (same : entry_of name r ≡ entry_of name r') where
    delete_mapping_own :
        entry_of name (delete_mapping api name r) ≡ entry_of name (delete_mapping api name r')
    unfolding delete_mapping
    delete_mapping_own =
        let same_mapping = ap (λ e. e.0) same in
        let same_entry = ap (λ e. e.1) same in
        rw (
          lookup-remove name name r.store_mapping,
          lookup-remove name name r'.store_mapping,
          api.read-delete (or_empty (lookup name r.store_mapping)) (keys name) r.store,
          api.read-delete (or_empty (lookup name r'.store_mapping)) (keys name) r'.store,
          same_mapping,
          same_entry,
        )

    create_mapping_own :
        (key payload : Bytes)
        → key ≡ keys name
        → entry_of name (create_mapping api name key payload r)
          ≡ entry_of name (create_mapping api name key payload r')
    unfolding create_mapping
    create_mapping_own key payload own = rw (
      lookup-insert name name key r.store_mapping,
      lookup-insert name name key r'.store_mapping,
      api.read-write key (keys name) (record { ca_bundle = payload }) r.store,
      api.read-write key (keys name) (record { ca_bundle = payload }) r'.store,
      own,
      eq_refl name,
      eq_refl (keys name),
    )

  init_mapping_own :
      (name : Bytes) (r : Reconciler S)
      → IsSound api keys r
      → entry_of name (init_mapping r) ≡ entry_of name r
  init_mapping_own name r sound =
      let (same, same_store) = init_mapping_lem api keys r sound in rw (same, same_store)

  unmapped_missing :
      (injective : (x y : Bytes) → keys x ≡ keys y → x ≡ y) (name : Bytes) (r : Reconciler S)
      → IsSound api keys r
      → lookup name r.store_mapping ≡ none
      → api.read (keys name) r.store ≡ none
  unmapped_missing injective name r sound unmapped =
      elim (Option-cases (api.read (keys name) r.store)) [
        | inl gone ↦ gone
        | inr (d, stored) ↦
            let (j, mapped) = sound.tracked.owned (keys name) d stored in
            let is_j : name ≡ j = injective name j (sound.tracked.keyed j (keys name) mapped) in
            absurd (cc (unmapped, ap (λ k. lookup k r.store_mapping) is_j, mapped))
      ]

  -- What is the same in the mapping is the same in the store.
  pub IsSame-entry_of :
      (injective : (x y : Bytes) → keys x ≡ keys y → x ≡ y) (name : Bytes) (r r' : Reconciler S)
      → IsSound api keys r
      → IsSound api keys r'
      → IsSame api name r r'
      → entry_of name r' ≡ entry_of name r
  IsSame-entry_of injective name r r' sound sound' same =
      elim (Option-cases (lookup name r.store_mapping)) [
        | inl unmapped ↦ rw (
          same.same_mapping,
          unmapped_missing injective name r sound unmapped,
          unmapped_missing injective name r' sound' (same.same_mapping ∙ unmapped),
        )
        | inr (key, mapped) ↦
            let is_key = sound.tracked.keyed name key mapped in
            let same_entry = rw is_key at (same.same_entry key mapped) in
            rw (same.same_mapping, same_entry)
      ]

  module _ {E : Type 0} (libraries : Libraries E) (resync_period : ℕ) (constants : Constants)
      (shrinks : Shrinks libraries) where
    publish_own :
        (name : Bytes) (b : Bundle) (m : Result E Bytes) (r r' : Reconciler S)
        → data_key b ≡ keys name
        → entry_of name r ≡ entry_of name r'
        → entry_of name (publish api libraries resync_period name b m r).0
          ≡ entry_of name (publish api libraries resync_period name b m r').0
    publish_own name b (ok payload) r r' own same =
        create_mapping_own name r r' same (data_key b) payload own
    publish_own name b (err e) r r' own same = delete_mapping_own name r r' same

    settle_own :
        (cluster : Cluster E) (req : NamespacedName) (c : Check E Bundle) (r r' : Reconciler S)
        → check_all libraries constants cluster req ≡ c
        → IsKeyed libraries constants keys cluster req
        → entry_of (libraries.key_of req) r ≡ entry_of (libraries.key_of req) r'
        → entry_of
            (libraries.key_of req)
            (settle api libraries resync_period (libraries.key_of req) c r).0
          ≡ entry_of
              (libraries.key_of req)
              (settle api libraries resync_period (libraries.key_of req) c r').0
    settle_own cluster req (pass b) r r' e keyed same =
        publish_own (libraries.key_of req) b (libraries.marshal b.certs) r r'
          (keyed b ((ca_checks_iff libraries constants shrinks cluster req b).0 e)) same
    settle_own cluster req drop r r' e keyed same =
        delete_mapping_own (libraries.key_of req) r r' same
    settle_own cluster req (abort x) r r' e keyed same = same
    settle_own cluster req panic r r' e keyed same = same

    -- The entry of the config map depends afterwards on what the entry was, and on nothing else that
    -- is mapped or stored.
    pub reconcile_certificate_own :
        (cluster : Cluster E) (req : NamespacedName) (r r' : Reconciler S)
        → IsKeyed libraries constants keys cluster req
        → IsSound api keys r
        → IsSound api keys r'
        → entry_of (libraries.key_of req) r ≡ entry_of (libraries.key_of req) r'
        → entry_of
            (libraries.key_of req)
            (reconcile api libraries resync_period constants cluster req r).0
          ≡ entry_of
              (libraries.key_of req)
              (reconcile api libraries resync_period constants cluster req r').0
    unfolding reconcile
    reconcile_certificate_own cluster req r r' keyed sound sound' same =
        settle_own cluster req (check_all libraries constants cluster req) (init_mapping r)
          (init_mapping r') refl keyed
          (init_mapping_own (libraries.key_of req) r sound
            ∙ same
            ∙ sym (init_mapping_own (libraries.key_of req) r' sound'))
