-- ===== src/Reconciler/Certificate/Keeps.antt =====
-- What a reconciliation of internal/reconciler/certificate keeps: the mapping and the store go together,
-- and what they say of other config maps stays.
use gardener_discovery_serve.Common.{
  differ, ℕ, ◌≡◌, ◌≢◌, inl, inr, refl, sym, ap, ◌∙◌, true, false, Bool-cases, some, [], ◌∷◌, ◌++◌,
  Bytes, bytes, lookup, lookup-insert, lookup-remove, arith,
}
use gardener_discovery_serve.Common.Results.{Result, ok, err}
use gardener_discovery_serve.Store.Api.{Api}
use gardener_discovery_serve.Store.Certificate.{Data}
use gardener_discovery_serve.Reconciler.{
  NamespacedName, Cluster, Constants, Check, pass, drop, abort, panic,
}
use gardener_discovery_serve.Reconciler.Certificate.{
  Libraries, Bundle, Reconciler, data_key, check_all, init_mapping, create_mapping, delete_mapping,
  settle, publish, reconcile,
}
use gardener_discovery_serve.Reconciler.Certificate.Blocks.{Shrinks}
use gardener_discovery_serve.Reconciler.Certificate.Publishable.{IsPublishable, ca_checks_iff}
use gardener_discovery_serve.Reconciler.Certificate.Tracked.{
  Tracked, Tracked-create, Tracked-delete, deleted_other,
}

-- A key `projectName--shootUID` is not empty.
pub data_key_present : (b : Bundle) → data_key b ≢ []
data_key_present b e = no_end b.project_name e
  where
    no_end : (p : Bytes) → p ++ bytes "--" ++ b.shoot_uid ≢ []
    no_end [] h = cc
    no_end (c ∷ p) h = cc

-- The config map stands for its own key.
abbrev pub IsKeyed :
    {E : Type 0} → Libraries E → Constants → (Bytes → Bytes) → Cluster E → NamespacedName → Type 0
IsKeyed libraries constants keys cluster req =
    (b : Bundle)
    → IsPublishable libraries constants cluster req b
    → data_key b ≡ keys (libraries.key_of req)

-- Nothing has changed for a config map.
pub record IsSame {S : Type 0} (api : Api (Data Bytes) S) (j : Bytes) (r r' : Reconciler S)
    : Type 0 where
  pub same_mapping : lookup j r'.store_mapping ≡ lookup j r.store_mapping
  pub same_entry :
      (key : Bytes)
      → lookup j r.store_mapping ≡ some key
      → api.read key r'.store ≡ api.read key r.store

module _ {S : Type 0} (api : Api (Data Bytes) S) (keys : Bytes → Bytes) where
  -- A mapping that `init` has not made is empty, and the mapping and the store go together.
  pub record IsSound (r : Reconciler S) : Type 0 where
    pub initial : r.once ≡ false → r.store_mapping ≡ []
    pub tracked : Tracked api keys r.store_mapping r.store

  init_mapping_once : (r : Reconciler S) → (init_mapping r).once ≡ true
  unfolding init_mapping
  init_mapping_once r = ground arith

  pub init_mapping_lem :
      (r : Reconciler S)
      → IsSound r
      → ((init_mapping r).store_mapping ≡ r.store_mapping) × ((init_mapping r).store ≡ r.store)
  unfolding init_mapping
  init_mapping_lem r sound = elim (Bool-cases r.once) [
    | inl done ↦ (rw done, rw done)
    | inr first ↦ (rw first (sym (sound.initial first)), rw first)
  ]

  pub init_mapping-IsSound : (r : Reconciler S) → IsSound r → IsSound (init_mapping r)
  init_mapping-IsSound r sound =
      let (same, same_store) = init_mapping_lem r sound in
      record {
        initial = λ first. absurd (cc (init_mapping_once r, first));
        tracked = rw (same, same_store) sound.tracked;
      }

  module _ (injective : (x y : Bytes) → keys x ≡ keys y → x ≡ y) where
    delete_mapping-IsSound :
        (map_key : Bytes) (r : Reconciler S)
        → IsSound r
        → r.once ≡ true
        → IsSound (delete_mapping api map_key r)
    unfolding delete_mapping
    delete_mapping-IsSound map_key r sound once = record {
      initial = λ first. absurd (cc (first, once));
      tracked =
          Tracked-delete api keys injective map_key _ r.store_mapping r.store refl sound.tracked;
    }

    create_mapping-IsSound :
        (map_key key payload : Bytes) (r : Reconciler S)
        → key ≡ keys map_key
        → key ≢ []
        → IsSound r
        → r.once ≡ true
        → IsSound (create_mapping api map_key key payload r)
    unfolding create_mapping
    create_mapping-IsSound map_key key payload r own there sound once = record {
      initial = λ first. absurd (cc (first, once));
      tracked = rw own (
          Tracked-create api keys injective map_key _ r.store_mapping r.store (λ e. there (own ∙ e))
            sound.tracked);
    }

    delete_mapping-IsSame :
        (map_key j : Bytes) (r : Reconciler S)
        → map_key ≢ j
        → IsSound r
        → IsSame api j r (delete_mapping api map_key r)
    unfolding delete_mapping
    delete_mapping-IsSame map_key j r not_j sound = record {
      same_mapping = lookup-remove map_key j r.store_mapping ∙ (rw (differ _ _ not_j));
      same_entry = λ key mapped.
          api.read-delete _ key r.store
          ∙ (rw (
              differ _ _ (
                deleted_other api keys injective map_key _ r.store_mapping r.store sound.tracked
                  refl j key not_j mapped)));
    }

    create_mapping-IsSame :
        (map_key j key payload : Bytes) (r : Reconciler S)
        → map_key ≢ j
        → key ≡ keys map_key
        → IsSound r
        → IsSame api j r (create_mapping api map_key key payload r)
    unfolding create_mapping
    create_mapping-IsSame map_key j key payload r not_j own sound = record {
      same_mapping = lookup-insert map_key j key r.store_mapping ∙ (rw (differ _ _ not_j));
      same_entry = λ k mapped.
          let other : key ≢ k =
            λ e. not_j (injective map_key j (sym own ∙ e ∙ sound.tracked.keyed j k mapped)) in
          api.read-write key k _ r.store ∙ (rw (differ _ _ other));
    }

    module _ {E : Type 0} (libraries : Libraries E) (resync_period : ℕ) (constants : Constants)
        (shrinks : Shrinks libraries) where
      publish_keeps :
          (map_key : Bytes) (b : Bundle) (m : Result E Bytes) (r : Reconciler S)
          → data_key b ≡ keys map_key
          → IsSound r
          → r.once ≡ true
          → IsSound (publish api libraries resync_period map_key b m r).0
            × ((j : Bytes)
                → map_key ≢ j
                → IsSame api j r (publish api libraries resync_period map_key b m r).0)
      publish_keeps map_key b (ok payload) r own sound once = (
        create_mapping-IsSound map_key (data_key b) payload r own (data_key_present b) sound once,
        λ j not_j. create_mapping-IsSame map_key j (data_key b) payload r not_j own sound,
      )
      publish_keeps map_key b (err e) r own sound once = (
        delete_mapping-IsSound map_key r sound once,
        λ j not_j. delete_mapping-IsSame map_key j r not_j sound,
      )

      settle_keeps :
          (cluster : Cluster E) (req : NamespacedName) (c : Check E Bundle) (r : Reconciler S)
          → check_all libraries constants cluster req ≡ c
          → IsKeyed libraries constants keys cluster req
          → IsSound r
          → r.once ≡ true
          → IsSound (settle api libraries resync_period (libraries.key_of req) c r).0
            × ((j : Bytes)
                → libraries.key_of req ≢ j
                → IsSame api j r (settle api libraries resync_period (libraries.key_of req) c r).0)
      settle_keeps cluster req (pass b) r e keyed sound once =
          publish_keeps (libraries.key_of req) b (libraries.marshal b.certs) r
            (keyed b ((ca_checks_iff libraries constants shrinks cluster req b).0 e)) sound once
      settle_keeps cluster req drop r e keyed sound once = (
        delete_mapping-IsSound (libraries.key_of req) r sound once,
        λ j not_j. delete_mapping-IsSame (libraries.key_of req) j r not_j sound,
      )
      settle_keeps cluster req (abort x) r e keyed sound once =
          (sound, λ j not_j. record { same_mapping = refl; same_entry = λ key h. refl })
      settle_keeps cluster req panic r e keyed sound once =
          (sound, λ j not_j. record { same_mapping = refl; same_entry = λ key h. refl })

      -- A reconciliation keeps the mapping and the store together, and says nothing of others.
      pub reconcile_keeps :
          (cluster : Cluster E) (req : NamespacedName) (r : Reconciler S)
          → IsKeyed libraries constants keys cluster req
          → IsSound r
          → IsSound (reconcile api libraries resync_period constants cluster req r).0
            × ((j : Bytes)
                → libraries.key_of req ≢ j
                → IsSame api j r (reconcile api libraries resync_period constants cluster req r).0)
      unfolding reconcile
      reconcile_keeps cluster req r keyed sound =
          let (same, same_store) = init_mapping_lem r sound in
          let (after, others) =
            settle_keeps cluster req (check_all libraries constants cluster req) (init_mapping r)
              refl keyed (init_mapping-IsSound r sound) (init_mapping_once r) in
          (
            after,
            λ j not_j. record {
              same_mapping = (others j not_j).same_mapping ∙ ap (lookup j) same;
              same_entry = λ key mapped.
                  (others j not_j).same_entry key (ap (lookup j) same ∙ mapped)
                  ∙ ap (api.read key) same_store;
            },
          )
