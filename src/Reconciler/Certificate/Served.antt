-- ===== src/Reconciler/Certificate/Served.antt =====
-- What any sequence of reconciliations of internal/reconciler/certificate leaves in the store.
use mathlib.Core.Path.{subst₂}
use gardener_discovery_serve.Common.{
  ℕ, ◌≡◌, inl, inr, refl, Bool-cases, some, List, [], ◌∷◌, Bytes, ◌==◌, eq→≡, lookup,
}
use gardener_discovery_serve.Common.Results.{Result, ok, err}
use gardener_discovery_serve.Store.Api.{Api}
use gardener_discovery_serve.Store.Certificate.{Data}
use gardener_discovery_serve.Reconciler.{
  NamespacedName, Cluster, Constants, Check, pass, drop, abort, panic,
}
use gardener_discovery_serve.Reconciler.Certificate.{
  Libraries, Bundle, Reconciler, or_empty, data_key, check_all, init_mapping, create_mapping,
  delete_mapping, settle, publish, reconcile,
}
use gardener_discovery_serve.Reconciler.Certificate.Blocks.{IsCaBundle, Shrinks}
use gardener_discovery_serve.Reconciler.Certificate.Publishable.{ca_checks_iff}

module _ {E : Type 0} (libraries : Libraries E) where
  -- The datum is the payload of a CA bundle, stored under a key `projectName--shootUID`.
  pub record IsCaEntry (key : Bytes) (d : Data Bytes) : Type 0 where
    pub bundle : Bundle
    pub under_key : data_key bundle ≡ key
    pub payload_of : libraries.marshal bundle.certs ≡ ok d.ca_bundle
    pub ca_bundle : IsCaBundle libraries bundle.certs

  module _ {S : Type 0} (api : Api (Data Bytes) S) where
    abbrev pub AllCa : S → Type 0
    AllCa s = (key : Bytes) (d : Data Bytes) → api.read key s ≡ some d → IsCaEntry key d

    write-AllCa :
        (key : Bytes) (v : Data Bytes) (s : S)
        → IsCaEntry key v
        → AllCa s
        → AllCa (api.write key v s)
    write-AllCa key v s entry all j d found = elim (Bool-cases (key == j)) [
      | inl same ↦
          let is_v : some v ≡ some d = cc (api.read-write key j v s, same, found) in
          subst₂ IsCaEntry (eq→≡ key j same) (cc) entry
      | inr changed ↦ all j d (cc (api.read-write key j v s, changed, found))
    ]

    delete-AllCa : (key : Bytes) (s : S) → AllCa s → AllCa (api.delete key s)
    delete-AllCa key s all j d found = elim (Bool-cases (key == j)) [
      | inl same ↦ absurd (cc (api.read-delete key j s, same, found))
      | inr changed ↦ all j d (cc (api.read-delete key j s, changed, found))
    ]

    delete_mapping-AllCa :
        (map_key : Bytes) (r : Reconciler S)
        → AllCa r.store
        → AllCa (delete_mapping api map_key r).store
    unfolding delete_mapping
    delete_mapping-AllCa map_key r all =
        delete-AllCa (or_empty (lookup map_key r.store_mapping)) r.store all

    init_mapping-AllCa : (r : Reconciler S) → AllCa r.store → AllCa (init_mapping r).store
    unfolding init_mapping
    init_mapping-AllCa r all = elim (Bool-cases r.once) [
      | inl done ↦ rw done all
      | inr first ↦ rw first all
    ]

module _ {E S : Type 0} (api : Api (Data Bytes) S) (libraries : Libraries E) (resync_period : ℕ)
    (constants : Constants) (shrinks : Shrinks libraries) where
  -- Reconciliations one after the other, each with what the API server answers at its time.
  unfoldable pub reconcile_each : List (Cluster E × NamespacedName) → Reconciler S → Reconciler S
  unfolding reconcile
  reconcile_each [] r = r
  reconcile_each ((cluster, req) ∷ rest) r =
      reconcile_each rest (reconcile api libraries resync_period constants cluster req r).0

  publish-AllCa :
      (map_key : Bytes) (b : Bundle) (m : Result E Bytes) (r : Reconciler S)
      → libraries.marshal b.certs ≡ m
      → IsCaBundle libraries b.certs
      → AllCa libraries api r.store
      → AllCa libraries api (publish api libraries resync_period map_key b m r).0.store
  unfolding create_mapping
  publish-AllCa map_key b (ok payload) r made ca all =
      write-AllCa libraries api (data_key b) (record { ca_bundle = payload }) r.store
        (record { bundle = b; under_key = refl; payload_of = made; ca_bundle = ca }) all
  publish-AllCa map_key b (err e) r made ca all = delete_mapping-AllCa libraries api map_key r all

  settle-AllCa :
      (cluster : Cluster E) (req : NamespacedName) (c : Check E Bundle) (r : Reconciler S)
      → check_all libraries constants cluster req ≡ c
      → AllCa libraries api r.store
      → AllCa libraries api (settle api libraries resync_period (libraries.key_of req) c r).0.store
  settle-AllCa cluster req (pass b) r e all =
      publish-AllCa (libraries.key_of req) b (libraries.marshal b.certs) r refl
        ((ca_checks_iff libraries constants shrinks cluster req b).0 e).ca_bundle all
  settle-AllCa cluster req drop r e all =
      delete_mapping-AllCa libraries api (libraries.key_of req) r all
  settle-AllCa cluster req (abort x) r e all = all
  settle-AllCa cluster req panic r e all = all

  -- Where pem.Decode returns a rest shorter than what it was given, and from a store that holds
  -- only payloads of CA bundles, an empty one for instance, any sequence of reconciliations leads
  -- to such a store: every entry is the payload of PEM blocks that are all certificates of CAs,
  -- under a key `projectName--shootUID`.
  pub reconcile_each-AllCa :
      (l : List (Cluster E × NamespacedName)) (r : Reconciler S)
      → AllCa libraries api r.store
      → AllCa libraries api (reconcile_each l r).store
  unfolding reconcile_each
  reconcile_each-AllCa [] r all = all
  reconcile_each-AllCa ((cluster, req) ∷ rest) r all =
      reconcile_each-AllCa rest (reconcile api libraries resync_period constants cluster req r).0 (
        settle-AllCa cluster req (check_all libraries constants cluster req) (init_mapping r) refl
          (init_mapping-AllCa libraries api r all))
