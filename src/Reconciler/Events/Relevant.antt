-- ===== src/Reconciler/Events/Relevant.antt =====
-- The predicates of internal/reconciler let every event through that the reconcilers may publish for.
use gardener_discovery_serve.Common.{
  ◌≡◌, refl, sym, ap, ◌∙◌, Bool, true, false, ◌||◌, some, [], ◌∷◌, Bytes, bytes, ◌==◌, eq_iff,
  eq_refl, Map, lookup, lookup-nil, All, arith,
}
use gardener_discovery_serve.Common.Results.{ok}
use gardener_discovery_serve.Utils.Load.{Jose}
use gardener_discovery_serve.Store.Openidmeta.{Data}
use gardener_discovery_serve.Reconciler.{NamespacedName, Secret, ConfigMap, Cluster, Constants}
use gardener_discovery_serve.Reconciler.Openidmeta.Publishable as Openidmeta
use gardener_discovery_serve.Reconciler.Certificate.{
  Libraries, Bundle, or_empty, label_public, label_restriction,
}
use gardener_discovery_serve.Reconciler.Certificate.Publishable as Certificate
use gardener_discovery_serve.Reconciler.Events.{
  Object, secret_object, config_map_object, Event, created, updated, deleted, generic, objects_of,
  is_nil, is_relevant_secret, is_relevant_secret_update, secret_predicate, is_relevant_config_map,
  is_relevant_config_map_update, configmap_predicate,
}

lookup-is_nil :
    (label : Bytes) (labels : Map Bytes) (v : Bytes)
    → lookup label labels ≡ some v
    → is_nil labels ≡ false
lookup-is_nil label [] v h = absurd (cc (lookup-nil label, h))
lookup-is_nil label (entry ∷ labels) v h = refl

true-is_nil :
    (label : Bytes) (labels : Map Bytes)
    → or_empty (lookup label labels) ≡ bytes "true"
    → is_nil labels ≡ false
unfolding ◌==◌
true-is_nil label [] h =
    absurd (cc ((eq_iff [] (bytes "true")).1 (ap or_empty (sym (lookup-nil label)) ∙ h)))
true-is_nil label (entry ∷ labels) h = refl

-- An event that a predicate filters out carries only objects that are not relevant.
filtered_out :
    (relevant : Object → Bool) (old new : Object)
    → (relevant new || relevant old) ≡ false
    → (relevant old ≡ false) × (relevant new ≡ false)
filtered_out relevant old new h = (ground arith, ground arith)

module _ (constants : Constants) where
  -- the labels that the reconcilers ask for
  relevant_secret :
      (secret : Secret)
      → lookup constants.label_discovery_public secret.secret_labels
        ≡ some constants.label_public_keys_service_account
      → is_relevant_secret constants (secret_object secret) ≡ true
  unfolding is_relevant_secret
  relevant_secret secret h = rw (
    lookup-is_nil constants.label_discovery_public secret.secret_labels _ h,
    h,
    eq_refl constants.label_public_keys_service_account,
  )

  relevant_config_map :
      (configmap : ConfigMap)
      → or_empty (lookup constants.label_discovery_public configmap.config_labels)
        ≡ constants.discovery_shoot_ca
      → or_empty (lookup constants.label_update_restriction configmap.config_labels) ≡ bytes "true"
      → is_relevant_config_map constants (config_map_object configmap) ≡ true
  unfolding is_relevant_config_map
  relevant_config_map configmap h k = rw (
    true-is_nil constants.label_update_restriction configmap.config_labels k,
    h,
    k,
    eq_refl constants.discovery_shoot_ca,
    eq_refl (bytes "true"),
  )

module _ (E : Type 0) {JsonError Key : Type 0} (constants : Constants)
    (jose : Jose JsonError Key) where
  -- Where the request names the secret, there is nothing to publish.
  abbrev pub SecretUnpublishable : Object → Type 0
  SecretUnpublishable o =
      (secret : Secret) (cluster : Cluster E) (req : NamespacedName) (d : Data Bytes)
      → o ≡ secret_object secret
      → cluster.get_secret req ≡ ok secret
      → ¬ Openidmeta.IsPublishable constants jose cluster req d

  irrelevant-SecretUnpublishable :
      (o : Object) → is_relevant_secret constants o ≡ false → SecretUnpublishable o
  irrelevant-SecretUnpublishable o irrelevant secret cluster req d is_secret found p =
      let claims = p.has_claims in
      let same : claims.secret ≡ secret = cc (claims.found_secret, found) in
      cc (
        irrelevant,
        is_secret,
        ap secret_object same,
        relevant_secret constants claims.secret claims.is_public,
      )

  -- An event that `secretPredicate` filters out, of those that carry what the API server holds or
  -- held, carries no secret that may be published.
  pub secret_predicate-SecretUnpublishable :
      (e : Event) → secret_predicate constants e ≡ false → All SecretUnpublishable (objects_of e)
  unfolding secret_predicate is_relevant_secret_update
  secret_predicate-SecretUnpublishable (created o) h = (irrelevant-SecretUnpublishable o h, tt)
  secret_predicate-SecretUnpublishable (updated old new) h =
      let (old_out, new_out) = filtered_out (is_relevant_secret constants) old new h in
      (irrelevant-SecretUnpublishable old old_out, (irrelevant-SecretUnpublishable new new_out, tt))
  secret_predicate-SecretUnpublishable (deleted o) h = (irrelevant-SecretUnpublishable o h, tt)
  secret_predicate-SecretUnpublishable (generic o) h = tt

module _ {E : Type 0} (constants : Constants) (libraries : Libraries E)
    (same_label_public : constants.label_discovery_public ≡ label_public)
    (same_shoot_ca : constants.discovery_shoot_ca ≡ bytes "shoot-ca")
    (same_label_restriction : constants.label_update_restriction ≡ label_restriction) where
  -- Where the request names the config map, there is nothing to publish.
  abbrev pub ConfigMapUnpublishable : Object → Type 0
  ConfigMapUnpublishable o =
      (configmap : ConfigMap) (cluster : Cluster E) (req : NamespacedName) (b : Bundle)
      → o ≡ config_map_object configmap
      → cluster.get_config_map req ≡ ok configmap
      → ¬ Certificate.IsPublishable libraries constants cluster req b

  irrelevant-ConfigMapUnpublishable :
      (o : Object) → is_relevant_config_map constants o ≡ false → ConfigMapUnpublishable o
  irrelevant-ConfigMapUnpublishable o irrelevant configmap cluster req b is_config_map found p =
      let same : p.configmap ≡ configmap = cc (p.found_config_map, found) in
      let relevant =
        relevant_config_map constants p.configmap
          (rw (same_label_public, same_shoot_ca) p.is_public)
          (rw same_label_restriction p.is_restricted) in
      cc (irrelevant, is_config_map, ap config_map_object same, relevant)

  -- Where the labels that `configmapPredicate` takes from Gardener's packages are those that
  -- `Reconcile` spells out, an event that it filters out, of those that carry what the API server
  -- holds or held, carries no config map that may be published.
  pub configmap_predicate-ConfigMapUnpublishable :
      (e : Event)
      → configmap_predicate constants e ≡ false
      → All ConfigMapUnpublishable (objects_of e)
  unfolding configmap_predicate is_relevant_config_map_update
  configmap_predicate-ConfigMapUnpublishable (created o) h =
      (irrelevant-ConfigMapUnpublishable o h, tt)
  configmap_predicate-ConfigMapUnpublishable (updated old new) h =
      let (old_out, new_out) = filtered_out (is_relevant_config_map constants) old new h in
      (
        irrelevant-ConfigMapUnpublishable old old_out,
        (irrelevant-ConfigMapUnpublishable new new_out, tt),
      )
  configmap_predicate-ConfigMapUnpublishable (deleted o) h =
      (irrelevant-ConfigMapUnpublishable o h, tt)
  configmap_predicate-ConfigMapUnpublishable (generic o) h = tt
