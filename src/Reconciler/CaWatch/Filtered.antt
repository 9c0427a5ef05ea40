-- ===== src/Reconciler/CaWatch/Filtered.antt =====
-- What the predicate of internal/reconciler/certificate/add.go filters out is about no config map that
-- may be published, and one config map does not decide about another.
use gardener_discovery_serve.Common.{◌≡◌, refl, ◌∙◌, false, bytes}
use gardener_discovery_serve.Common.Results.{Result, err}
use gardener_discovery_serve.Reconciler.{
  GetError, is_not_found, NamespacedName, ConfigMap, Cluster, Constants,
}
use gardener_discovery_serve.Reconciler.Certificate.{
  Libraries, Bundle, label_public, label_restriction,
}
use gardener_discovery_serve.Reconciler.Certificate.Publishable.{IsPublishable}
use gardener_discovery_serve.Reconciler.Events.{Event, config_map_object, configmap_predicate}
use gardener_discovery_serve.Reconciler.Events.Relevant.{configmap_predicate-ConfigMapUnpublishable}
use gardener_discovery_serve.Reconciler.Watch.{Change, creates, updates, deletes}

module _ {E : Type 0} (libraries : Libraries E) (constants : Constants) where
  -- A config map that is missing is not published.
  pub missing_unpublishable :
      (cluster : Cluster E) (req : NamespacedName) (b : Bundle)
      → cluster.get_config_map req ≡ err is_not_found
      → ¬ IsPublishable libraries constants cluster req b
  missing_unpublishable cluster req b missing p = cc (p.found_config_map, missing)

  -- Whether a config map may be published does not depend on the other config maps.
  pub IsPublishable-put :
      (get_config_map : NamespacedName → Result (GetError E) ConfigMap) (cluster : Cluster E)
      (req : NamespacedName) (b : Bundle)
      → get_config_map req ≡ cluster.get_config_map req
      → IsPublishable libraries constants cluster req b
      → IsPublishable libraries constants (record cluster { get_config_map = get_config_map }) req b
  IsPublishable-put get_config_map cluster req b same p = record {
    configmap = p.configmap;
    namespace = p.namespace;
    project = p.project;
    shoot = p.shoot;
    shoot_name = p.shoot_name;
    found_config_map = same ∙ p.found_config_map;
    alive = p.alive;
    has_certs = p.has_certs;
    certs_present = p.certs_present;
    is_public = p.is_public;
    is_restricted = p.is_restricted;
    found_namespace = p.found_namespace;
    has_project = p.has_project;
    found_project = p.found_project;
    owns_namespace = p.owns_namespace;
    has_shoot_name = p.has_shoot_name;
    has_shoot_uid = p.has_shoot_uid;
    found_shoot = p.found_shoot;
    same_uid = p.same_uid;
    ca_bundle = p.ca_bundle;
  }

  module _ (same_label_public : constants.label_discovery_public ≡ label_public)
      (same_shoot_ca : constants.discovery_shoot_ca ≡ bytes "shoot-ca")
      (same_label_restriction : constants.label_update_restriction ≡ label_restriction) where
    -- An event that is filtered out is about a config map that may be published neither before nor
    -- after.
    pub filtered_unpublishable :
        (before after : Cluster E) (req : NamespacedName) (e : Event)
        → Change config_map_object (before.get_config_map req) (after.get_config_map req) e
        → configmap_predicate constants e ≡ false
        → ((b : Bundle) → ¬ IsPublishable libraries constants before req b)
          × ((b : Bundle) → ¬ IsPublishable libraries constants after req b)
    filtered_unpublishable before after req e (creates new gone is_new) out =
        let (unpublishable, _) =
          configmap_predicate-ConfigMapUnpublishable constants libraries same_label_public
            same_shoot_ca same_label_restriction e out in
        (
          λ b. missing_unpublishable before req b gone,
          λ b. unpublishable new after req b refl is_new,
        )
    filtered_unpublishable before after req e (updates old new was is_new) out =
        let (old_unpublishable, (new_unpublishable, _)) =
          configmap_predicate-ConfigMapUnpublishable constants libraries same_label_public
            same_shoot_ca same_label_restriction e out in
        (
          λ b. old_unpublishable old before req b refl was,
          λ b. new_unpublishable new after req b refl is_new,
        )
    filtered_unpublishable before after req e (deletes old was gone) out =
        let (unpublishable, _) =
          configmap_predicate-ConfigMapUnpublishable constants libraries same_label_public
            same_shoot_ca same_label_restriction e out in
        (λ b. unpublishable old before req b refl was, λ b. missing_unpublishable after req b gone)
