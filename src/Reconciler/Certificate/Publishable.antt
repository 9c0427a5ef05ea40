-- ===== src/Reconciler/Certificate/Publishable.antt =====
-- When the reconciler of internal/reconciler/certificate publishes a config map's certificates, said
-- without its control flow.
use gardener_discovery_serve.Common.{
  ◌≡◌, ◌≢◌, ◌↔◌, sym, ap, ◌∙◌, true, not, ◌||◌, none, some, [], Bytes, bytes, ◌==◌, eq→≡, eq_refl,
  lookup, arith,
}
use gardener_discovery_serve.Common.Results.{ok}
use gardener_discovery_serve.Reconciler.{
  NamespacedName, ConfigMap, Namespace, Project, Shoot, Cluster, Constants, pass,
}
use gardener_discovery_serve.Reconciler.Checks.{
  is_unset, is_unset-eq-true, found_text_present, Ensures, Ensures-require, Ensures-found,
  Ensures-found_text, Ensures-got, Ensures-pass, Ensures-bind,
}
use gardener_discovery_serve.Reconciler.Certificate.{
  Libraries, Bundle, or_empty, label_public, label_restriction, check_certs, check_all,
}
use gardener_discovery_serve.Reconciler.Certificate.Blocks.{
  IsCaBundle, Shrinks, check_certs_sound, check_certs_complete,
}

module _ {E : Type 0} (libraries : Libraries E) (constants : Constants) where
  -- The config map lives, carries the two labels and the certificates, and the namespace, the project
  -- and the shoot that it names belong together; every block is a certificate of a CA.
  pub record IsPublishable (cluster : Cluster E) (req : NamespacedName) (b : Bundle) : Type 0 where
    pub configmap : ConfigMap
    pub namespace : Namespace
    pub project : Project
    pub shoot : Shoot
    pub shoot_name : Bytes
    pub found_config_map : cluster.get_config_map req ≡ ok configmap
    pub alive : configmap.config_deletion ≡ none
    pub has_certs : lookup constants.data_key_certificate_ca configmap.config_data ≡ some b.certs
    pub certs_present : b.certs ≢ []
    pub is_public : or_empty (lookup label_public configmap.config_labels) ≡ bytes "shoot-ca"
    pub is_restricted : or_empty (lookup label_restriction configmap.config_labels) ≡ bytes "true"
    pub found_namespace : cluster.get_namespace req.namespace ≡ ok namespace
    pub has_project : lookup constants.project_name namespace.namespace_labels ≡ some b.project_name
    pub found_project : cluster.get_project b.project_name ≡ ok project
    pub owns_namespace : project.spec_namespace ≡ some namespace.namespace_name
    pub has_shoot_name : lookup constants.label_shoot_name configmap.config_labels ≡ some shoot_name
    pub has_shoot_uid : lookup constants.shoot_uid configmap.config_labels ≡ some b.shoot_uid
    pub found_shoot :
        cluster.get_shoot (record { namespace = req.namespace; name = shoot_name }) ≡ ok shoot
    pub same_uid : shoot.uid ≡ b.shoot_uid
    pub ca_bundle : IsCaBundle libraries b.certs

  both_labels : (x y u v : Bytes) → not (not (x == u) || not (y == v)) ≡ true → (x ≡ u) × (y ≡ v)
  both_labels x y u v h = (eq→≡ x u (ground arith), eq→≡ y v (ground arith))

  module _ (shrinks : Shrinks libraries) where
    check_all-IsPublishable :
        (cluster : Cluster E) (req : NamespacedName)
        → Ensures (check_all libraries constants cluster req) (IsPublishable cluster req)
    unfolding check_all
    check_all-IsPublishable cluster req =
        Ensures-got (cluster.get_config_map req) _ λ configmap found_config_map.
          Ensures-require (is_unset configmap.config_deletion) _ λ unset.
            Ensures-found_text (lookup constants.data_key_certificate_ca configmap.config_data) _
              λ certs has_certs there. Ensures-require _ _ λ labels.
                Ensures-got (cluster.get_namespace req.namespace) _ λ namespace found_namespace.
                  Ensures-found (lookup constants.project_name namespace.namespace_labels) _
                    λ project_name has_project.
                      Ensures-got (cluster.get_project project_name) _ λ project found_project.
                        Ensures-found project.spec_namespace _ λ spec_namespace has_namespace.
                          Ensures-require (spec_namespace == namespace.namespace_name) _ λ owns.
                            Ensures-found
                              (lookup constants.label_shoot_name configmap.config_labels) _
                              λ shoot_name has_name.
                                Ensures-found (lookup constants.shoot_uid configmap.config_labels) _
                                  λ shoot_uid has_uid.
                                    Ensures-got
                                      (cluster.get_shoot
                                        (record { namespace = req.namespace; name = shoot_name }))
                                      _
                                      λ shoot found_shoot.
                                        Ensures-require (shoot_uid == shoot.uid) _ λ same.
                                          Ensures-bind (check_certs libraries certs) _ λ u good.
                                            let (public, restricted) =
                                              both_labels
                                                (or_empty
                                                  (lookup label_public configmap.config_labels))
                                                (or_empty (
                                                  lookup label_restriction configmap.config_labels))
                                                (bytes "shoot-ca") (bytes "true") labels in
                                            Ensures-pass _ (record {
                                              configmap = configmap;
                                              namespace = namespace;
                                              project = project;
                                              shoot = shoot;
                                              shoot_name = shoot_name;
                                              found_config_map = found_config_map;
                                              alive = is_unset-eq-true _ unset;
                                              has_certs = has_certs;
                                              certs_present = there;
                                              is_public = public;
                                              is_restricted = restricted;
                                              found_namespace = found_namespace;
                                              has_project = has_project;
                                              found_project = found_project;
                                              owns_namespace =
                                                  has_namespace ∙ ap some (eq→≡ _ _ owns);
                                              has_shoot_name = has_name;
                                              has_shoot_uid = has_uid;
                                              found_shoot = found_shoot;
                                              same_uid = sym (eq→≡ _ _ same);
                                              ca_bundle =
                                                  check_certs_sound libraries shrinks certs good;
                                            })

    check_all_complete :
        (cluster : Cluster E) (req : NamespacedName) (b : Bundle)
        → IsPublishable cluster req b
        → check_all libraries constants cluster req ≡ pass b
    unfolding check_all
    check_all_complete cluster req b h = rw (
      h.found_config_map,
      h.alive,
      found_text_present _ b.certs h.has_certs h.certs_present,
      h.is_public,
      h.is_restricted,
      eq_refl (bytes "shoot-ca"),
      eq_refl (bytes "true"),
      h.found_namespace,
      h.has_project,
      h.found_project,
      h.owns_namespace,
      eq_refl h.namespace.namespace_name,
      h.has_shoot_name,
      h.has_shoot_uid,
      h.found_shoot,
      h.same_uid,
      eq_refl b.shoot_uid,
      check_certs_complete libraries shrinks b.certs h.ca_bundle,
    )

    -- Where pem.Decode returns a rest shorter than what it was given, the checks of `Reconcile`
    -- pass on the bundle `b` exactly where the config map, the namespace, the project, the shoot
    -- and the certificates are as `IsPublishable` lists.
    pub ca_checks_iff :
        (cluster : Cluster E) (req : NamespacedName) (b : Bundle)
        → (check_all libraries constants cluster req ≡ pass b) ↔ IsPublishable cluster req b
    ca_checks_iff cluster req b =
        ((check_all-IsPublishable cluster req).at b, check_all_complete cluster req b)
