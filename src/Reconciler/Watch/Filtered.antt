-- ===== src/Reconciler/Watch/Filtered.antt =====
-- What the predicate of internal/reconciler/openidmeta/add.go filters out is about no secret that may
-- be published, and one secret does not decide about another.
use gardener_discovery_serve.Common.{◌≡◌, refl, ◌∙◌, false, Bytes}
use gardener_discovery_serve.Common.Results.{Result, err}
use gardener_discovery_serve.Utils.Load.{Jose}
use gardener_discovery_serve.Store.Openidmeta.{Data}
use gardener_discovery_serve.Reconciler.{
  GetError, is_not_found, NamespacedName, Secret, Cluster, Constants,
}
use gardener_discovery_serve.Reconciler.Openidmeta.Publishable.{IsPublishable}
use gardener_discovery_serve.Reconciler.Events.{Event, secret_object, secret_predicate}
use gardener_discovery_serve.Reconciler.Events.Relevant.{secret_predicate-SecretUnpublishable}
use gardener_discovery_serve.Reconciler.Watch.{Change, creates, updates, deletes}

module _ {E JsonError Key : Type 0} (constants : Constants) (jose : Jose JsonError Key) where
  -- A secret that is missing is not published.
  pub missing_unpublishable :
      (cluster : Cluster E) (req : NamespacedName) (d : Data Bytes)
      → cluster.get_secret req ≡ err is_not_found
      → ¬ IsPublishable constants jose cluster req d
  missing_unpublishable cluster req d missing p = cc (p.has_claims.found_secret, missing)

  -- An event that is filtered out is about a secret that may be published neither before nor after.
  pub filtered_unpublishable :
      (before after : Cluster E) (req : NamespacedName) (e : Event)
      → Change secret_object (before.get_secret req) (after.get_secret req) e
      → secret_predicate constants e ≡ false
      → ((d : Data Bytes) → ¬ IsPublishable constants jose before req d)
        × ((d : Data Bytes) → ¬ IsPublishable constants jose after req d)
  filtered_unpublishable before after req e (creates secret gone is_new) out =
      let (unpublishable, _) = secret_predicate-SecretUnpublishable E constants jose e out in
      (
        λ d. missing_unpublishable before req d gone,
        λ d. unpublishable secret after req d refl is_new,
      )
  filtered_unpublishable before after req e (updates old new was is_new) out =
      let (old_unpublishable, (new_unpublishable, _)) =
        secret_predicate-SecretUnpublishable E constants jose e out in
      (
        λ d. old_unpublishable old before req d refl was,
        λ d. new_unpublishable new after req d refl is_new,
      )
  filtered_unpublishable before after req e (deletes secret was gone) out =
      let (unpublishable, _) = secret_predicate-SecretUnpublishable E constants jose e out in
      (λ d. unpublishable secret before req d refl was, λ d. missing_unpublishable after req d gone)

  -- Whether a secret may be published does not depend on the other secrets.
  pub IsPublishable-put :
      (get_secret : NamespacedName → Result (GetError E) Secret) (cluster : Cluster E)
      (req : NamespacedName) (d : Data Bytes)
      → get_secret req ≡ cluster.get_secret req
      → IsPublishable constants jose cluster req d
      → IsPublishable constants jose (record cluster { get_secret = get_secret }) req d
  IsPublishable-put get_secret cluster req d same p =
      let c = p.has_claims in
      let h = p.has_shoot in
      record {
        claims = p.claims;
        same_data = p.same_data;
        has_claims = record {
          secret = c.secret;
          found_secret = same ∙ c.found_secret;
          alive = c.alive;
          has_config = c.has_config;
          config_present = c.config_present;
          has_jwks = c.has_jwks;
          jwks_present = c.jwks_present;
          is_public = c.is_public;
          has_project = c.has_project;
          has_shoot_name = c.has_shoot_name;
          has_shoot_namespace = c.has_shoot_namespace;
          named = c.named;
        };
        has_shoot = record {
          project = h.project;
          shoot = h.shoot;
          found_project = h.found_project;
          owns_namespace = h.owns_namespace;
          found_shoot = h.found_shoot;
          same_uid = h.same_uid;
          managed = h.managed;
        };
        vetted_data = p.vetted_data;
      }
