-- ===== src/Reconciler/Openidmeta/Decides.antt =====
-- The checks of internal/reconciler/openidmeta pass for exactly the secrets that may be published.
use mathlib.Core.Path.{subst}
use gardener_discovery_serve.Common.{
  ◌≡◌, ◌↔◌, refl, List, [], ◌∷◌, Bytes, eq_refl, has_prefix_iff, All, arith,
}
use gardener_discovery_serve.Utils.Split.{split_project_complete}
use gardener_discovery_serve.Utils.Load.{Jose}
use gardener_discovery_serve.Store.Openidmeta.{Data}
use gardener_discovery_serve.Reconciler.{NamespacedName, Cluster, Constants, pass}
use gardener_discovery_serve.Reconciler.Checks.{found_text_present}
use gardener_discovery_serve.Reconciler.Openidmeta.{
  https, Claims, check_secret, check_shoot, check_keys, check_documents, check_all,
}
use gardener_discovery_serve.Reconciler.Openidmeta.Publishable.{
  HasClaims, HasShoot, IsGoodKey, IsVetted, IsPublishable, check_all-IsPublishable,
}

pub check_secret_complete :
    {E : Type 0} (constants : Constants) (cluster : Cluster E) (req : NamespacedName)
    (claims : Claims)
    → HasClaims constants cluster req claims
    → check_secret constants cluster req ≡ pass claims
unfolding check_secret
check_secret_complete constants cluster req claims h = rw (
  h.found_secret,
  h.alive,
  found_text_present _ claims.config h.has_config h.config_present,
  found_text_present _ claims.jwks h.has_jwks h.jwks_present,
  h.is_public,
  eq_refl,
  h.has_project,
  h.has_shoot_name,
  h.has_shoot_namespace,
  split_project_complete h.named,
  eq_refl,
)

pub check_shoot_complete :
    {E : Type 0} (constants : Constants) (cluster : Cluster E) (claims : Claims)
    → HasShoot constants cluster claims
    → check_shoot constants cluster claims ≡ pass tt
unfolding check_shoot
check_shoot_complete constants cluster claims h = rw (
  h.found_project, h.owns_namespace, eq_refl, h.found_shoot, h.same_uid, eq_refl, h.managed,
  eq_refl,
)

module _ {E JsonError Key : Type 0} (jose : Jose JsonError Key) where
  check_keys_complete :
      (keys : List Key) → All (IsGoodKey jose) keys → check_keys {E = E} jose keys ≡ pass tt
  unfolding check_keys
  check_keys_complete [] h = refl
  check_keys_complete (k ∷ keys) h = ground (arith, check_keys_complete keys h.1)

  check_documents_complete :
      (claims : Claims)
      → IsVetted jose (record { config = claims.config; jwks = claims.jwks })
      → check_documents {E = E} jose claims ≡ pass tt
  unfolding check_documents
  check_documents_complete claims h =
      rw
        (
          h.reads_config,
          (has_prefix_iff h.metadata.issuer https).1 h.https_issuer,
          (has_prefix_iff h.metadata.jwks_uri https).1 h.https_jwks_uri,
          h.reads_keys,
        )
        (check_keys_complete h.keys h.good_keys)

module _ {E JsonError Key : Type 0} (constants : Constants) (jose : Jose JsonError Key) where
  check_all_complete :
      (cluster : Cluster E) (req : NamespacedName) (d : Data Bytes)
      → IsPublishable constants jose cluster req d
      → check_all constants jose cluster req ≡ pass d
  unfolding check_all
  check_all_complete cluster req d h = rw (
    check_secret_complete constants cluster req h.claims h.has_claims,
    check_shoot_complete constants cluster h.claims h.has_shoot,
    check_documents_complete jose h.claims (subst (IsVetted jose) h.same_data h.vetted_data),
    h.same_data,
  )

  -- The checks of `Reconcile` pass on the documents `d` exactly where the secret, the project, the
  -- shoot and the documents are as `IsPublishable` lists.
  pub openid_checks_iff :
      (cluster : Cluster E) (req : NamespacedName) (d : Data Bytes)
      → (check_all constants jose cluster req ≡ pass d) ↔ IsPublishable constants jose cluster req d
  openid_checks_iff cluster req d =
      ((check_all-IsPublishable constants jose cluster req).at d, check_all_complete cluster req d)
