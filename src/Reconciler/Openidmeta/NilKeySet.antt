-- ===== src/Reconciler/Openidmeta/NilKeySet.antt =====
-- The key set that is the JSON text `null`: `LoadKeySet` of internal/utils/utils.go returns a nil
-- pointer and no error, and `Reconcile` of internal/reconciler/openidmeta reads its `Keys`.
use gardener_discovery_serve.Common.{ℕ, ◌≡◌, none, Bytes, true, has_prefix}
use gardener_discovery_serve.Common.Results.{ok}
use gardener_discovery_serve.Utils.Load.{Jose, OpenIdMetadata, load_key_set, load_open_id_config}
use gardener_discovery_serve.Store.Api.{Api}
use gardener_discovery_serve.Store.Openidmeta.{Data}
use gardener_discovery_serve.Reconciler.{NamespacedName, Cluster, Constants, panicked, panic}
use gardener_discovery_serve.Reconciler.Openidmeta.{
  https, Claims, check_documents, check_all, reconcile,
}
use gardener_discovery_serve.Reconciler.Openidmeta.Publishable.{HasClaims, HasShoot}
use gardener_discovery_serve.Reconciler.Openidmeta.Decides.{
  check_secret_complete, check_shoot_complete,
}

module _ {E JsonError Key S : Type 0} (constants : Constants) (jose : Jose JsonError Key)
    (api : Api (Data Bytes) S) (resync_period : ℕ) where
  nil_key_set :
      (claims : Claims) (metadata : OpenIdMetadata)
      → load_open_id_config jose claims.config ≡ ok metadata
      → has_prefix metadata.issuer https ≡ true
      → has_prefix metadata.jwks_uri https ≡ true
      → jose.unmarshal_key_set claims.jwks ≡ ok none
      → check_documents {E = E} jose claims ≡ panic
  unfolding check_documents load_key_set
  nil_key_set claims metadata reads issuer jwks_uri nil = rw (reads, issuer, jwks_uri, nil)

  -- Where every check before it passes and the key set of the secret is read as a nil pointer, the
  -- reconciliation panics, and the store keeps what it held under the name.
  pub reconcile_nil_key_set :
      (cluster : Cluster E) (req : NamespacedName) (claims : Claims) (metadata : OpenIdMetadata)
      (s : S)
      → HasClaims constants cluster req claims
      → HasShoot constants cluster claims
      → load_open_id_config jose claims.config ≡ ok metadata
      → has_prefix metadata.issuer https ≡ true
      → has_prefix metadata.jwks_uri https ≡ true
      → jose.unmarshal_key_set claims.jwks ≡ ok none
      → reconcile constants jose api resync_period cluster req s ≡ (s, panicked)
  unfolding reconcile check_all
  reconcile_nil_key_set cluster req claims metadata s has_claims has_shoot reads issuer jwks_uri
        nil =
      rw (
        check_secret_complete constants cluster req claims has_claims,
        check_shoot_complete constants cluster claims has_shoot,
        nil_key_set claims metadata reads issuer jwks_uri nil,
      )
