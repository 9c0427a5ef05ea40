-- ===== src/Reconciler/Openidmeta.antt =====
-- internal/reconciler/openidmeta: the reconciler that publishes the openid configuration and the
-- key set of a shoot, out of the secret that holds them.
pub mod Publishable
pub mod Decides
pub mod Effects
pub mod Served
pub mod NilKeySet
use gardener_discovery_serve.Common.{
  ℕ, Bool, true, false, not, ◌&&◌, Option, none, some, List, [], ◌∷◌, Bytes, bytes, ◌==◌,
  has_prefix, lookup, if◌then◌else◌,
}
use gardener_discovery_serve.Common.Results.{Result, ok, err}
use gardener_discovery_serve.Utils.{split_project_name_and_shoot_uid}
use gardener_discovery_serve.Utils.Load.{Jose, OpenIdMetadata, load_key_set, load_open_id_config}
use gardener_discovery_serve.Store.Api.{Api}
use gardener_discovery_serve.Store.Openidmeta.{Data}
use gardener_discovery_serve.Reconciler.{
  NamespacedName, Secret, Project, Shoot, Cluster, Constants, Outcome, requeue_after, failed,
  panicked, Check, pass, drop, abort, panic, ◌>>=◌, ◌>>◌,
}
use gardener_discovery_serve.Reconciler.Checks.{
  require, found, found_text, got, loaded, is_unset, is_value,
}

abbrev pub openid_config_key : Bytes
openid_config_key = bytes "openid-config"

abbrev pub jwks_key : Bytes
jwks_key = bytes "jwks"

abbrev pub https : Bytes
https = bytes "https://"

-- What a secret says of the shoot that it belongs to.
pub record Claims : Type 0 where
  pub config : Bytes
  pub jwks : Bytes
  pub project : Bytes
  pub shoot : NamespacedName
  pub shoot_uid : Bytes

module _ {E JsonError Key : Type 0} (jose : Jose JsonError Key) where
  -- the loop over the keys
  unfoldable pub check_keys : List Key → Check E (Unit {0})
  check_keys [] = pass tt
  check_keys (k ∷ keys) =
      if not (jose.is_public k) then drop else if not (jose.valid k) then drop else check_keys keys

  -- `range keySet.Keys` through a nil pointer
  abbrev check_key_set : Option (List Key) → Check E (Unit {0})
  check_key_set none = panic
  check_key_set (some keys) = check_keys keys

  -- The part that reads the two documents.
  unfoldable pub check_documents : Claims → Check E (Unit {0})
  unfolding check_keys
  check_documents claims = do
    metadata ← loaded (load_open_id_config jose claims.config)
    require (has_prefix metadata.issuer https && has_prefix metadata.jwks_uri https)
    key_set ← loaded (load_key_set jose claims.jwks)
    check_key_set key_set

module _ {E : Type 0} (constants : Constants) where
  -- The part of `Reconcile` that reads the secret and its name.
  unfoldable pub check_secret : Cluster E → NamespacedName → Check E Claims
  check_secret cluster req = do
    secret ← got (cluster.get_secret req)
    require (is_unset secret.secret_deletion)
    config ← found_text (lookup openid_config_key secret.secret_data)
    jwks ← found_text (lookup jwks_key secret.secret_data)
    require (
        is_value (lookup constants.label_discovery_public secret.secret_labels)
          constants.label_public_keys_service_account)
    project ← found (lookup constants.project_name secret.secret_labels)
    shoot_name ← found (lookup constants.label_shoot_name secret.secret_labels)
    shoot_namespace ← found (lookup constants.label_shoot_namespace secret.secret_labels)
    parts ← loaded (split_project_name_and_shoot_uid req.name)
    require (project == parts.0)
    pass (record {
      config = config;
      jwks = jwks;
      project = project;
      shoot = record { namespace = shoot_namespace; name = shoot_name };
      shoot_uid = parts.1;
    })

  -- The part that compares the claims with the project and the shoot.
  unfoldable pub check_shoot : Cluster E → Claims → Check E (Unit {0})
  check_shoot cluster claims = do
    project ← got (cluster.get_project claims.project)
    namespace ← found project.spec_namespace
    require (claims.shoot.namespace == namespace)
    shoot ← got (cluster.get_shoot claims.shoot)
    require (claims.shoot_uid == shoot.uid)
    require (
        is_value (lookup constants.annotation_authentication_issuer shoot.annotations)
          constants.annotation_authentication_issuer_managed)

module _ {E JsonError Key : Type 0} (constants : Constants) (jose : Jose JsonError Key) where
  unfoldable pub check_all : Cluster E → NamespacedName → Check E (Data Bytes)
  check_all cluster req = do
    claims ← check_secret constants cluster req
    check_shoot constants cluster claims
    check_documents jose claims
    pass (record { config = claims.config; jwks = claims.jwks })

  module _ {S : Type 0} (api : Api (Data Bytes) S) (resync_period : ℕ) where
    -- what each end of the checks does to the store and returns
    abbrev settle : Bytes → Check E (Data Bytes) → S → S × Outcome E
    settle name (pass d) s = (api.write name d s, requeue_after resync_period)
    settle name drop s = (api.delete name s, requeue_after 0)
    settle name (abort e) s = (s, failed e)
    settle name panic s = (s, panicked)

    unfoldable pub reconcile : Cluster E → NamespacedName → S → S × Outcome E
    reconcile cluster req s = settle req.name (check_all cluster req) s
