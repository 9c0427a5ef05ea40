-- ===== src/Reconciler/Openidmeta/Publishable.antt =====
-- When the reconciler of internal/reconciler/openidmeta publishes a secret's data, said without its
-- control flow.
use mathlib.Core.Bool.{and-eq-true_iff}
use gardener_discovery_serve.Common.{
  ◌≡◌, ◌≢◌, refl, sym, ap, ◌∙◌, true, ◌&&◌, Option, none, some, List, [], ◌∷◌, ◌++◌, Bytes, ◌==◌,
  eq→≡, has_prefix, has_prefix_iff, lookup, All, arith,
}
use gardener_discovery_serve.Common.Results.{ok}
use gardener_discovery_serve.Utils.{split_project_name_and_shoot_uid}
use gardener_discovery_serve.Utils.Split.{IsKeyOf, split_project_sound}
use gardener_discovery_serve.Utils.Load.{Jose, OpenIdMetadata, load_key_set, load_open_id_config}
use gardener_discovery_serve.Store.Openidmeta.{Data}
use gardener_discovery_serve.Reconciler.{
  NamespacedName, Secret, Project, Shoot, Cluster, Constants, pass,
}
use gardener_discovery_serve.Reconciler.Checks.{
  is_unset, is_unset-eq-true, is_value-eq-true, require-eq-pass, Ensures, Ensures-require,
  Ensures-found, Ensures-found_text, Ensures-got, Ensures-loaded, Ensures-pass, Ensures-bind,
}
use gardener_discovery_serve.Reconciler.Openidmeta.{
  openid_config_key, jwks_key, https, Claims, check_secret, check_shoot, check_keys, check_key_set,
  check_documents, check_all,
}

module _ {JsonError Key : Type 0} (jose : Jose JsonError Key) where
  abbrev pub IsGoodKey : Key → Type 0
  IsGoodKey k = (jose.is_public k ≡ true) × (jose.valid k ≡ true)

  -- The documents can be read, name https addresses, and hold public and valid keys only.
  pub record IsVetted (d : Data Bytes) : Type 0 where
    pub metadata : OpenIdMetadata
    pub keys : List Key
    pub reads_config : load_open_id_config jose d.config ≡ ok metadata
    pub https_issuer : (rest : Bytes) × (metadata.issuer ≡ https ++ rest)
    pub https_jwks_uri : (rest : Bytes) × (metadata.jwks_uri ≡ https ++ rest)
    pub reads_keys : load_key_set jose d.jwks ≡ ok (some keys)
    pub good_keys : All IsGoodKey keys

module _ {E JsonError Key : Type 0} (jose : Jose JsonError Key) where
  check_keys-All :
      (keys : List Key) (u : Unit {0})
      → check_keys {E = E} jose keys ≡ pass u
      → All (IsGoodKey jose) keys
  unfolding check_keys
  check_keys-All [] u h = tt
  check_keys-All (k ∷ keys) u h = ground (arith, check_keys-All keys u)

  vetted :
      (d : Data Bytes) (metadata : OpenIdMetadata) (key_set : Option (List Key)) (u : Unit {0})
      → load_open_id_config jose d.config ≡ ok metadata
      → has_prefix metadata.issuer https && has_prefix metadata.jwks_uri https ≡ true
      → load_key_set jose d.jwks ≡ ok key_set
      → check_key_set {E = E} jose key_set ≡ pass u
      → IsVetted jose d
  vetted d metadata none u read both keys h = absurd (cc)
  vetted d metadata (some l) u read both keys h =
      let (issuer, jwks_uri) = (and-eq-true_iff _ _).0 both in
      record {
        metadata = metadata;
        keys = l;
        reads_config = read;
        https_issuer = (has_prefix_iff metadata.issuer https).0 issuer;
        https_jwks_uri = (has_prefix_iff metadata.jwks_uri https).0 jwks_uri;
        reads_keys = keys;
        good_keys = check_keys-All l u h;
      }

  check_documents-IsVetted :
      (claims : Claims)
      → Ensures {E = E}
          (check_documents jose claims)
          (λ _. IsVetted jose (record { config = claims.config; jwks = claims.jwks }))
  unfolding check_documents
  check_documents-IsVetted claims =
      Ensures-loaded (load_open_id_config jose claims.config) _ λ metadata reads_config.
        Ensures-require (has_prefix metadata.issuer https && has_prefix metadata.jwks_uri https) _
          λ both. Ensures-loaded (load_key_set jose claims.jwks) _ λ key_set reads_keys. record {
            at = λ u h.
                vetted (record { config = claims.config; jwks = claims.jwks }) metadata key_set u
                  reads_config both reads_keys h;
          }

module _ {E : Type 0} (constants : Constants) where
  -- The secret that the request names lives, is labelled for publication, and claims these documents
  -- and this shoot; its name is `projectName--shootUID` for the project of its label.
  pub record HasClaims (cluster : Cluster E) (req : NamespacedName) (claims : Claims) : Type 0 where
    pub secret : Secret
    pub found_secret : cluster.get_secret req ≡ ok secret
    pub alive : secret.secret_deletion ≡ none
    pub has_config : lookup openid_config_key secret.secret_data ≡ some claims.config
    pub config_present : claims.config ≢ []
    pub has_jwks : lookup jwks_key secret.secret_data ≡ some claims.jwks
    pub jwks_present : claims.jwks ≢ []
    pub is_public :
        lookup constants.label_discovery_public secret.secret_labels
        ≡ some constants.label_public_keys_service_account
    pub has_project : lookup constants.project_name secret.secret_labels ≡ some claims.project
    pub has_shoot_name :
        lookup constants.label_shoot_name secret.secret_labels ≡ some claims.shoot.name
    pub has_shoot_namespace :
        lookup constants.label_shoot_namespace secret.secret_labels ≡ some claims.shoot.namespace
    pub named : IsKeyOf claims.project claims.shoot_uid req.name

  check_secret-HasClaims :
      (cluster : Cluster E) (req : NamespacedName)
      → Ensures (check_secret constants cluster req) (HasClaims cluster req)
  unfolding check_secret
  check_secret-HasClaims cluster req = Ensures-got (cluster.get_secret req) _ λ secret found_secret.
      Ensures-require (is_unset secret.secret_deletion) _ λ unset.
        Ensures-found_text (lookup openid_config_key secret.secret_data) _
          λ config has_config config_there.
            Ensures-found_text (lookup jwks_key secret.secret_data) _ λ jwks has_jwks jwks_there.
              Ensures-require _ _ λ public.
                Ensures-found (lookup constants.project_name secret.secret_labels) _
                  λ project has_project.
                    Ensures-found (lookup constants.label_shoot_name secret.secret_labels) _
                      λ name has_name.
                        Ensures-found (lookup constants.label_shoot_namespace secret.secret_labels)
                          _
                          λ ns has_ns.
                            Ensures-loaded (split_project_name_and_shoot_uid req.name) _
                              λ parts split_ok. Ensures-require (project == parts.0) _ λ same.
                                Ensures-pass _ (record {
                                  secret = secret;
                                  found_secret = found_secret;
                                  alive = is_unset-eq-true _ unset;
                                  has_config = has_config;
                                  config_present = config_there;
                                  has_jwks = has_jwks;
                                  jwks_present = jwks_there;
                                  is_public = is_value-eq-true _ _ public;
                                  has_project = has_project;
                                  has_shoot_name = has_name;
                                  has_shoot_namespace = has_ns;
                                  named =
                                      rw (eq→≡ project parts.0 same)
                                        (split_project_sound req.name parts.0 parts.1 split_ok);
                                })

  -- The project and the shoot that the claims name exist, the project owns the namespace, the UID is
  -- the shoot's, and the shoot has a managed issuer.
  pub record HasShoot (cluster : Cluster E) (claims : Claims) : Type 0 where
    pub project : Project
    pub shoot : Shoot
    pub found_project : cluster.get_project claims.project ≡ ok project
    pub owns_namespace : project.spec_namespace ≡ some claims.shoot.namespace
    pub found_shoot : cluster.get_shoot claims.shoot ≡ ok shoot
    pub same_uid : shoot.uid ≡ claims.shoot_uid
    pub managed :
        lookup constants.annotation_authentication_issuer shoot.annotations
        ≡ some constants.annotation_authentication_issuer_managed

  check_shoot-HasShoot :
      (cluster : Cluster E) (claims : Claims)
      → Ensures (check_shoot constants cluster claims) (λ _. HasShoot cluster claims)
  unfolding check_shoot
  check_shoot-HasShoot cluster claims =
      Ensures-got (cluster.get_project claims.project) _ λ project found_project.
        Ensures-found project.spec_namespace _ λ namespace has_namespace.
          Ensures-require (claims.shoot.namespace == namespace) _ λ owns.
            Ensures-got (cluster.get_shoot claims.shoot) _ λ shoot found_shoot.
              Ensures-require (claims.shoot_uid == shoot.uid) _ λ same. record {
                at = λ u managed. record {
                  project = project;
                  shoot = shoot;
                  found_project = found_project;
                  owns_namespace = has_namespace ∙ ap some (sym (eq→≡ _ _ owns));
                  found_shoot = found_shoot;
                  same_uid = sym (eq→≡ _ _ same);
                  managed = is_value-eq-true _ _ (require-eq-pass _ u managed);
                };
              }

module _ {E JsonError Key : Type 0} (constants : Constants) (jose : Jose JsonError Key) where
  -- What has to hold for the data to be published under the request's name.
  pub record IsPublishable (cluster : Cluster E) (req : NamespacedName) (d : Data Bytes)
      : Type 0 where
    pub claims : Claims
    pub same_data : d ≡ record { config = claims.config; jwks = claims.jwks }
    pub has_claims : HasClaims constants cluster req claims
    pub has_shoot : HasShoot constants cluster claims
    pub vetted_data : IsVetted jose d

  pub check_all-IsPublishable :
      (cluster : Cluster E) (req : NamespacedName)
      → Ensures (check_all constants jose cluster req) (IsPublishable cluster req)
  unfolding check_all
  check_all-IsPublishable cluster req =
      Ensures-bind (check_secret constants cluster req) _ λ claims e1.
        Ensures-bind (check_shoot constants cluster claims) _ λ u e2.
          Ensures-bind (check_documents jose claims) _ λ u' e3. Ensures-pass _ (record {
            claims = claims;
            same_data = refl;
            has_claims = (check_secret-HasClaims constants cluster req).at claims e1;
            has_shoot = (check_shoot-HasShoot constants cluster claims).at u e2;
            vetted_data = (check_documents-IsVetted jose claims).at u' e3;
          })
