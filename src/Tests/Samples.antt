-- ===== src/Tests/Samples.antt =====
-- Objects of an API server and stand-ins for the libraries, for the tests of the reconcilers and of
-- the handlers.
use gardener_discovery_serve.Common.{
  ℕ, Option, none, some, [], ◌∷◌, ◌++◌, Bytes, bytes, ◌==◌, eqb, if◌then◌else◌, arith,
}
use gardener_discovery_serve.Common.Results.{ok, err}
use gardener_discovery_serve.Utils.Load.{Jose}
use gardener_discovery_serve.Reconciler.{
  is_not_found, other, NamespacedName, Secret, ConfigMap, Namespace, Project, Shoot, Cluster,
  Constants,
}
use gardener_discovery_serve.Reconciler.Certificate.{Block, Libraries, Bundle}
use gardener_discovery_serve.Reconciler.Certificate.Blocks.{Shrinks}

abbrev pub constants : Constants
constants = record {
  label_discovery_public = bytes "public";
  label_public_keys_service_account = bytes "keys";
  discovery_shoot_ca = bytes "shoot-ca";
  label_update_restriction = bytes "gardener.cloud/update-restriction";
  project_name = bytes "project";
  label_shoot_name = bytes "shoot";
  label_shoot_namespace = bytes "ns";
  shoot_uid = bytes "uid";
  annotation_authentication_issuer = bytes "issuer";
  annotation_authentication_issuer_managed = bytes "managed";
  data_key_certificate_ca = bytes "ca.crt";
}

-- Keys are numbers, and good ones are 1; the key set `null` is nil.
abbrev pub jose : Jose (Unit {0}) ℕ
jose = record {
  unmarshal_metadata =
      λ b. ok (record { issuer = bytes "https://a"; jwks_uri = bytes "https://b" });
  unmarshal_key_set = λ b. if b == bytes "null" then ok none else ok (some (1 ∷ 1 ∷ []));
  is_public = λ k. eqb k 1;
  valid = λ k. eqb k 1;
  key_id = λ k. [];
}

abbrev pub secret : Bytes → Secret
secret jwks = record {
  secret_deletion = none;
  secret_data = (bytes "openid-config", bytes "{}") ∷ (bytes "jwks", jwks) ∷ [];
  secret_labels =
      (bytes "public", bytes "keys")
      ∷ (bytes "project", bytes "foo")
      ∷ (bytes "shoot", bytes "bar")
      ∷ (bytes "ns", bytes "garden-foo")
      ∷ [];
}

abbrev pub config_map : Bytes → ConfigMap
config_map uid = record {
  config_deletion = none;
  config_data = (bytes "ca.crt", 1 ∷ 1 ∷ []) ∷ [];
  config_labels =
      (bytes "discovery.gardener.cloud/public", bytes "shoot-ca")
      ∷ (bytes "gardener.cloud/update-restriction", bytes "true")
      ∷ (bytes "shoot", bytes "bar")
      ∷ (bytes "uid", uid)
      ∷ [];
}

abbrev pub namespace : Namespace
namespace = record {
  namespace_name = bytes "garden-foo";
  namespace_labels = (bytes "project", bytes "foo") ∷ [];
}

abbrev pub project : Project
project = record { spec_namespace = some (bytes "garden-foo") }

abbrev pub shoot : Bytes → Shoot
shoot uid = record { uid = uid; annotations = (bytes "issuer", bytes "managed") ∷ [] }

-- A cluster with one shoot.
abbrev pub cluster : Bytes → Bytes → Cluster (Unit {0})
cluster uid jwks = record {
  get_secret = λ n. ok (secret jwks);
  get_config_map = λ n. ok (config_map uid);
  get_namespace = λ n. ok namespace;
  get_project = λ n. ok project;
  get_shoot = λ n. ok (shoot uid);
}

-- A cluster without the secret and the config map, and one that cannot be asked.
abbrev pub empty_cluster : Cluster (Unit {0})
empty_cluster = record (cluster [] []) {
  get_secret = λ n. err is_not_found;
  get_config_map = λ n. err is_not_found;
}

abbrev pub broken_cluster : Cluster (Unit {0})
broken_cluster = record (cluster [] []) { get_secret = λ n. err (other tt) }

abbrev pub req : NamespacedName
req = record { namespace = bytes "garden-foo"; name = bytes "foo--u1" }

-- A block for each byte, of a CA's certificate where the byte is 1.
abbrev decode : Bytes → Option (Block × Bytes)
decode [] = none
decode (c ∷ rest) =
    some (record { block_type = bytes "CERTIFICATE"; headers = []; block_bytes = c ∷ [] }, rest)

abbrev pub libraries : Libraries (Unit {0})
libraries = record {
  decode = decode;
  parse_certificate = λ b. ok (b == (1 ∷ []));
  marshal = λ b. ok b;
  key_of = λ n. n.namespace ++ bytes "/" ++ n.name;
}

pub shrinks : Shrinks libraries
shrinks [] block rest e = absurd (cc)
shrinks (c ∷ certs) block rest e = ground arith

abbrev pub bundle : Bytes → Bundle
bundle uid = record { project_name = bytes "foo"; shoot_uid = uid; certs = 1 ∷ 1 ∷ [] }
