-- ===== src/Reconciler/Certificate.antt =====
-- internal/reconciler/certificate: the reconciler that publishes the CA bundle of a shoot, out of
-- the config map that holds it, and keeps which config map stands behind which entry.
pub mod Blocks
pub mod Publishable
pub mod Mapping
pub mod Tracked
pub mod Keeps
pub mod Own
pub mod Served
pub mod Effects
use gardener_discovery_serve.Common.{
  ℕ, zero, suc, Bool, true, false, not, ◌&&◌, ◌||◌, Option, none, some, List, [], ◌∷◌, ◌++◌, Bytes,
  bytes, ◌==◌, leb, length, Map, lookup, insert, remove, if◌then◌else◌,
}
use gardener_discovery_serve.Common.Results.{Result, ok, err}
use gardener_discovery_serve.Store.Api.{Api}
use gardener_discovery_serve.Store.Certificate.{Data}
use gardener_discovery_serve.Reconciler.{
  NamespacedName, ConfigMap, Namespace, Project, Shoot, Cluster, Constants, Outcome, requeue_after,
  failed, panicked, Check, pass, drop, abort, panic, ◌>>=◌, ◌>>◌,
}
use gardener_discovery_serve.Reconciler.Checks.{require, found, found_text, got, loaded, is_unset}

-- What the code reads of a `*pem.Block` and of a `*x509.Certificate`.
pub record Block : Type 0 where
  pub block_type : Bytes
  pub headers : Map Bytes
  pub block_bytes : Bytes

-- encoding/pem, crypto/x509, encoding/json and `types.NamespacedName`: `decode` finds the first
-- block and the rest of the input, `parse_certificate` gives the certificate's `IsCA`, `marshal` is
-- `json.Marshal` of the bundle, and `key_of` is `req.String()`.
pub record Libraries (E : Type 0) : Type 0 where
  pub decode : Bytes → Option (Block × Bytes)
  pub parse_certificate : Bytes → Result E Bool
  pub marshal : Bytes → Result E Bytes
  pub key_of : NamespacedName → Bytes

abbrev pub or_empty : Option Bytes → Bytes
or_empty none = []
or_empty (some v) = v

abbrev pub block_type_certificate : Bytes
block_type_certificate = bytes "CERTIFICATE"

abbrev pub label_public : Bytes
label_public = bytes "discovery.gardener.cloud/public"

abbrev pub label_restriction : Bytes
label_restriction = bytes "gardener.cloud/update-restriction"

-- What the checks pass on: the entry's key is `project--shootUID`.
pub record Bundle : Type 0 where
  pub project_name : Bytes
  pub shoot_uid : Bytes
  pub certs : Bytes

abbrev pub data_key : Bundle → Bytes
data_key b = b.project_name ++ bytes "--" ++ b.shoot_uid

module _ {E : Type 0} (libraries : Libraries E) where
  -- the body of the loop for one block
  unfoldable pub check_block : Block → Check E (Unit {0})
  check_block block = do
    require (block.block_type == block_type_certificate)
    require (leb (length block.headers) 0)
    is_ca ← loaded (libraries.parse_certificate block.block_bytes)
    require is_ca

  -- The loop over the blocks, with fuel; `none` means that the fuel ran out.
  unfoldable pub check_blocks : ℕ → Bytes → Option (Check E (Unit {0}))
  unfolding check_block
  check_blocks zero certs = none
  check_blocks (suc fuel) certs = elim (libraries.decode certs) [
    | none ↦ some (pass tt)
    | some (block, rest) ↦ elim (check_block block) [
      | pass u ↦ check_blocks fuel rest
      | drop ↦ some drop
      | abort e ↦ some (abort e)
      | panic ↦ some panic
    ]
  ]

  -- `Blocks` shows that the fuel does not run out.
  abbrev or_panic : Option (Check E (Unit {0})) → Check E (Unit {0})
  or_panic none = panic
  or_panic (some c) = c

  abbrev pub check_certs : Bytes → Check E (Unit {0})
  check_certs certs = or_panic (check_blocks (suc (length certs)) certs)

  unfoldable pub check_all : Constants → Cluster E → NamespacedName → Check E Bundle
  check_all constants cluster req = do
    configmap ← got (cluster.get_config_map req)
    require (is_unset configmap.config_deletion)
    certs ← found_text (lookup constants.data_key_certificate_ca configmap.config_data)
    require (
        not (
          not (or_empty (lookup label_public configmap.config_labels) == bytes "shoot-ca")
          || not (or_empty (lookup label_restriction configmap.config_labels) == bytes "true")))
    namespace ← got (cluster.get_namespace req.namespace)
    project_name ← found (lookup constants.project_name namespace.namespace_labels)
    project ← got (cluster.get_project project_name)
    spec_namespace ← found project.spec_namespace
    require (spec_namespace == namespace.namespace_name)
    shoot_name ← found (lookup constants.label_shoot_name configmap.config_labels)
    shoot_uid ← found (lookup constants.shoot_uid configmap.config_labels)
    shoot ← got (cluster.get_shoot (record { namespace = req.namespace; name = shoot_name }))
    require (shoot_uid == shoot.uid)
    check_certs certs
    pass (record { project_name = project_name; shoot_uid = shoot_uid; certs = certs })

-- The reconciler's fields, and the store that it writes to; `once` tells that `init` has run.
pub record Reconciler (S : Type 0) : Type 0 where
  pub once : Bool
  pub store_mapping : Map Bytes
  pub store : S

-- `init`
unfoldable pub init_mapping : {S : Type 0} → Reconciler S → Reconciler S
init_mapping r = if r.once then r else record r { once = true; store_mapping = [] }

module _ {S : Type 0} (api : Api (Data Bytes) S) where
  unfoldable pub create_mapping : Bytes → Bytes → Bytes → Reconciler S → Reconciler S
  create_mapping map_key key payload r = record r {
    store_mapping = insert map_key key r.store_mapping;
    store = api.write key (record { ca_bundle = payload }) r.store;
  }

  -- A key that is not mapped reads as the empty key.
  unfoldable pub delete_mapping : Bytes → Reconciler S → Reconciler S
  delete_mapping key r = record r {
    store_mapping = remove key r.store_mapping;
    store = api.delete (or_empty (lookup key r.store_mapping)) r.store;
  }

  module _ {E : Type 0} (libraries : Libraries E) (resync_period : ℕ) where
    -- `json.Marshal` and what follows it
    abbrev publish : Bytes → Bundle → Result E Bytes → Reconciler S → Reconciler S × Outcome E
    publish map_key b (ok payload) r =
        (create_mapping map_key (data_key b) payload r, requeue_after resync_period)
    publish map_key b (err e) r = (delete_mapping map_key r, failed e)

    abbrev settle : Bytes → Check E Bundle → Reconciler S → Reconciler S × Outcome E
    settle map_key (pass b) r = publish map_key b (libraries.marshal b.certs) r
    settle map_key drop r = (delete_mapping map_key r, requeue_after 0)
    settle map_key (abort e) r = (r, failed e)
    settle map_key panic r = (r, panicked)

    unfoldable pub reconcile :
        Constants → Cluster E → NamespacedName → Reconciler S → Reconciler S × Outcome E
    unfolding create_mapping delete_mapping init_mapping
    reconcile constants cluster req r =
        settle (libraries.key_of req) (check_all libraries constants cluster req) (init_mapping r)
