-- ===== src/Tests/Published.antt =====
-- The endpoints after some reconciliations, and the events that the reconcilers see.
use gardener_discovery_serve.Common.{
  ◌≡◌, refl, Bool, true, false, some, List, [], ◌∷◌, Bytes, bytes, ◌==◌, eqb, length, Map, lookup,
  insert, remove, has_prefix, All,
}
use gardener_discovery_serve.Utils.{split_project_name_and_shoot_uid, split, is_blank}
use gardener_discovery_serve.Utils.Load.{load_key_set, load_open_id_config}
use gardener_discovery_serve.Store.Api.{map_api}
use gardener_discovery_serve.Store.Openidmeta.{Data as OpenidmetaData}
use gardener_discovery_serve.Store.Certificate.{Data as CertificateData}
use gardener_discovery_serve.Handler.{set_hsts, allow_methods, store_request}
use gardener_discovery_serve.Handler.Http.{
  Request, fresh, path_value, get_header, set_header, write_header, write_body,
}
use gardener_discovery_serve.Handler.Laws.{requested_key}
use gardener_discovery_serve.Handler.Openidmeta.{handle_open_id_configuration, handle_jwks}
use gardener_discovery_serve.Handler.Certificate.{handle_ca_bundle}
use gardener_discovery_serve.Reconciler.{NamespacedName, Cluster, Constants}
use gardener_discovery_serve.Reconciler.Openidmeta as Openidmeta
use gardener_discovery_serve.Reconciler.Openidmeta.Served as OpenidmetaServed
use gardener_discovery_serve.Reconciler.Certificate as Certificate
use gardener_discovery_serve.Reconciler.Certificate.{Reconciler, label_public, label_restriction}
use gardener_discovery_serve.Reconciler.Certificate.Served as CertificateServed
use gardener_discovery_serve.Reconciler.Certificate.Served.{AllCa, IsCaEntry, reconcile_each-AllCa}
use gardener_discovery_serve.Reconciler.Events.{
  secret_object, config_map_object, other_object, Event, updated, deleted, objects_of,
  is_relevant_secret, is_relevant_secret_update, secret_predicate, is_relevant_config_map,
  configmap_predicate,
}
use gardener_discovery_serve.Reconciler.Events.Relevant.{
  SecretUnpublishable, secret_predicate-SecretUnpublishable, ConfigMapUnpublishable,
  configmap_predicate-ConfigMapUnpublishable,
}
use gardener_discovery_serve.Server.{
  openid_handler, openid_endpoints-IsVettedEntry, ca_handler, ca_endpoint-IsCaEntry,
}
use gardener_discovery_serve.Tests.Samples.{
  constants, jose, cluster, broken_cluster, req, libraries, shrinks, secret, config_map,
}

abbrev history : List (Cluster (Unit {0}) × NamespacedName)
history = (cluster (bytes "u1") (bytes "keys"), req) ∷ (broken_cluster, req) ∷ []

abbrev get : Request
get = record {
  method = bytes "GET";
  path_values = (bytes "projectName", bytes "foo") ∷ (bytes "shootUID", bytes "u1") ∷ [];
}

-- UIDs of two bytes
abbrev short : Bytes → Bool
short uid = eqb (length uid) 2

abbrev start : Reconciler (Map (CertificateData Bytes))
start = record { once = false; store_mapping = []; store = [] }

no_bundles : AllCa libraries map_api start.store
unfolding lookup
no_bundles key d found = absurd (cc)

bundle_stored :
    lookup
      (bytes "foo--u1")
      (CertificateServed.reconcile_each map_api libraries 30 constants shrinks history start).store
    ≡ some (record { ca_bundle = 1 ∷ 1 ∷ [] })
unfolding CertificateServed.reconcile_each Certificate.reconcile Certificate.check_all
    Certificate.check_blocks lookup insert remove ◌==◌
bundle_stored = refl

reconcile_each-AllCa_example :
    IsCaEntry libraries (bytes "foo--u1") (record { ca_bundle = 1 ∷ 1 ∷ [] })
reconcile_each-AllCa_example =
    reconcile_each-AllCa map_api libraries 30 constants shrinks history start no_bundles
      (bytes "foo--u1") (record { ca_bundle = 1 ∷ 1 ∷ [] }) bundle_stored

bundle_sent :
    (handle_ca_bundle short
      (ca_handler map_api libraries 30 constants shrinks short history start)
      get
      (fresh [])).status
    ≡ some 200
unfolding handle_ca_bundle set_hsts allow_methods store_request path_value get_header set_header
    write_header write_body CertificateServed.reconcile_each Certificate.reconcile
    Certificate.check_all Certificate.check_blocks lookup insert remove ◌==◌
bundle_sent = refl

ca_endpoint-IsCaEntry_example : IsCaEntry libraries (requested_key get) (record {
  ca_bundle =
      (handle_ca_bundle short
        (ca_handler map_api libraries 30 constants shrinks short history start)
        get
        (fresh [])).body;
})
unfolding lookup
ca_endpoint-IsCaEntry_example =
    ca_endpoint-IsCaEntry map_api libraries 30 constants shrinks short history start get []
      no_bundles refl refl bundle_sent

no_documents : OpenidmetaServed.AllVetted {S = Map (OpenidmetaData Bytes)} jose map_api []
unfolding lookup
no_documents key d found = absurd (cc)

config_sent :
    (handle_open_id_configuration short
      (openid_handler constants jose map_api 30 short history [])
      get
      (fresh [])).status
    ≡ some 200
unfolding handle_open_id_configuration set_hsts allow_methods store_request path_value get_header
    set_header write_header write_body OpenidmetaServed.reconcile_each Openidmeta.reconcile
    Openidmeta.check_all Openidmeta.check_secret Openidmeta.check_shoot Openidmeta.check_documents
    load_open_id_config load_key_set lookup insert remove ◌==◌ has_prefix
    split_project_name_and_shoot_uid split is_blank
config_sent = refl

openid_endpoints-IsVettedEntry_example :
    (d : OpenidmetaData Bytes) × OpenidmetaServed.IsVettedEntry jose (requested_key get) d
    × ((handle_open_id_configuration short
          (openid_handler constants jose map_api 30 short history [])
          get
          (fresh [])).body
        ≡ d.config)
    × ((handle_jwks short
          (openid_handler constants jose map_api 30 short history [])
          get
          (fresh [])).body
        ≡ d.jwks)
unfolding lookup
openid_endpoints-IsVettedEntry_example =
    openid_endpoints-IsVettedEntry constants jose map_api 30 short history [] get [] no_documents
      refl refl config_sent

abbrev relabelled : Event
relabelled =
    updated other_object (secret_object (record (secret (bytes "keys")) { secret_labels = [] }))

unlabelled_secret : secret_predicate constants relabelled ≡ false
unfolding secret_predicate is_relevant_secret_update is_relevant_secret lookup ◌==◌
unlabelled_secret = refl

relabelled_unpublishable :
    All (SecretUnpublishable (Unit {0}) constants jose) (objects_of relabelled)
relabelled_unpublishable =
    secret_predicate-SecretUnpublishable (Unit {0}) constants jose relabelled unlabelled_secret

secret_seen :
    secret_predicate constants (updated other_object (secret_object (secret (bytes "keys")))) ≡ true
unfolding secret_predicate is_relevant_secret_update is_relevant_secret lookup ◌==◌
secret_seen = refl

-- the label of Gardener's packages
abbrev pub gardener : Constants
gardener = record constants { label_discovery_public = label_public }

unlabelled_filtered :
    configmap_predicate gardener
      (deleted (config_map_object (record (config_map (bytes "u1")) { config_labels = [] })))
    ≡ false
unfolding configmap_predicate is_relevant_config_map lookup ◌==◌
unlabelled_filtered = refl

unlabelled_unpublishable : All (ConfigMapUnpublishable gardener libraries refl refl refl) (
    objects_of
      (deleted (config_map_object (record (config_map (bytes "u1")) { config_labels = [] }))))
unlabelled_unpublishable =
    configmap_predicate-ConfigMapUnpublishable gardener libraries refl refl refl
      (deleted (config_map_object (record (config_map (bytes "u1")) { config_labels = [] })))
      unlabelled_filtered
