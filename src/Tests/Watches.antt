-- ===== src/Tests/Watches.antt =====
-- A secret that comes to a cluster.
use gardener_discovery_serve.Common.{
  ◌≡◌, refl, Bool, false, if◌then◌else◌, none, [], ◌∷◌, Bytes, bytes, ◌==◌, Map, lookup, insert,
  remove, has_prefix,
}
use gardener_discovery_serve.Common.Results.{Result, ok, err}
use gardener_discovery_serve.Utils.{split_project_name_and_shoot_uid, split, is_blank}
use gardener_discovery_serve.Utils.Load.{load_key_set, load_open_id_config}
use gardener_discovery_serve.Store.Api.{map_api}
use gardener_discovery_serve.Store.Openidmeta.{Data}
use gardener_discovery_serve.Reconciler.{is_not_found, GetError, Secret, Cluster, requeue_after}
use gardener_discovery_serve.Reconciler.Openidmeta.{
  check_all, check_secret, check_shoot, check_documents, reconcile,
}
use gardener_discovery_serve.Reconciler.Openidmeta.Effects.{Reflects}
use gardener_discovery_serve.Reconciler.Events.{
  secret_object, Event, created, secret_predicate, is_relevant_secret,
}
use gardener_discovery_serve.Reconciler.Watch.{
  creates, put_secret, on_event, request, clear, Watched, starts, sees,
}
use gardener_discovery_serve.Reconciler.Watch.Follows.{Watched-Reflects}
use gardener_discovery_serve.Tests.Samples.{constants, jose, cluster, secret}

abbrev pub issuers : Bytes
issuers = bytes "gardener-system-shoot-issuer"

abbrev pub at_first : Cluster (Unit {0})
at_first = record (cluster (bytes "u1") (bytes "keys")) { get_secret = λ n. err is_not_found }

abbrev pub answer : Result (GetError (Unit {0})) Secret
answer = ok (secret (bytes "keys"))

abbrev pub cluster_then : Cluster (Unit {0})
cluster_then = put_secret (request issuers (bytes "foo--u1")) answer at_first

abbrev pub arrival : Event
arrival = created (secret_object (secret (bytes "keys")))

abbrev stored : Map (Data Bytes)
stored = (bytes "foo--u1", record { config = bytes "{}"; jwks = bytes "keys" }) ∷ []

arrives :
    on_event constants jose map_api 30 arrival cluster_then (request issuers (bytes "foo--u1")) []
    ≡ (stored, requeue_after 30)
unfolding on_event secret_predicate is_relevant_secret reconcile check_all check_secret check_shoot
    check_documents load_open_id_config load_key_set lookup insert ◌==◌ has_prefix
    split_project_name_and_shoot_uid split is_blank remove
arrives = refl

nothing_stored : (key : Bytes) → lookup {V = Data Bytes} key [] ≡ none
unfolding lookup
nothing_stored key = refl

abbrev pub stale : Bytes → Bool
stale =
    if secret_predicate constants arrival then clear (bytes "foo--u1") (λ q. false) else λ q. false

pub watched :
    Watched constants jose map_api 30 issuers cluster_then
      (on_event constants jose map_api 30 arrival cluster_then
        (request issuers (bytes "foo--u1"))
        []).0
      stale
watched =
    sees arrival (bytes "foo--u1") answer 30 (starts at_first [] (λ name. refl) nothing_stored)
      (creates (secret (bytes "keys")) refl refl) (rw arrives)

pub is_current : stale (bytes "foo--u1") ≡ false
unfolding secret_predicate is_relevant_secret lookup ◌==◌
is_current = refl

Watched-Reflects_example :
    Reflects constants jose map_api 30 cluster_then
      (request issuers (bytes "foo--u1"))
      (on_event constants jose map_api 30 arrival cluster_then
        (request issuers (bytes "foo--u1"))
        []).0
Watched-Reflects_example =
    Watched-Reflects constants jose map_api 30 issuers cluster_then
      (on_event constants jose map_api 30 arrival cluster_then (request issuers (bytes "foo--u1"))
        []).0
      stale (bytes "foo--u1") watched is_current
