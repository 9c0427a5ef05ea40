-- ===== src/Tests/Bundles.antt =====
-- A config map that comes to a cluster, and a client that asks for its bundle.
use gardener_discovery_serve.Common.{
  ◌≡◌, refl, sym, ◌∙◌, inl, inr, Bool, false, Bool-cases, none, [], ◌∷◌, ◌++◌, Bytes, bytes, ◌==◌,
  eq→≡, Map, lookup, insert, remove, if◌then◌else◌,
}
use gardener_discovery_serve.Common.Results.{Result, ok, err}
use gardener_discovery_serve.Utils.Load.{load_key_set, load_open_id_config}
use gardener_discovery_serve.Store.Api.{map_api}
use gardener_discovery_serve.Store.Certificate.{Data}
use gardener_discovery_serve.Handler.{set_hsts, not_found}
use gardener_discovery_serve.Handler.Http.{fresh}
use gardener_discovery_serve.Handler.Workloadidentity.{new_handler}
use gardener_discovery_serve.Reconciler.{is_not_found, GetError, NamespacedName, ConfigMap, Cluster}
use gardener_discovery_serve.Reconciler.Certificate.{Reconciler, check_all, check_blocks, reconcile}
use gardener_discovery_serve.Reconciler.Certificate.Keeps.{IsKeyed}
use gardener_discovery_serve.Reconciler.Events.{
  config_map_object, Event, created, configmap_predicate, is_relevant_config_map,
}
use gardener_discovery_serve.Reconciler.Watch.{creates}
use gardener_discovery_serve.Reconciler.CaWatch.{
  put_config_map, new_reconciler, on_config_map_event, stale_after, Watched, starts, sees,
}
use gardener_discovery_serve.Reconciler.CaWatch.History.{IsServed, Watched-IsServed}
use gardener_discovery_serve.Metrics.{Instrumented, uncounted}
use gardener_discovery_serve.App.Mux.{ServeMux}
use gardener_discovery_serve.App.Routes.{shoot_routes, workload_routes, new_mux, serve_http}
use gardener_discovery_serve.App.Routes.Paths.{cluster_ca, path_of}
use gardener_discovery_serve.App.Routes.PublishedCa.{
  ca_handler_over, IsCaPublication, serve_http-IsCaPublication,
}
use gardener_discovery_serve.Tests.Samples.{
  jose, cluster, libraries, shrinks, config_map, namespace,
}
use gardener_discovery_serve.Tests.Published.{gardener}
use gardener_discovery_serve.Tests.Routes.{promhttp, unused, short, oid, conf, parse, moved, get}

abbrev pub ca_req : NamespacedName
ca_req = record { namespace = bytes "garden-foo"; name = bytes "bar.ca-cluster" }

abbrev pub before : Cluster (Unit {0})
before = record (cluster (bytes "u1") []) { get_config_map = λ n. err is_not_found }

abbrev pub answer : Result (GetError (Unit {0})) ConfigMap
answer = ok (config_map (bytes "u1"))

abbrev pub now : Cluster (Unit {0})
now = put_config_map ca_req answer before

abbrev arrival : Event
arrival = created (config_map_object (config_map (bytes "u1")))

-- one project, whose config maps have names of their own
abbrev IsName : NamespacedName → Type 0
IsName q = q.namespace ≡ bytes "garden-foo"

printed :
    (q r : NamespacedName) → IsName q → IsName r → libraries.key_of q ≡ libraries.key_of r → q ≡ r
printed q r hq hr h =
    let printed_name = rw (hq, hr) at h in
    let same_name : q.name ≡ r.name = cc (printed_name) in cc (hq, hr, same_name)

abbrev pub own_name : Bytes
own_name = bytes "garden-foo/bar.ca-cluster"

abbrev pub keys : Bytes → Bytes
keys m = if m == own_name then bytes "foo--u1" else 0 ∷ m

pub injective : (x y : Bytes) → keys x ≡ keys y → x ≡ y
injective x y h = elim (Bool-cases (x == own_name)) [
  | inl is_x ↦ elim (Bool-cases (y == own_name)) [
    | inl is_y ↦ eq→≡ x own_name is_x ∙ sym (eq→≡ y own_name is_y)
    | inr other ↦ let e = rw (is_x, other) at h in absurd (cc e)
  ]
  | inr not_x ↦ elim (Bool-cases (y == own_name)) [
    | inl is_y ↦ let e = rw (not_x, is_y) at h in absurd (cc e)
    | inr not_y ↦ let e = rw (not_x, not_y) at h in cc e
  ]
]

pub keyed : IsKeyed libraries gardener keys now ca_req
unfolding lookup ◌==◌
keyed b p =
    let is_namespace : p.namespace ≡ namespace = cc (p.found_namespace) in
    let has_project = rw is_namespace at (p.has_project) in
    let is_project : b.project_name ≡ bytes "foo" = cc (has_project) in
    let is_config_map : p.configmap ≡ config_map (bytes "u1") = cc (p.found_config_map) in
    let has_uid = rw is_config_map at (p.has_shoot_uid) in
    let is_uid : b.shoot_uid ≡ bytes "u1" = cc (has_uid) in rw (is_project, is_uid)

pub empty : (key : Bytes) → lookup {V = Data Bytes} key [] ≡ none
unfolding lookup
empty key = refl

abbrev reconciled : Reconciler (Map (Data Bytes))
reconciled =
    (on_config_map_event map_api libraries 30 gardener arrival now ca_req (new_reconciler [])).0

abbrev stale : Bytes → Bool
stale =
    stale_after (configmap_predicate gardener arrival)
      (on_config_map_event map_api libraries 30 gardener arrival now ca_req (new_reconciler [])).1
      own_name (λ q. false)

abbrev watched : Watched map_api libraries 30 gardener now reconciled stale
watched =
    sees arrival ca_req answer (starts before [] (λ q. refl) empty)
      (creates (config_map (bytes "u1")) refl refl)

is_current : stale own_name ≡ false
unfolding on_config_map_event configmap_predicate is_relevant_config_map reconcile check_all
    check_blocks lookup insert remove ◌==◌
is_current = refl

abbrev mux_after : ServeMux Instrumented
mux_after = record {
  patterns =
      shoot_routes promhttp short oid (ca_handler_over map_api reconciled.store)
      ++ workload_routes promhttp (record { oidc = bytes "{}"; jwks = bytes "keys" });
  root = uncounted (set_hsts not_found);
}

made_after :
    new_mux promhttp jose parse short oid (ca_handler_over map_api reconciled.store) conf
    ≡ ok mux_after
unfolding new_mux new_handler load_key_set load_open_id_config ◌==◌
made_after = refl

serve_http-IsCaPublication_example :
    IsCaPublication libraries gardener now ca_req
      (serve_http moved mux_after
        (path_of (cluster_ca (bytes "foo") (bytes "u1")))
        get
        (unused, fresh [])).1
unfolding lookup ◌==◌
serve_http-IsCaPublication_example =
    serve_http-IsCaPublication jose map_api libraries 30 gardener short oid conf promhttp parse
      moved shrinks refl refl refl IsName printed keys injective watched ca_req (bytes "foo")
      (bytes "u1") mux_after get unused [] (refl, keyed, tt) refl is_current refl made_after
      (λ e. cc) (λ e. cc) refl refl refl refl

Watched-IsServed_example : IsServed map_api libraries 30 gardener keys now ca_req reconciled.store
Watched-IsServed_example =
    Watched-IsServed map_api libraries 30 gardener shrinks refl refl refl IsName printed keys
      injective watched (refl, keyed, tt) ca_req refl is_current
