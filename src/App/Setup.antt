-- ===== src/App/Setup.antt =====
-- cmd/discovery-server/app/app.go: `run` up to the start of its goroutines, and `SetupWithManager` of
-- internal/reconciler/openidmeta/add.go and internal/reconciler/certificate/add.go, which it calls.
-- Logging is left out but for the certificate, and so is the scheme of the API client.
pub mod Started
use gardener_discovery_serve.Common.{
  ℕ, Bool, true, false, Option, none, some, List, [], ◌∷◌, Bytes, bytes,
}
use gardener_discovery_serve.Common.Results.{Result, ok, err, ◌>>=◌, wrap}
use gardener_discovery_serve.Utils.Load.{Jose}
use gardener_discovery_serve.Options.{ℤ, Config, join_host_port}
use gardener_discovery_serve.Handler.Openidmeta.{OpenidmetaHandler}
use gardener_discovery_serve.Handler.Certificate.{CertificateHandler}
use gardener_discovery_serve.Handler.Workloadidentity.{Url, NewError}
use gardener_discovery_serve.Reconciler.{Constants}
use gardener_discovery_serve.Reconciler.Events.{Event, secret_predicate, configmap_predicate}
use gardener_discovery_serve.Metrics.{Instrumented, Promhttp}
use gardener_discovery_serve.Dynamiccert.{
  with_name, DynamicCertificate, Loader, with_refresh_interval, with_logger,
  new_dynamic_certificate,
}
use gardener_discovery_serve.App.{CipherSuite, get_cipher_suite_ids}
use gardener_discovery_serve.App.Mux.{ServeMux}
use gardener_discovery_serve.App.Routes.{new_mux}

-- `ctrl.Options`, what the code sets of it; durations are in nanoseconds
pub record ManagerOptions : Type 0 where
  pub metrics_bind_address : Bytes
  pub graceful_shutdown_timeout : ℕ
  pub leader_election : Bool
  pub pprof_bind_address : Bytes
  pub health_probe_bind_address : Bytes
  pub secret_namespaces : List Bytes
  pub recover_panic : Bool

abbrev pub manager_options : ManagerOptions
manager_options = record {
  metrics_bind_address = join_host_port [] (bytes "8080");
  graceful_shutdown_timeout = 10000000000;
  leader_election = false;
  pprof_bind_address = [];
  health_probe_bind_address = join_host_port [] (bytes "8081");
  secret_namespaces = bytes "gardener-system-shoot-issuer" ∷ [];
  recover_panic = true;
}

pub data Kind : Type 0 where
  secret_kind : Kind
  config_map_kind : Kind

-- What the builder of controller-runtime is given: the kind of the objects, the predicate, and the
-- options; the delays of the rate limiter are in nanoseconds.
pub record ControllerOptions : Type 0 where
  pub controller_name : Bytes
  pub for_kind : Kind
  pub predicate : Event → Bool
  pub max_concurrent_reconciles : ℕ
  pub base_delay : ℕ
  pub max_delay : ℕ
  pub requests_per_second : ℕ
  pub burst : ℕ
  pub reconciliation_timeout : ℕ

-- The package controller-runtime, with the two health checks of the application.
pub record Runtime (E Rest Manager Client : Type 0) : Type 0 where
  pub get_config : Result E Rest
  pub new_manager : Rest → ManagerOptions → Result E Manager
  pub add_healthz_check : Bytes → Manager → Result E Manager
  pub add_readyz_check : Bytes → Manager → Result E Manager
  pub get_client : Manager → Client
  pub complete : ControllerOptions → Client → ℤ → Manager → Result E Manager
  pub default_reconciliation_timeout : ℕ

-- The fields of both reconcilers that `run` leaves unset or sets; the store is the handlers'.
pub record Unready (Client : Type 0) : Type 0 where
  pub client : Option Client
  pub resync_period : ℤ

-- `if r.Client == nil { r.Client = mgr.GetClient() }`
abbrev pub client_or : {Client : Type 0} → Client → Option Client → Client
client_or c none = c
client_or c (some client) = client

module _ {E Rest Manager Client : Type 0} (runtime : Runtime E Rest Manager Client)
    (constants : Constants) where
  abbrev pub openid_controller : ControllerOptions
  openid_controller = record {
    controller_name = bytes "shoot-openid-metadata";
    for_kind = secret_kind;
    predicate = secret_predicate constants;
    max_concurrent_reconciles = 50;
    base_delay = 5000000000;
    max_delay = 120000000000;
    requests_per_second = 10;
    burst = 100;
    reconciliation_timeout = runtime.default_reconciliation_timeout;
  }

  abbrev pub ca_controller : ControllerOptions
  ca_controller = record {
    controller_name = bytes "shoot-ca";
    for_kind = config_map_kind;
    predicate = configmap_predicate constants;
    max_concurrent_reconciles = 50;
    base_delay = 5000000000;
    max_delay = 120000000000;
    requests_per_second = 10;
    burst = 100;
    reconciliation_timeout = runtime.default_reconciliation_timeout;
  }

  -- `SetupWithManager` of the reconciler of the secrets
  unfoldable pub setup_openid_with_manager : Unready Client → Manager → Result E Manager
  setup_openid_with_manager r mgr =
      runtime.complete openid_controller (client_or (runtime.get_client mgr) r.client)
        r.resync_period mgr

  -- `SetupWithManager` of the reconciler of the config maps
  unfoldable pub setup_ca_with_manager : Unready Client → Manager → Result E Manager
  setup_ca_with_manager r mgr =
      runtime.complete ca_controller (client_or (runtime.get_client mgr) r.client) r.resync_period
        mgr

-- `http.Server`, what the code sets of it
pub record HttpServer (Cert Sink : Type 0) : Type 0 where
  pub addr : Bytes
  pub handler : ServeMux Instrumented
  pub certificate : DynamicCertificate Cert Sink
  pub min_version : ℕ
  pub cipher_suites : List ℕ
  pub read_timeout : ℕ
  pub write_timeout : ℕ

-- `tls.VersionTLS12`
abbrev pub version_tls12 : ℕ
version_tls12 = 0x0303

pub data RunError (E N L : Type 0) : Type 0 where
  no_config : E → RunError E N L
  no_manager : E → RunError E N L
  no_health_check : E → RunError E N L
  no_openid_controller : E → RunError E N L
  no_ca_controller : E → RunError E N L
  no_workload_handler : N → RunError E N L
  no_certificate : L → RunError E N L

module _ {E Rest Manager Client JsonError UrlError Key L Cert Sink : Type 0}
    (runtime : Runtime E Rest Manager Client) (constants : Constants) (promhttp : Promhttp)
    (jose : Jose JsonError Key) (parse : Bytes → Result UrlError Url) (valid_uuid : Bytes → Bool)
    (load : Loader L Cert) (log : Sink) (suites : List CipherSuite) (oid : OpenidmetaHandler)
    (ca : CertificateHandler) where
  -- The manager and the server that `run` goes on with. The two handlers read the stores that the two
  -- reconcilers write.
  unfoldable pub setup :
      Config → Result (RunError E (NewError JsonError UrlError) L) (Manager × HttpServer Cert Sink)
  setup conf = do
    cfg ← wrap no_config runtime.get_config
    mgr ← wrap no_manager (runtime.new_manager cfg manager_options)
    alive ← wrap no_health_check (runtime.add_healthz_check (bytes "ping") mgr)
    ready ← wrap no_health_check (runtime.add_readyz_check (bytes "informer-sync") alive)
    let unready : Unready Client = record {
      client = none;
      resync_period = conf.resync.resync_duration;
    }
    with_openid ←
        wrap no_openid_controller (setup_openid_with_manager runtime constants unready ready)
    with_ca ← wrap no_ca_controller (setup_ca_with_manager runtime constants unready with_openid)
    mux ←
        wrap no_workload_handler
          (new_mux promhttp jose parse valid_uuid oid ca conf.workload_identity)
    cert ← wrap no_certificate (
        new_dynamic_certificate load conf.serving.cert_file conf.serving.key_file (
          with_logger (with_name (bytes "dynamic-cert") log)
          ∷ with_refresh_interval 300000000000
          ∷ []))
    ok (
      with_ca,
      record {
        addr = conf.serving.listen_address;
        handler = mux;
        certificate = cert;
        min_version = version_tls12;
        cipher_suites = get_cipher_suite_ids suites;
        read_timeout = 10000000000;
        write_timeout = 10000000000;
      },
    )
