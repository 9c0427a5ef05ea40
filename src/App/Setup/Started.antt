-- ===== src/App/Setup/Started.antt =====
-- What the command of cmd/discovery-server/app/app.go has made when it starts to serve.
use gardener_discovery_serve.Common.{
  ℕ, ◌≡◌, refl, Bool, true, false, Option, some, List, Bytes, bytes, arith,
}
use gardener_discovery_serve.Common.Results.{Result, ok, Ensures, Ensures-wrap, Ensures-ok}
use gardener_discovery_serve.Utils.Load.{Jose}
use gardener_discovery_serve.Options.{Config}
use gardener_discovery_serve.Options.Flags.{Pflag}
use gardener_discovery_serve.Handler.Openidmeta.{OpenidmetaHandler}
use gardener_discovery_serve.Handler.Certificate.{CertificateHandler}
use gardener_discovery_serve.Handler.Workloadidentity.{Url, NewError}
use gardener_discovery_serve.Reconciler.{Constants}
use gardener_discovery_serve.Metrics.{Promhttp}
use gardener_discovery_serve.Dynamiccert.{with_name, Loader}
use gardener_discovery_serve.Dynamiccert.First.{IsLoaded, new_dynamic_certificate-IsLoaded}
use gardener_discovery_serve.App.{CipherSuite, contains, ciphers_to_remove, get_cipher_suite_ids}
use gardener_discovery_serve.App.Ciphers.{contains-get_cipher_suite_ids}
use gardener_discovery_serve.App.Routes.{new_mux}
use gardener_discovery_serve.App.Command.{CommandError, Cobra, execute}
use gardener_discovery_serve.App.Command.Configured.{IsRun, execute-IsRun}
use gardener_discovery_serve.App.Setup.{
  Runtime, RunError, HttpServer, no_config, no_manager, no_health_check, no_openid_controller,
  no_ca_controller, no_workload_handler, no_certificate, openid_controller, ca_controller,
  manager_options, setup_openid_with_manager, setup_ca_with_manager, setup,
}

-- No suite of the four with CBC and SHA-1 over ECDHE.
abbrev pub IsStrong : List ℕ → Type 0
IsStrong ids = (x : ℕ) → contains ciphers_to_remove x ≡ true → contains ids x ≡ false

get_cipher_suite_ids-IsStrong : (suites : List CipherSuite) → IsStrong (get_cipher_suite_ids suites)
get_cipher_suite_ids-IsStrong suites x removed =
    ground (arith, contains-get_cipher_suite_ids suites x)

module _ {E Rest Manager Client JsonError UrlError Key L Cert Sink : Type 0}
    (runtime : Runtime E Rest Manager Client) (constants : Constants) (promhttp : Promhttp)
    (jose : Jose JsonError Key) (parse : Bytes → Result UrlError Url) (valid_uuid : Bytes → Bool)
    (load : Loader L Cert) (log : Sink) (suites : List CipherSuite) (oid : OpenidmetaHandler)
    (ca : CertificateHandler) where
  -- The manager has the two health checks and the two controllers, which resynchronise as the
  -- configuration says. The server listens on the configured address, has the routes of the
  -- configuration, the key pair of the configured files, and no weak cipher suite.
  pub record IsStarted (conf : Config) (started : Manager × HttpServer Cert Sink) : Type 0 where
    pub cfg : Rest
    pub configured : runtime.get_config ≡ ok cfg
    pub mgr : Manager
    pub made : runtime.new_manager cfg manager_options ≡ ok mgr
    pub alive : Manager
    pub is_alive : runtime.add_healthz_check (bytes "ping") mgr ≡ ok alive
    pub ready : Manager
    pub is_ready : runtime.add_readyz_check (bytes "informer-sync") alive ≡ ok ready
    pub with_openid : Manager
    pub openid_controls :
        runtime.complete
          (openid_controller runtime constants)
          (runtime.get_client ready)
          conf.resync.resync_duration
          ready
        ≡ ok with_openid
    pub ca_controls :
        runtime.complete
          (ca_controller runtime constants)
          (runtime.get_client with_openid)
          conf.resync.resync_duration
          with_openid
        ≡ ok started.0
    pub listens : started.1.addr ≡ conf.serving.listen_address
    pub routes :
        new_mux promhttp jose parse valid_uuid oid ca conf.workload_identity ≡ ok started.1.handler
    pub presents :
        IsLoaded load conf.serving.cert_file conf.serving.key_file
          (with_name (bytes "dynamic-cert") log)
          300000000000
          started.1.certificate
    pub strong : IsStrong started.1.cipher_suites

  setup-Ensures :
      (conf : Config)
      → Ensures
          (setup runtime constants promhttp jose parse valid_uuid load log suites oid ca conf)
          (IsStarted conf)
  unfolding setup setup_openid_with_manager setup_ca_with_manager
  setup-Ensures conf = Ensures-wrap no_config runtime.get_config _ λ cfg configured.
      Ensures-wrap no_manager (runtime.new_manager cfg manager_options) _ λ mgr made.
        Ensures-wrap no_health_check (runtime.add_healthz_check (bytes "ping") mgr) _
          λ alive is_alive.
            Ensures-wrap no_health_check (runtime.add_readyz_check (bytes "informer-sync") alive) _
              λ ready is_ready. Ensures-wrap no_openid_controller _ _ λ with_openid openid_controls.
                Ensures-wrap no_ca_controller _ _ λ with_ca ca_controls.
                  Ensures-wrap no_workload_handler _ _ λ mux routes.
                    Ensures-wrap no_certificate _ _ λ cert made_cert. Ensures-ok _ (record {
                      cfg = cfg;
                      configured = configured;
                      mgr = mgr;
                      made = made;
                      alive = alive;
                      is_alive = is_alive;
                      ready = ready;
                      is_ready = is_ready;
                      with_openid = with_openid;
                      openid_controls = openid_controls;
                      ca_controls = ca_controls;
                      listens = refl;
                      routes = routes;
                      presents = new_dynamic_certificate-IsLoaded load _ _ _ _ cert made_cert;
                      strong = get_cipher_suite_ids-IsStrong suites;
                    })

  -- Where the command comes without an error to the start of the goroutines of `run`, the command line
  -- parses to valid options whose files can be read; with the configuration of those options, the
  -- manager has the two health checks and the two controllers, and the server listens on the
  -- configured address, has the routes of the configuration, the key pair read from the configured
  -- files, refreshed every five minutes with a logger for it, and none of the four removed cipher
  -- suites.
  pub execute-IsStarted :
      {F P : Type 0}
      (cobra : Cobra
        (CommandError P F (RunError E (NewError JsonError UrlError) L))
        (Manager × HttpServer Cert Sink))
      (p : Pflag P) (read_file : Bytes → Bytes × Option F) (asks : List (Bytes × Bytes) → Bool)
      (args : List (Bytes × Bytes)) (started : Manager × HttpServer Cert Sink)
      → execute cobra p read_file
          (setup runtime constants promhttp jose parse valid_uuid load log suites oid ca)
          asks
          args
        ≡ ok (some started)
      → (conf : Config) × IsRun p read_file args conf × IsStarted conf started
  execute-IsStarted cobra p read_file asks args started h =
      let (conf, is_run, runs) = execute-IsRun cobra p read_file _ args asks started h in
      (conf, is_run, (setup-Ensures conf).at started runs)
