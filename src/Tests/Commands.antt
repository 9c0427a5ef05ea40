-- ===== src/Tests/Commands.antt =====
-- Command lines, and the configurations that they run with.
use gardener_discovery_serve.Common.{
  ℕ, ◌+◌, ◌≡◌, refl, Option, none, some, Bool, false, ◌||◌, List, [], ◌∷◌, Bytes, bytes, ◌==◌,
}
use gardener_discovery_serve.Common.Results.{Result, ok, err, ◌>>=◌}
use gardener_discovery_serve.Utils.{is_blank}
use gardener_discovery_serve.Options.{
  ℤ, pos, Config, Options, validate, apply_to, tls_cert_file_is_required,
  tls_private_key_file_is_required,
}
use gardener_discovery_serve.Options.Decimal.{format_uint}
use gardener_discovery_serve.Options.Flags.{
  Pflag, with_flag, find_flag, assign_each, add_flags, flag_set,
}
use gardener_discovery_serve.Options.Flags.Parsed.{IsGiven, flag_set-IsGiven}
use gardener_discovery_serve.App.Command.{
  CommandError, Cobra, invalid_flags, invalid_options, execute,
}
use gardener_discovery_serve.App.Command.Configured.{IsRun}
use gardener_discovery_serve.Handler.{set_hsts, not_found}
use gardener_discovery_serve.Handler.Workloadidentity.{NewError}
use gardener_discovery_serve.Metrics.{uncounted}
use gardener_discovery_serve.Dynamiccert.{
  with_name, Loader, with_refresh_interval, with_logger, new_dynamic_certificate,
}
use gardener_discovery_serve.App.{CipherSuite, get_cipher_suite_ids}
use gardener_discovery_serve.App.Routes.{shoot_routes, new_mux}
use gardener_discovery_serve.App.Setup.{
  Runtime, RunError, HttpServer, setup, setup_openid_with_manager, setup_ca_with_manager,
}
use gardener_discovery_serve.App.Setup.Started.{IsStarted, execute-IsStarted}
use gardener_discovery_serve.Tests.Samples.{constants, jose}
use gardener_discovery_serve.Tests.Routes.{promhttp, parse, short, oid, ca}

-- no number is read, and no file is found
abbrev pub no_uint : Bytes → Result Bytes ℕ
no_uint s = err s

abbrev pub no_duration : Bytes → Result Bytes ℤ
no_duration s = err s

-- what pflag and cobra document, as functions; an error is the flag or the value
abbrev pub pflag : Pflag Bytes
pflag = record {
  parse_uint = no_uint;
  parse_duration = no_duration;
  unknown_flag = λ name. name;
  string_var = λ put name value fs. with_flag name (λ s o. ok (put s o)) (put value) fs;
  uint_var =
      λ put name value fs. with_flag name (λ s o. no_uint s >>= λ v. ok (put v o)) (put value) fs;
  duration_var = λ put name value fs.
      with_flag name (λ s o. no_duration s >>= λ v. ok (put v o)) (put value) fs;
  parse = λ fs args. assign_each (λ name. name) fs.flags args fs.options;
  string_var_lem = λ put name value fs. refl;
  uint_var_lem = λ put name value fs. refl;
  duration_var_lem = λ put name value fs. refl;
  parse_lem = λ fs args. refl;
}

-- whether one of the flags is that of help or of the version
abbrev pub asks : List (Bytes × Bytes) → Bool
asks [] = false
asks ((name, value) ∷ line) =
    let later = asks line in name == bytes "help" || name == bytes "version" || later

abbrev Error : Type 0
Error = CommandError Bytes (Unit {0}) (RunError Bytes (NewError (Unit {0}) (Unit {0})) Bytes)

abbrev Made : Type 0
Made = ℕ × HttpServer Bytes Bytes

abbrev cobra : Cobra Error Made
cobra = record {
  execute_command = λ parsed pre_run run. parsed >>= λ o. pre_run o >>= run;
  execute_command_lem = λ parsed pre_run run. refl;
}

-- a manager that counts what is added to it
abbrev pub runtime : Runtime Bytes (Unit {0}) ℕ (Unit {0})
runtime = record {
  get_config = ok tt;
  new_manager = λ cfg options. ok 0;
  add_healthz_check = λ name n. ok (n + 1);
  add_readyz_check = λ name n. ok (n + 1);
  get_client = λ n. tt;
  complete = λ options client period n. ok (n + 1);
  default_reconciliation_timeout = 60000000000;
}

-- a pair is the name of its file
abbrev pub key_pair : Loader Bytes Bytes
key_pair cert_file key_file = ok cert_file

abbrev pub suites : List CipherSuite
suites = record { id = 0xc013 } ∷ record { id = 0x1301 } ∷ []

abbrev set_up : Config → Result (RunError Bytes (NewError (Unit {0}) (Unit {0})) Bytes) Made
set_up = setup runtime constants promhttp jose parse short key_pair (bytes "zap") suites oid ca

abbrev pub no_file : Bytes → Bytes × Option (Unit {0})
no_file name = ([], some tt)

abbrev pub args : List (Bytes × Bytes)
args = (bytes "tls-cert-file", bytes "crt") ∷ (bytes "tls-private-key-file", bytes "key") ∷ []

abbrev pub server : HttpServer Bytes Bytes
server = record {
  addr = bytes ":10443";
  handler = record {
    patterns = shoot_routes promhttp short oid ca;
    root = uncounted (set_hsts not_found);
  };
  certificate = record {
    cert_file = bytes "crt";
    key_file = bytes "key";
    interval = 300000000000;
    certificate = bytes "crt";
    log = with_name (bytes "dynamic-cert") (bytes "zap");
  };
  min_version = 0x0303;
  cipher_suites = 0x1301 ∷ [];
  read_timeout = 10000000000;
  write_timeout = 10000000000;
}

starts :
    ◌≡◌ {A = Result Error (Option Made)}
      (execute cobra pflag no_file set_up asks args)
      (ok (some (4, server)))
unfolding execute assign_each add_flags find_flag validate apply_to format_uint is_blank ◌==◌ setup
    setup_openid_with_manager setup_ca_with_manager new_mux new_dynamic_certificate
    with_refresh_interval with_logger get_cipher_suite_ids
starts = refl

execute-IsStarted_example :
    (conf : Config) × IsRun pflag no_file args conf
    × IsStarted runtime constants promhttp jose parse short key_pair
        (bytes "zap")
        suites
        oid
        ca
        conf
        (4, server)
execute-IsStarted_example =
    execute-IsStarted runtime constants promhttp jose parse short key_pair (bytes "zap") suites oid
      ca cobra pflag no_file asks args (4, server) starts

-- the second address is taken
abbrev two_addresses : List (Bytes × Bytes)
two_addresses =
    (bytes "address", bytes "::1")
    ∷ (bytes "tls-cert-file", bytes "crt")
    ∷ (bytes "address", bytes "::2")
    ∷ []

abbrev given_options : Options
given_options = record {
  resync_options = record { duration = pos 1800000000000 };
  serving_options = record {
    tls_cert_file = bytes "crt";
    tls_key_file = [];
    address = bytes "::2";
    port = 10443;
  };
  workload_identity_options = record { open_id_config_file = []; jwks_file = [] };
}

parses_two_addresses : pflag.parse (flag_set pflag) two_addresses ≡ ok given_options
unfolding assign_each find_flag add_flags ◌==◌
parses_two_addresses = refl

flag_set-IsGiven_example : IsGiven pflag two_addresses given_options
flag_set-IsGiven_example = flag_set-IsGiven pflag two_addresses given_options parses_two_addresses

no_args :
    ◌≡◌ {A = Result Error (Option Made)}
      (execute cobra pflag no_file set_up asks [])
      (err (invalid_options (tls_cert_file_is_required ∷ tls_private_key_file_is_required ∷ [])))
unfolding execute assign_each add_flags validate is_blank ◌==◌
no_args = refl

strange_flag :
    ◌≡◌ {A = Result Error (Option Made)}
      (execute cobra pflag no_file set_up asks ((bytes "verbose", bytes "1") ∷ []))
      (err (invalid_flags (bytes "verbose")))
unfolding execute assign_each add_flags find_flag ◌==◌
strange_flag = refl

-- The version ends the process, also where the options are not valid.
version_asked :
    ◌≡◌ {A = Result Error (Option Made)}
      (execute cobra pflag no_file set_up asks ((bytes "version", bytes "true") ∷ []))
      (ok none)
unfolding execute ◌==◌
version_asked = refl
