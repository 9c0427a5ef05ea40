-- ===== src/Tests/Exits.antt =====
-- How the process ends: the status for a command line and an execution of the goroutines.
use gardener_discovery_serve.Common.{
  ℕ, ◌≡◌, ◌↔◌, refl, inl, inr, Option, none, some, true, false, [], Bytes, bytes, ◌==◌,
}
use gardener_discovery_serve.Common.Results.{Result, ok, ◌>>=◌}
use gardener_discovery_serve.Utils.{is_blank}
use gardener_discovery_serve.Options.{pos, Options, Config, validate, apply_to}
use gardener_discovery_serve.Options.Decimal.{format_uint}
use gardener_discovery_serve.Options.Flags.{find_flag, assign_each, add_flags}
use gardener_discovery_serve.Handler.Workloadidentity.{NewError}
use gardener_discovery_serve.Dynamiccert.{
  with_refresh_interval, with_logger, new_dynamic_certificate,
}
use gardener_discovery_serve.App.{get_cipher_suite_ids}
use gardener_discovery_serve.App.Command.{CommandError, Cobra, execute}
use gardener_discovery_serve.App.Command.Prepared.{IsPrepared}
use gardener_discovery_serve.App.Routes.{new_mux}
use gardener_discovery_serve.App.Setup.{
  RunError, setup, setup_openid_with_manager, setup_ca_with_manager,
}
use gardener_discovery_serve.App.Run.{
  manager_sent, server_sent, returned, State, init, signal, start_stops, manager_first, select_done,
  shutdown_returns, server_second, Reach, start, later,
}
use gardener_discovery_serve.App.Main.{join, RunEnd, end_of, Ended, joined, main}
use gardener_discovery_serve.App.Main.Status.{IsCleanEnd, main_zero_iff}
use gardener_discovery_serve.Tests.Samples.{constants, jose}
use gardener_discovery_serve.Tests.Routes.{promhttp, parse, short, oid, ca}
use gardener_discovery_serve.Tests.Commands.{
  pflag, runtime, key_pair, suites, no_file, args, asks, server,
}

-- a signal, and then no error
abbrev stopped : State ℕ
stopped = record init {
  ctx_done = true;
  shutdown_called = true;
  manager = manager_sent none;
  server = server_sent none;
  main = returned none none;
}

stopped_reached : Reach 6 stopped
stopped_reached =
    later
      (later
        (later
          (later
            (later (later start (inr (signal refl refl))) (inl (start_stops none refl refl refl)))
            (inl (manager_first none refl refl refl)))
          (inl (select_done refl refl refl)))
        (inl (shutdown_returns none refl refl)))
      (inl (server_second none none refl refl refl))

abbrev Error : Type 0
Error =
    CommandError Bytes (Unit {0}) (RunEnd (RunError Bytes (NewError (Unit {0}) (Unit {0})) Bytes) ℕ)

abbrev cobra : Cobra Error (Unit {0})
cobra = record {
  execute_command = λ parsed pre_run run. parsed >>= λ o. pre_run o >>= run;
  execute_command_lem = λ parsed pre_run run. refl;
}

abbrev opt : Options
opt = record {
  resync_options = record { duration = pos 1800000000000 };
  serving_options = record {
    tls_cert_file = bytes "crt";
    tls_key_file = bytes "key";
    address = [];
    port = 10443;
  };
  workload_identity_options = record { open_id_config_file = []; jwks_file = [] };
}

abbrev conf : Config
conf = record {
  resync = record { resync_duration = pos 1800000000000 };
  serving = record {
    listen_address = bytes ":10443";
    cert_file = bytes "crt";
    key_file = bytes "key";
  };
  workload_identity = record { open_id_config = []; jwks = []; enabled = false };
}

prepared : IsPrepared pflag no_file args conf
unfolding assign_each add_flags find_flag apply_to format_uint is_blank ◌==◌
prepared = record {
  opt = opt;
  parsed = refl;
  valid = record { positive = refl; cert_named = refl; key_named = refl; both_or_none = refl };
  applies = refl;
}

not_asked : asks args ≡ false
unfolding ◌==◌
not_asked = refl

set_up :
    setup runtime constants promhttp jose parse short key_pair (bytes "zap") suites oid ca conf
    ≡ ok (4, server)
unfolding setup setup_openid_with_manager setup_ca_with_manager new_mux new_dynamic_certificate
    with_refresh_interval with_logger get_cipher_suite_ids ◌==◌
set_up = refl

abbrev End : Type 0
End = RunEnd (RunError Bytes (NewError (Unit {0}) (Unit {0})) Bytes) ℕ

-- what `run` returns for the results of its goroutines
abbrev run : Option ℕ → Option ℕ → Config → Result End (Unit {0})
run a b c = end_of (join a b)

abbrev ended :
    Ended {Cert = Bytes} runtime constants promhttp jose parse short key_pair
      (bytes "zap")
      suites
      oid
      ca
      conf
      (run none none conf)
ended = joined (4, server) 6 stopped none none set_up stopped_reached refl

main_zero_iff_example :
    (main (execute cobra pflag no_file (run none none) asks args) ≡ 0)
    ↔ IsCleanEnd runtime constants promhttp jose parse short key_pair
        (bytes "zap")
        suites
        oid
        ca
        ended
main_zero_iff_example =
    main_zero_iff runtime constants promhttp jose parse short key_pair (bytes "zap") suites oid ca
      cobra pflag no_file (run none none) asks args conf not_asked prepared ended

ends_well : main (execute cobra pflag no_file (run none none) asks args) ≡ 0
ends_well = main_zero_iff_example.1 (refl, refl)

-- the port is taken
ends_with_error : main (execute cobra pflag no_file (run none (some 7)) asks args) ≡ 1
unfolding main join execute assign_each add_flags find_flag validate apply_to format_uint is_blank
    ◌==◌
ends_with_error = refl

-- no flags
ends_at_once : main (execute cobra pflag no_file (run none none) asks []) ≡ 1
unfolding main execute assign_each add_flags validate is_blank ◌==◌
ends_at_once = refl
