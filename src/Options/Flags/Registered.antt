-- ===== src/Options/Flags/Registered.antt =====
-- The seven flags that `AddFlags` of cmd/discovery-server/app/options/options.go registers.
use gardener_discovery_serve.Common.{◌≡◌, [], ◌∷◌, bytes}
use gardener_discovery_serve.Common.Results.{ok, ◌>>=◌}
use gardener_discovery_serve.Options.{pos}
use gardener_discovery_serve.Options.Flags.{
  FlagSet, Pflag, add_flags, flag_set, put_serving, put_workload_identity,
}

module _ {E : Type 0} (p : Pflag E) where
  abbrev pub registered : FlagSet E
  registered = record {
    flags =
        (
          bytes "workload-identity-jwks-file",
          λ s o. ok (put_workload_identity (λ w. record w { jwks_file = s }) o),
        )
        ∷ (
          bytes "workload-identity-openid-configuration-file",
          λ s o. ok (put_workload_identity (λ w. record w { open_id_config_file = s }) o),
        )
        ∷ (
          bytes "resync-period",
          λ s o. p.parse_duration s >>= λ d.
              ok (record o { resync_options = record { duration = d } }),
        )
        ∷ (
          bytes "port",
          λ s o. p.parse_uint s >>= λ n. ok (put_serving (λ w. record w { port = n }) o),
        )
        ∷ (bytes "address", λ s o. ok (put_serving (λ w. record w { address = s }) o))
        ∷ (
          bytes "tls-private-key-file",
          λ s o. ok (put_serving (λ w. record w { tls_key_file = s }) o),
        )
        ∷ (bytes "tls-cert-file", λ s o. ok (put_serving (λ w. record w { tls_cert_file = s }) o))
        ∷ [];
    options = record {
      resync_options = record { duration = pos 1800000000000 };
      serving_options = record {
        tls_cert_file = [];
        tls_key_file = [];
        address = [];
        port = 10443;
      };
      workload_identity_options = record { open_id_config_file = []; jwks_file = [] };
    };
  }

  pub flag_set_lem : flag_set p ≡ registered
  unfolding add_flags
  flag_set_lem = simp (p.string_var_lem, p.uint_var_lem, p.duration_var_lem)
