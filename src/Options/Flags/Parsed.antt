-- ===== src/Options/Flags/Parsed.antt =====
-- The options that a command line of cmd/discovery-server/app/options/options.go gives.
use gardener_discovery_serve.Common.{◌≡◌, sym, ◌∙◌, List, [], Bytes, bytes}
use gardener_discovery_serve.Common.Results.{ok}
use gardener_discovery_serve.Options.{pos, Options}
use gardener_discovery_serve.Options.Flags.{Pflag, flag_set}
use gardener_discovery_serve.Options.Flags.Given.{last_given, IsValue, assign_each-IsValue}
use gardener_discovery_serve.Options.Flags.Registered.{flag_set_lem}
use gardener_discovery_serve.Options.Flags.Setters.{
  tls_cert_file-IsSetter, tls_key_file-IsSetter, address-IsSetter, port-IsSetter,
  resync_period-IsSetter, open_id_config_file-IsSetter, jwks_file-IsSetter,
}

module _ {E : Type 0} (p : Pflag E) (args : List (Bytes × Bytes)) where
  -- Each variable has the last value of its flag, as its parser reads it, or else its default.
  pub record IsGiven (o : Options) : Type 0 where
    pub tls_cert_file_given :
        IsValue {E = E}
          (λ o. o.serving_options.tls_cert_file)
          (bytes "tls-cert-file")
          ok
          (last_given (bytes "tls-cert-file") args)
          []
          o
    pub tls_key_file_given :
        IsValue {E = E}
          (λ o. o.serving_options.tls_key_file)
          (bytes "tls-private-key-file")
          ok
          (last_given (bytes "tls-private-key-file") args)
          []
          o
    pub address_given :
        IsValue {E = E}
          (λ o. o.serving_options.address)
          (bytes "address")
          ok
          (last_given (bytes "address") args)
          []
          o
    pub port_given :
        IsValue
          (λ o. o.serving_options.port)
          (bytes "port")
          p.parse_uint
          (last_given (bytes "port") args)
          10443
          o
    pub resync_period_given :
        IsValue
          (λ o. o.resync_options.duration)
          (bytes "resync-period")
          p.parse_duration
          (last_given (bytes "resync-period") args)
          (pos 1800000000000)
          o
    pub open_id_config_file_given :
        IsValue {E = E}
          (λ o. o.workload_identity_options.open_id_config_file)
          (bytes "workload-identity-openid-configuration-file")
          ok
          (last_given (bytes "workload-identity-openid-configuration-file") args)
          []
          o
    pub jwks_file_given :
        IsValue {E = E}
          (λ o. o.workload_identity_options.jwks_file)
          (bytes "workload-identity-jwks-file")
          ok
          (last_given (bytes "workload-identity-jwks-file") args)
          []
          o

  -- When the command line is parsed, each of the seven variables of the options has the last value
  -- that the command line gives for its flag, as the flag's parser reads it; a variable whose flag is
  -- not given has its default (port 10443, a resync period of half an hour, the empty string), and
  -- no flag changes the variable of another.
  pub flag_set-IsGiven : (o : Options) → p.parse (flag_set p) args ≡ ok o → IsGiven o
  flag_set-IsGiven o h =
      let all = sym (p.parse_lem (flag_set p) args) ∙ h in
      let each = rw (flag_set_lem p) at all in
      record {
        tls_cert_file_given =
            assign_each-IsValue _ _ _ _ _ args _ o (tls_cert_file-IsSetter p) each;
        tls_key_file_given = assign_each-IsValue _ _ _ _ _ args _ o (tls_key_file-IsSetter p) each;
        address_given = assign_each-IsValue _ _ _ _ _ args _ o (address-IsSetter p) each;
        port_given = assign_each-IsValue _ _ _ _ _ args _ o (port-IsSetter p) each;
        resync_period_given =
            assign_each-IsValue _ _ _ _ _ args _ o (resync_period-IsSetter p) each;
        open_id_config_file_given =
            assign_each-IsValue _ _ _ _ _ args _ o (open_id_config_file-IsSetter p) each;
        jwks_file_given = assign_each-IsValue _ _ _ _ _ args _ o (jwks_file-IsSetter p) each;
      }
