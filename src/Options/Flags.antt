-- ===== src/Options/Flags.antt =====
-- cmd/discovery-server/app/options/options.go: the flags that `AddFlags` registers, with the variables
-- that they set. The usage texts, the flag of the version and those of other packages are left out.
pub mod Given
pub mod Registered
pub mod Setters
pub mod Parsed
use gardener_discovery_serve.Common.{
  ◌≡◌, ℕ, Bool, true, false, Option, none, some, List, [], ◌∷◌, Bytes, bytes, ◌==◌, if◌then◌else◌,
}
use gardener_discovery_serve.Common.Results.{Result, ok, err, ◌>>=◌}
use gardener_discovery_serve.Options.{
  ℤ, pos, Options, ServingOptions, WorkloadIdentityOptions, ResyncOptions,
}

-- What a value on the command line does to the variable of its flag.
abbrev pub Assign : Type 0 → Type 0
Assign E = Bytes → Options → Result E Options

-- A flag set: the flags with what they assign, and the options that it sets.
pub record FlagSet (E : Type 0) : Type 0 where
  pub flags : List (Bytes × Assign E)
  pub options : Options

module _ {E : Type 0} where
  -- The flag set with one more flag, whose variable has its default value from now on.
  abbrev pub with_flag : Bytes → Assign E → (Options → Options) → FlagSet E → FlagSet E
  with_flag name assign put_default fs = record {
    flags = (name, assign) ∷ fs.flags;
    options = put_default fs.options;
  }

  unfoldable pub find_flag : Bytes → List (Bytes × Assign E) → Option (Assign E)
  find_flag name [] = none
  find_flag name ((n, assign) ∷ flags) = if n == name then some assign else find_flag name flags

  module _ (unknown_flag : Bytes → E) where
    abbrev pub assign_flag : Option (Assign E) → Bytes → Bytes → Options → Result E Options
    assign_flag none name value o = err (unknown_flag name)
    assign_flag (some assign) name value o = assign value o

    -- The flags of a command line with their values, one after the other, up to the first that is
    -- unknown or whose value does not parse.
    unfoldable pub assign_each :
        List (Bytes × Assign E) → List (Bytes × Bytes) → Options → Result E Options
    unfolding find_flag
    assign_each flags [] o = ok o
    assign_each flags ((name, value) ∷ args) o =
        assign_flag (find_flag name flags) name value o >>= assign_each flags args

-- The package pflag: its parsers of values, and what it documents of `StringVar`, `UintVar`,
-- `DurationVar` and `Parse`. The first argument of the three writes their variable.
pub record Pflag (E : Type 0) : Type 0 where
  pub parse_uint : Bytes → Result E ℕ
  pub parse_duration : Bytes → Result E ℤ
  pub unknown_flag : Bytes → E
  pub string_var : (Bytes → Options → Options) → Bytes → Bytes → FlagSet E → FlagSet E
  pub uint_var : (ℕ → Options → Options) → Bytes → ℕ → FlagSet E → FlagSet E
  pub duration_var : (ℤ → Options → Options) → Bytes → ℤ → FlagSet E → FlagSet E
  pub parse : FlagSet E → List (Bytes × Bytes) → Result E Options
  pub string_var_lem :
      (put : Bytes → Options → Options) (name value : Bytes) (fs : FlagSet E)
      → string_var put name value fs ≡ with_flag name (λ s o. ok (put s o)) (put value) fs
  pub uint_var_lem :
      (put : ℕ → Options → Options) (name : Bytes) (value : ℕ) (fs : FlagSet E)
      → uint_var put name value fs
        ≡ with_flag name (λ s o. parse_uint s >>= λ v. ok (put v o)) (put value) fs
  pub duration_var_lem :
      (put : ℤ → Options → Options) (name : Bytes) (value : ℤ) (fs : FlagSet E)
      → duration_var put name value fs
        ≡ with_flag name (λ s o. parse_duration s >>= λ v. ok (put v o)) (put value) fs
  pub parse_lem :
      (fs : FlagSet E) (args : List (Bytes × Bytes))
      → parse fs args ≡ assign_each unknown_flag fs.flags args fs.options

-- `NewOptions`
abbrev pub new_options : Options
new_options = record {
  resync_options = record { duration = pos 0 };
  serving_options = record { tls_cert_file = []; tls_key_file = []; address = []; port = 0 };
  workload_identity_options = record { open_id_config_file = []; jwks_file = [] };
}

abbrev put_serving : (ServingOptions → ServingOptions) → Options → Options
put_serving f o = record o { serving_options = f o.serving_options }

abbrev put_workload_identity :
    (WorkloadIdentityOptions → WorkloadIdentityOptions) → Options → Options
put_workload_identity f o = record o { workload_identity_options = f o.workload_identity_options }

-- the ports are uint, the durations counted in nanoseconds
abbrev half_an_hour : ℤ
half_an_hour = pos 1800000000000

module _ {E : Type 0} (p : Pflag E) where
  unfoldable pub add_serving_flags : FlagSet E → FlagSet E
  add_serving_flags fs =
      let fs1 =
        p.string_var (λ s. put_serving (λ o. record o { tls_cert_file = s }))
          (bytes "tls-cert-file") fs.options.serving_options.tls_cert_file fs in
      let fs2 =
        p.string_var (λ s. put_serving (λ o. record o { tls_key_file = s }))
          (bytes "tls-private-key-file") fs1.options.serving_options.tls_key_file fs1 in
      let fs3 =
        p.string_var (λ s. put_serving (λ o. record o { address = s })) (bytes "address") [] fs2 in
      p.uint_var (λ n. put_serving (λ o. record o { port = n })) (bytes "port") 10443 fs3

  unfoldable pub add_workload_identity_flags : FlagSet E → FlagSet E
  add_workload_identity_flags fs =
      let fs1 =
        p.string_var (λ s. put_workload_identity (λ o. record o { open_id_config_file = s }))
          (bytes "workload-identity-openid-configuration-file")
          fs.options.workload_identity_options.open_id_config_file fs in
      p.string_var (λ s. put_workload_identity (λ o. record o { jwks_file = s }))
        (bytes "workload-identity-jwks-file") fs1.options.workload_identity_options.jwks_file fs1

  unfoldable pub add_resync_flags : FlagSet E → FlagSet E
  add_resync_flags fs =
      p.duration_var (λ d o. record o { resync_options = record { duration = d } })
        (bytes "resync-period") half_an_hour fs

  unfoldable pub add_flags : FlagSet E → FlagSet E
  unfolding add_serving_flags add_workload_identity_flags add_resync_flags
  add_flags fs = add_workload_identity_flags (add_resync_flags (add_serving_flags fs))

  abbrev pub flag_set : FlagSet E
  flag_set = add_flags (record { flags = []; options = new_options })
