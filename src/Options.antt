-- ===== src/Options.antt =====
-- cmd/discovery-server/app/options/options.go: the options of the server, their validation, and the
-- configuration that they make. Flags has the flags.
pub mod Valid
pub mod Flags
pub mod Decimal
pub mod Address
use gardener_discovery_serve.Common.{
  ℕ, zero, suc, Bool, true, false, not, ◌&&◌, Option, none, some, List, [], ◌∷◌, ◌++◌, Bytes, bytes,
  ◌==◌, eqb, ltb, if◌then◌else◌,
}
use gardener_discovery_serve.Utils.{is_blank}
use Decimal.{format_uint}

-- `time.Duration`, an int64, of which the code asks only whether it is positive
pub data ℤ : Type 0 where
  pos : ℕ → ℤ
  negsuc : ℕ → ℤ

pub record ServingOptions : Type 0 where
  pub tls_cert_file : Bytes
  pub tls_key_file : Bytes
  pub address : Bytes
  pub port : ℕ

pub record WorkloadIdentityOptions : Type 0 where
  pub open_id_config_file : Bytes
  pub jwks_file : Bytes

pub record ResyncOptions : Type 0 where
  pub duration : ℤ

pub record Options : Type 0 where
  pub resync_options : ResyncOptions
  pub serving_options : ServingOptions
  pub workload_identity_options : WorkloadIdentityOptions

pub record ServingConfig : Type 0 where
  pub listen_address : Bytes
  pub cert_file : Bytes
  pub key_file : Bytes

pub record WorkloadIdentityConfig : Type 0 where
  pub open_id_config : Bytes
  pub jwks : Bytes
  pub enabled : Bool

pub record ResyncConfig : Type 0 where
  pub resync_duration : ℤ

pub record Config : Type 0 where
  pub resync : ResyncConfig
  pub serving : ServingConfig
  pub workload_identity : WorkloadIdentityConfig

pub data OptionError : Type 0 where
  tls_cert_file_is_required : OptionError
  tls_private_key_file_is_required : OptionError
  openid_configuration_file_must_be_set : OptionError
  jwks_file_must_be_set : OptionError
  resync_period_must_be_positive : OptionError

-- `if condition { errs = append(errs, e) }`
abbrev pub error_if : Bool → OptionError → List OptionError
error_if b e = if b then e ∷ [] else []

abbrev pub is_positive : ℤ → Bool
is_positive (pos n) = ltb 0 n
is_positive (negsuc n) = false

unfoldable pub validate_serving : ServingOptions → List OptionError
validate_serving o =
    error_if (is_blank o.tls_cert_file) tls_cert_file_is_required
    ++ error_if (is_blank o.tls_key_file) tls_private_key_file_is_required

unfoldable pub validate_workload_identity : WorkloadIdentityOptions → List OptionError
validate_workload_identity o =
    if is_blank o.open_id_config_file && is_blank o.jwks_file
    then []
    else error_if (is_blank o.open_id_config_file) openid_configuration_file_must_be_set
      ++ error_if (is_blank o.jwks_file) jwks_file_must_be_set

unfoldable pub validate_resync : ResyncOptions → List OptionError
validate_resync o = error_if (not (is_positive o.duration)) resync_period_must_be_positive

unfoldable pub validate : Options → List OptionError
unfolding validate_resync validate_serving validate_workload_identity
validate o =
    validate_resync o.resync_options
    ++ validate_serving o.serving_options
    ++ validate_workload_identity o.workload_identity_options

abbrev has_colon : Bytes → Bool
has_colon [] = false
has_colon (c ∷ s) = if eqb c 58 then true else has_colon s

-- `net.JoinHostPort`
unfoldable pub join_host_port : Bytes → Bytes → Bytes
join_host_port host port =
    if has_colon host then bytes "[" ++ host ++ bytes "]:" ++ port else host ++ bytes ":" ++ port

unfoldable pub apply_serving : ServingOptions → ServingConfig
unfolding join_host_port
apply_serving o = record {
  listen_address = join_host_port o.address (format_uint o.port);
  cert_file = o.tls_cert_file;
  key_file = o.tls_key_file;
}

module _ {E : Type 0} (read_file : Bytes → Bytes × Option E) where
  -- Both files are read in turn, and the first error is returned; what a failed `os.ReadFile` returns
  -- is assigned too.
  abbrev on_jwks : Bytes × Option E → WorkloadIdentityConfig → WorkloadIdentityConfig × Option E
  on_jwks (content, e) c = (record c { jwks = content }, e)

  abbrev on_open_id_config :
      Bytes × Option E → Bytes → WorkloadIdentityConfig → WorkloadIdentityConfig × Option E
  on_open_id_config (content, some e) jwks_file c = (record c { open_id_config = content }, some e)
  on_open_id_config (content, none) jwks_file c =
      on_jwks (read_file jwks_file) (record c { open_id_config = content })

  unfoldable pub apply_workload_identity :
      WorkloadIdentityOptions → WorkloadIdentityConfig → WorkloadIdentityConfig × Option E
  apply_workload_identity o c =
      if is_blank o.open_id_config_file
      then (record c { enabled = false }, none)
      else on_open_id_config (read_file o.open_id_config_file) o.jwks_file
          (record c { enabled = true })

  abbrev on_workload_identity :
      WorkloadIdentityConfig × Option E → ServingConfig → Config → Config × Option E
  on_workload_identity (w, some e) serving c = (record c { workload_identity = w }, some e)
  on_workload_identity (w, none) serving c =
      (record c { workload_identity = w; serving = serving }, none)

  unfoldable pub apply_to : Options → Config → Config × Option E
  unfolding apply_workload_identity apply_serving
  apply_to o c =
      on_workload_identity (apply_workload_identity o.workload_identity_options c.workload_identity)
        (apply_serving o.serving_options)
        (record c { resync = record { resync_duration = o.resync_options.duration } })
