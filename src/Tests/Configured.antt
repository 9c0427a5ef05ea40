-- ===== src/Tests/Configured.antt =====
-- Options that are valid, and what they configure.
use gardener_discovery_serve.Common.{
  ◌≡◌, refl, ◌↔◌, false, All, Option, none, [], ◌∷◌, ◌++◌, Bytes, bytes, ◌==◌,
}
use gardener_discovery_serve.Utils.{is_blank}
use gardener_discovery_serve.Options.{
  pos, Options, Config, validate, apply_serving, apply_to, openid_configuration_file_must_be_set,
}
use gardener_discovery_serve.Options.Decimal.{format_uint, value, IsDigit}
use gardener_discovery_serve.Options.Address.{host_part, apply_serving-listen_address}
use gardener_discovery_serve.Options.Valid.{
  IsValid, validate_iff, IsConfigured, apply_to-IsConfigured,
}

abbrev options : Options
options = record {
  resync_options = record { duration = pos 30 };
  serving_options = record {
    tls_cert_file = bytes "crt";
    tls_key_file = bytes "key";
    address = bytes "::1";
    port = 443;
  };
  workload_identity_options = record {
    open_id_config_file = bytes "conf";
    jwks_file = bytes "jwks";
  };
}

abbrev unset : Config
unset = record {
  resync = record { resync_duration = pos 0 };
  serving = record { listen_address = []; cert_file = []; key_file = [] };
  workload_identity = record { open_id_config = []; jwks = []; enabled = false };
}

-- every file holds its name
abbrev read_file : Bytes → Bytes × Option (Unit {0})
read_file = λ name. (name, none)

valid : validate options ≡ []
unfolding validate is_blank ◌==◌
valid = refl

half_named :
    validate (record options {
      workload_identity_options = record {
        open_id_config_file = bytes " ";
        jwks_file = bytes "jwks";
      };
    })
    ≡ openid_configuration_file_must_be_set ∷ []
unfolding validate is_blank ◌==◌
half_named = refl

validate_iff_example : (validate options ≡ []) ↔ IsValid options
validate_iff_example = validate_iff options

applied : (apply_to read_file options unset).1 ≡ none
unfolding apply_to is_blank ◌==◌
applied = refl

listens : (apply_to read_file options unset).0.serving.listen_address ≡ bytes "[::1]:443"
unfolding apply_to format_uint is_blank ◌==◌
listens = refl

apply_to-IsConfigured_example : IsConfigured read_file options (apply_to read_file options unset).0
apply_to-IsConfigured_example = apply_to-IsConfigured read_file options unset valid applied

apply_serving-listen_address_example :
    (port : Bytes) × ((apply_serving options.serving_options).listen_address
      ≡ host_part (bytes "::1") ++ bytes ":" ++ port)
    × All IsDigit port
    × (value port ≡ 443)
apply_serving-listen_address_example = apply_serving-listen_address options.serving_options
