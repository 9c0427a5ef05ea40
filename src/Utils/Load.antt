-- ===== src/Utils/Load.antt =====
-- `LoadKeySet` and `LoadOpenIDConfig` of internal/utils/utils.go, over what they use of
-- encoding/json and of go-jose.
use gardener_discovery_serve.Common.{Bool, Option, List, Bytes}
use gardener_discovery_serve.Common.Results.{Result, wrap}

pub record OpenIdMetadata : Type 0 where
  pub issuer : Bytes
  pub jwks_uri : Bytes

-- The library code, not under this repository. `unmarshal_key_set` writes through a pointer to a
-- pointer, so that the JSON text `null` leaves a nil key set, `none`.
pub record Jose (JsonError Key : Type 0) : Type 0 where
  pub unmarshal_metadata : Bytes → Result JsonError OpenIdMetadata
  pub unmarshal_key_set : Bytes → Result JsonError (Option (List Key))
  pub is_public : Key → Bool
  pub valid : Key → Bool
  pub key_id : Key → Bytes

pub data LoadError (JsonError : Type 0) : Type 0 where
  failed_to_unmarshal_jwks : JsonError → LoadError JsonError
  failed_to_unmarshal_configuration : JsonError → LoadError JsonError

module _ {JsonError Key : Type 0} (jose : Jose JsonError Key) where
  unfoldable pub load_key_set : Bytes → Result (LoadError JsonError) (Option (List Key))
  load_key_set jwks = wrap failed_to_unmarshal_jwks (jose.unmarshal_key_set jwks)

  unfoldable pub load_open_id_config : Bytes → Result (LoadError JsonError) OpenIdMetadata
  load_open_id_config config =
      wrap failed_to_unmarshal_configuration (jose.unmarshal_metadata config)
