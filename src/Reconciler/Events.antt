-- ===== src/Reconciler/Events.antt =====
-- internal/reconciler/openidmeta/add.go and internal/reconciler/certificate/add.go: which events of the
-- API server lead to a reconciliation. App/Setup has the options of the controllers.
pub mod Relevant
use gardener_discovery_serve.Common.{
  Bool, true, false, not, ◌&&◌, ◌||◌, Option, none, some, List, [], ◌∷◌, Bytes, bytes, ◌==◌, Map,
  lookup,
}
use gardener_discovery_serve.Reconciler.{Secret, ConfigMap, Constants}
use gardener_discovery_serve.Reconciler.Certificate.{or_empty}

-- `client.Object`, of which the code asks for its type.
pub data Object : Type 0 where
  secret_object : Secret → Object
  config_map_object : ConfigMap → Object
  other_object : Object

-- The events of controller-runtime.
pub data Event : Type 0 where
  created : Object → Event
  updated : Object → Object → Event
  deleted : Object → Event
  generic : Object → Event

-- The object is one that the API server has or had.
abbrev pub objects_of : Event → List Object
objects_of (created o) = o ∷ []
objects_of (updated old new) = old ∷ new ∷ []
objects_of (deleted o) = o ∷ []
objects_of (generic o) = []

-- `labels != nil`: the API machinery decodes an empty map as nil.
abbrev pub is_nil : Map Bytes → Bool
is_nil [] = true
is_nil (entry ∷ labels) = false

module _ (constants : Constants) where
  unfoldable pub is_relevant_secret : Object → Bool
  is_relevant_secret (secret_object secret) =
      not (is_nil secret.secret_labels)
      && (or_empty (lookup constants.label_discovery_public secret.secret_labels)
          == constants.label_public_keys_service_account)
  is_relevant_secret _ = false

  unfoldable pub is_relevant_secret_update : Object → Object → Bool
  unfolding is_relevant_secret
  is_relevant_secret_update old new = is_relevant_secret new || is_relevant_secret old

  unfoldable pub secret_predicate : Event → Bool
  unfolding is_relevant_secret is_relevant_secret_update
  secret_predicate (created o) = is_relevant_secret o
  secret_predicate (updated old new) = is_relevant_secret_update old new
  secret_predicate (deleted o) = is_relevant_secret o
  secret_predicate (generic o) = false

  unfoldable pub is_relevant_config_map : Object → Bool
  is_relevant_config_map (config_map_object configmap) =
      not (is_nil configmap.config_labels)
      && (or_empty (lookup constants.label_discovery_public configmap.config_labels)
          == constants.discovery_shoot_ca)
      && (or_empty (lookup constants.label_update_restriction configmap.config_labels)
          == bytes "true")
  is_relevant_config_map _ = false

  unfoldable pub is_relevant_config_map_update : Object → Object → Bool
  unfolding is_relevant_config_map
  is_relevant_config_map_update old new = is_relevant_config_map new || is_relevant_config_map old

  unfoldable pub configmap_predicate : Event → Bool
  unfolding is_relevant_config_map is_relevant_config_map_update
  configmap_predicate (created o) = is_relevant_config_map o
  configmap_predicate (updated old new) = is_relevant_config_map_update old new
  configmap_predicate (deleted o) = is_relevant_config_map o
  configmap_predicate (generic o) = false
