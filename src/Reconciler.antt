-- ===== src/Reconciler.antt =====
-- What the reconcilers of internal/reconciler share: the objects that they read from the API server
-- and what a reconciliation returns to controller-runtime.
pub mod Checks
pub mod Openidmeta
pub mod Certificate
pub mod Events
pub mod Watch
pub mod CaWatch
pub mod Workers
use gardener_discovery_serve.Common.{ℕ, Option, Bytes, Map}
use gardener_discovery_serve.Common.Results.{Result}

-- `client.Get`: an error is `IsNotFound` or another.
pub data GetError (E : Type 0) : Type 0 where
  is_not_found : GetError E
  other : E → GetError E

pub record NamespacedName : Type 0 where
  pub namespace : Bytes
  pub name : Bytes

-- A missing map reads like an empty one.
pub record Secret : Type 0 where
  pub secret_deletion : Option ℕ
  pub secret_data : Map Bytes
  pub secret_labels : Map Bytes

pub record ConfigMap : Type 0 where
  pub config_deletion : Option ℕ
  pub config_data : Map Bytes
  pub config_labels : Map Bytes

pub record Namespace : Type 0 where
  pub namespace_name : Bytes
  pub namespace_labels : Map Bytes

-- `none` is a nil `Spec.Namespace`.
pub record Project : Type 0 where
  pub spec_namespace : Option Bytes

pub record Shoot : Type 0 where
  pub uid : Bytes
  pub annotations : Map Bytes

-- What the API server answers during one reconciliation.
pub record Cluster (E : Type 0) : Type 0 where
  pub get_secret : NamespacedName → Result (GetError E) Secret
  pub get_config_map : NamespacedName → Result (GetError E) ConfigMap
  pub get_namespace : Bytes → Result (GetError E) Namespace
  pub get_project : Bytes → Result (GetError E) Project
  pub get_shoot : NamespacedName → Result (GetError E) Shoot

-- The names of labels and annotations that the gardener packages declare.
pub record Constants : Type 0 where
  pub label_discovery_public : Bytes
  pub label_public_keys_service_account : Bytes
  pub discovery_shoot_ca : Bytes
  pub label_update_restriction : Bytes
  pub project_name : Bytes
  pub label_shoot_name : Bytes
  pub label_shoot_namespace : Bytes
  pub shoot_uid : Bytes
  pub annotation_authentication_issuer : Bytes
  pub annotation_authentication_issuer_managed : Bytes
  pub data_key_certificate_ca : Bytes

-- `(ctrl.Result, error)`: a result with its `RequeueAfter` and no error, an error, or a panic.
pub data Outcome (E : Type 0) : Type 0 where
  requeue_after : ℕ → Outcome E
  failed : E → Outcome E
  panicked : Outcome E

-- What the checks of a reconciliation come to. `drop` is the branch that takes the entry out of the
-- store and returns an empty result.
pub data Check (E A : Type 0) : Type 0 where
  pass : A → Check E A
  drop : Check E A
  abort : E → Check E A
  panic : Check E A

infixl 5 ◌>>=◌ ◌>>◌
abbrev pub ◌>>=◌ : {E A B : Type 0} → Check E A → (A → Check E B) → Check E B
pass a >>= f = f a
drop >>= f = drop
abort e >>= f = abort e
panic >>= f = panic

abbrev pub ◌>>◌ : {E B : Type 0} → Check E (Unit {0}) → Check E B → Check E B
m >> k = m >>= λ _. k
