-- ===== src/Tests/Documents.antt =====
-- The names and the openid documents of a shoot at concrete inputs.
use gardener_discovery_serve.Common.{
  ℕ, ◌≡◌, ◌≢◌, ◌↔◌, refl, some, List, [], ◌∷◌, Bytes, bytes, ◌==◌, eq_iff, has_prefix, Map, lookup,
  insert, remove, arith,
}
use gardener_discovery_serve.Common.Results.{ok, err}
use gardener_discovery_serve.Utils.{
  split_project_name_and_shoot_uid, split, is_blank, err_proj_shoot_uid_invalid_format,
}
use gardener_discovery_serve.Utils.Split.{IsKeyOf, split_project_iff, split_project_sound}
use gardener_discovery_serve.Utils.Load.{load_key_set, load_open_id_config}
use gardener_discovery_serve.Store.Api.{map_api}
use gardener_discovery_serve.Store.Openidmeta.{Data}
use gardener_discovery_serve.Reconciler.{Cluster, NamespacedName, requeue_after, panicked, pass}
use gardener_discovery_serve.Reconciler.Openidmeta.{
  Claims, check_secret, check_shoot, check_documents, check_all, reconcile,
}
use gardener_discovery_serve.Reconciler.Openidmeta.Publishable.{HasClaims, HasShoot, IsPublishable}
use gardener_discovery_serve.Reconciler.Openidmeta.Decides.{openid_checks_iff}
use gardener_discovery_serve.Reconciler.Openidmeta.Effects.{
  Reflects, reconcile_frame, reconcile-Reflects, reconcile_error,
}
use gardener_discovery_serve.Reconciler.Openidmeta.Served.{
  AllVetted, IsVettedEntry, reconcile_each, reconcile_each-AllVetted,
}
use gardener_discovery_serve.Reconciler.Openidmeta.NilKeySet.{reconcile_nil_key_set}
use gardener_discovery_serve.Tests.Samples.{
  constants, jose, cluster, broken_cluster, req, secret, project, shoot,
}

-- the inputs of the unit tests of `SplitProjectNameAndShootUID`
split_errors :
    (split_project_name_and_shoot_uid (bytes "") ≡ err err_proj_shoot_uid_invalid_format)
    × (split_project_name_and_shoot_uid (bytes "--") ≡ err err_proj_shoot_uid_invalid_format)
    × (split_project_name_and_shoot_uid (bytes "a--") ≡ err err_proj_shoot_uid_invalid_format)
    × (split_project_name_and_shoot_uid (bytes "--a") ≡ err err_proj_shoot_uid_invalid_format)
    × (split_project_name_and_shoot_uid (bytes "foo") ≡ err err_proj_shoot_uid_invalid_format)
    × (split_project_name_and_shoot_uid (bytes "a--b--c") ≡ err err_proj_shoot_uid_invalid_format)
unfolding split_project_name_and_shoot_uid split is_blank ◌==◌
split_errors = (refl, refl, refl, refl, refl, refl)

-- white space of one, two and three bytes is blank
split_blank :
    split_project_name_and_shoot_uid (0x20 ∷ 0xc2 ∷ 0xa0 ∷ 0xe2 ∷ 0x80 ∷ 0x8a ∷ bytes "--u")
    ≡ err err_proj_shoot_uid_invalid_format
unfolding split_project_name_and_shoot_uid split is_blank ◌==◌
split_blank = refl

split_foo : split_project_name_and_shoot_uid (bytes "foo--u1") ≡ ok (bytes "foo", bytes "u1")
unfolding split_project_name_and_shoot_uid split is_blank ◌==◌
split_foo = refl

split_project_iff_example :
    (split_project_name_and_shoot_uid (bytes "foo--u1") ≡ ok (bytes "foo", bytes "u1"))
    ↔ IsKeyOf (bytes "foo") (bytes "u1") (bytes "foo--u1")
split_project_iff_example = split_project_iff (bytes "foo--u1") (bytes "foo") (bytes "u1")

abbrev documents : Data Bytes
documents = record { config = bytes "{}"; jwks = bytes "keys" }

abbrev good : Cluster (Unit {0})
good = cluster (bytes "u1") (bytes "keys")

checked : check_all constants jose good req ≡ pass documents
unfolding check_all check_secret check_shoot check_documents load_open_id_config load_key_set lookup
    ◌==◌ has_prefix split_project_name_and_shoot_uid split is_blank
checked = refl

openid_checks_iff_example :
    (check_all constants jose good req ≡ pass documents)
    ↔ IsPublishable constants jose good req documents
openid_checks_iff_example = openid_checks_iff constants jose good req documents

-- a store with an entry of another name
abbrev before : Map (Data Bytes)
before = (bytes "other", documents) ∷ []

published :
    reconcile constants jose map_api 30 good req before
    ≡ (insert (bytes "foo--u1") documents before, requeue_after 30)
unfolding reconcile
published = rw checked

reconcile-Reflects_example :
    Reflects constants jose map_api 30 good req
      (reconcile constants jose map_api 30 good req before).0
reconcile-Reflects_example =
    reconcile-Reflects constants jose map_api 30 good req before 30 (rw published)

foo_not_other : bytes "foo--u1" ≢ bytes "other"
unfolding ◌==◌
foo_not_other e = cc ((eq_iff (bytes "foo--u1") (bytes "other")).1 e)

other_key_kept :
    lookup (bytes "other") (reconcile constants jose map_api 30 good req before).0
    ≡ lookup (bytes "other") before
other_key_kept =
    reconcile_frame constants jose map_api 30 good req before (bytes "other") foo_not_other

broken_fails :
    (n : ℕ) → (reconcile constants jose map_api 30 broken_cluster req before).1 ≢ requeue_after n
unfolding reconcile check_all check_secret
broken_fails n e = cc

reconcile_error_example : (reconcile constants jose map_api 30 broken_cluster req before).0 ≡ before
reconcile_error_example =
    reconcile_error constants jose map_api 30 broken_cluster req before broken_fails

abbrev history : List (Cluster (Unit {0}) × NamespacedName)
history = (good, req) ∷ (broken_cluster, req) ∷ []

nothing_stored : AllVetted {S = Map (Data Bytes)} jose map_api []
unfolding lookup
nothing_stored key d found = absurd (cc)

history_serves :
    lookup (bytes "foo--u1") (reconcile_each constants jose map_api 30 history []) ≡ some documents
unfolding reconcile_each reconcile check_all check_secret check_shoot check_documents
    load_open_id_config load_key_set lookup insert remove ◌==◌ has_prefix
    split_project_name_and_shoot_uid split is_blank
history_serves = refl

reconcile_each-AllVetted_example : IsVettedEntry jose (bytes "foo--u1") documents
reconcile_each-AllVetted_example =
    reconcile_each-AllVetted constants jose map_api 30 history [] nothing_stored (bytes "foo--u1")
      documents history_serves

abbrev with_null : Cluster (Unit {0})
with_null = cluster (bytes "u1") (bytes "null")

abbrev null_claims : Claims
null_claims = record {
  config = bytes "{}";
  jwks = bytes "null";
  project = bytes "foo";
  shoot = record { namespace = bytes "garden-foo"; name = bytes "bar" };
  shoot_uid = bytes "u1";
}

has_null_claims : HasClaims constants with_null req null_claims
unfolding lookup ◌==◌
has_null_claims = record {
  secret = secret (bytes "null");
  found_secret = refl;
  alive = refl;
  has_config = refl;
  config_present = λ e. ground arith;
  has_jwks = refl;
  jwks_present = λ e. ground arith;
  is_public = refl;
  has_project = refl;
  has_shoot_name = refl;
  has_shoot_namespace = refl;
  named = split_project_sound _ _ _ split_foo;
}

has_null_shoot : HasShoot constants with_null null_claims
unfolding lookup ◌==◌
has_null_shoot = record {
  project = project;
  shoot = shoot (bytes "u1");
  found_project = refl;
  owns_namespace = refl;
  found_shoot = refl;
  same_uid = refl;
  managed = refl;
}

reconcile_nil_key_set_example :
    reconcile constants jose map_api 30 with_null req before ≡ (before, panicked)
unfolding load_open_id_config has_prefix ◌==◌
reconcile_nil_key_set_example =
    reconcile_nil_key_set constants jose map_api 30 with_null req null_claims
      (record { issuer = bytes "https://a"; jwks_uri = bytes "https://b" }) before has_null_claims
      has_null_shoot refl refl refl refl
