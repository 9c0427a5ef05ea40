-- ===== src/App/Routes/Finds.antt =====
-- Which handler of cmd/discovery-server/app/app.go a path leads to.
use mathlib.Core.Option
use gardener_discovery_serve.Common.{
  ◌≡◌, ◌≢◌, refl, sym, ◌∙◌, none, some, List, [], ◌∷◌, Bytes, bytes, Map,
}
use gardener_discovery_serve.App.Mux.{match_path, first_some, find_pattern}
use gardener_discovery_serve.App.Routes.{
  oid_config_path, jwks_path, ca_path, workload_identity_open_id_config_path,
  workload_identity_jwks_path,
}
use gardener_discovery_serve.App.Routes.Paths.{
  Route, oid_config, jwks, cluster_ca, workload_config, workload_jwks, path_of, shoot_values,
  shoot_pattern, literals, config_suffix, jwks_suffix, shoot_path_complete, shoot_path_differs,
  IsShootPath-sound, literals_sound, literals_complete, no_match,
}

-- The values of the wildcards of a route.
abbrev pub values_of : Route → Map Bytes
values_of (oid_config p u) = shoot_values p u
values_of (jwks p u) = shoot_values p u
values_of (cluster_ca p u) = shoot_values p u
values_of _ = []

module _ {H : Type 0} (a b c : H) (rest : List (Bytes × H)) where
  abbrev pub table : List (Bytes × H)
  table = (oid_config_path, a) ∷ (jwks_path, b) ∷ (ca_path, c) ∷ rest

  find_shoot :
      (path : List Bytes)
      → find_pattern table path
        ≡ first_some
            (Option.map (λ values. (values, a)) (match_path (shoot_pattern config_suffix) path))
            (first_some
              (Option.map (λ values. (values, b)) (match_path (shoot_pattern jwks_suffix) path))
              (first_some
                (Option.map
                  (λ values. (values, c))
                  (match_path (shoot_pattern (bytes "cluster-ca" ∷ [])) path))
                (find_pattern rest path)))
  unfolding find_pattern
  find_shoot path = refl

  pub find_oid_config :
      (p u : Bytes)
      → p ≢ []
      → u ≢ []
      → find_pattern table (path_of (oid_config p u)) ≡ some (shoot_values p u, a)
  find_oid_config p u hp hu = rw (find_shoot, shoot_path_complete config_suffix p u hp hu)

  pub find_jwks :
      (p u : Bytes)
      → p ≢ []
      → u ≢ []
      → find_pattern table (path_of (jwks p u)) ≡ some (shoot_values p u, b)
  find_jwks p u hp hu = rw (
    find_shoot,
    shoot_path_differs config_suffix jwks_suffix p u (λ e. cc),
    shoot_path_complete jwks_suffix p u hp hu,
  )

  pub find_cluster_ca :
      (p u : Bytes)
      → p ≢ []
      → u ≢ []
      → find_pattern table (path_of (cluster_ca p u)) ≡ some (shoot_values p u, c)
  find_cluster_ca p u hp hu = rw (
    find_shoot,
    shoot_path_differs config_suffix (bytes "cluster-ca" ∷ []) p u (λ e. cc),
    shoot_path_differs jwks_suffix (bytes "cluster-ca" ∷ []) p u (λ e. cc),
    shoot_path_complete (bytes "cluster-ca" ∷ []) p u hp hu,
  )

  pub find_other :
      (path : List Bytes)
      → ((p u : Bytes) → p ≢ [] → u ≢ [] → path_of (oid_config p u) ≢ path)
      → ((p u : Bytes) → p ≢ [] → u ≢ [] → path_of (jwks p u) ≢ path)
      → ((p u : Bytes) → p ≢ [] → u ≢ [] → path_of (cluster_ca p u) ≢ path)
      → find_pattern table path ≡ find_pattern rest path
  find_other path no_config no_jwks no_ca = rw (
    find_shoot,
    no_match (shoot_pattern config_suffix) path (λ m e.
        let (p, u, hp, hu, same, _) = IsShootPath-sound config_suffix path m e in
        no_config p u hp hu (sym same)),
    no_match (shoot_pattern jwks_suffix) path (λ m e.
        let (p, u, hp, hu, same, _) = IsShootPath-sound jwks_suffix path m e in
        no_jwks p u hp hu (sym same)),
    no_match (shoot_pattern (bytes "cluster-ca" ∷ [])) path (λ m e.
        let (p, u, hp, hu, same, _) = IsShootPath-sound (bytes "cluster-ca" ∷ []) path m e in
        no_ca p u hp hu (sym same)),
  )

module _ {H : Type 0} (a b c d e : H) where
  abbrev pub workload_table : List (Bytes × H)
  workload_table =
      (workload_identity_open_id_config_path, d) ∷ (workload_identity_jwks_path, e) ∷ []

  find_workload_table :
      (path : List Bytes)
      → find_pattern workload_table path
        ≡ first_some
            (Option.map
              (λ values. (values, d))
              (match_path (literals (path_of workload_config)) path))
            (first_some
              (Option.map
                (λ values. (values, e))
                (match_path (literals (path_of workload_jwks)) path))
              none)
  unfolding find_pattern
  find_workload_table path = refl

  pub find_workload_config :
      find_pattern (table a b c workload_table) (path_of workload_config) ≡ some ([], d)
  find_workload_config =
      find_other a b c workload_table (path_of workload_config) (λ p u hp hu e. cc)
        (λ p u hp hu e. cc) (λ p u hp hu e. cc)
      ∙ (rw (find_workload_table, literals_complete))

  jwks_is_no_config : match_path (literals (path_of workload_config)) (path_of workload_jwks) ≡ none
  jwks_is_no_config =
      no_match (literals (path_of workload_config)) (path_of workload_jwks)
        λ m e. cc (literals_sound (path_of workload_config) (path_of workload_jwks) m e).0

  pub find_workload_jwks :
      find_pattern (table a b c workload_table) (path_of workload_jwks) ≡ some ([], e)
  find_workload_jwks =
      find_other a b c workload_table (path_of workload_jwks) (λ p u hp hu e. cc)
        (λ p u hp hu e. cc) (λ p u hp hu e. cc)
      ∙ (rw (find_workload_table, jwks_is_no_config, literals_complete))

  pub find_no_workload :
      (path : List Bytes)
      → path_of workload_config ≢ path
      → path_of workload_jwks ≢ path
      → find_pattern workload_table path ≡ none
  find_no_workload path no_config no_jwks = rw (
    find_workload_table,
    no_match (literals (path_of workload_config)) path
        (λ m e. no_config (sym (literals_sound (path_of workload_config) path m e).0)),
    no_match (literals (path_of workload_jwks)) path
        (λ m e. no_jwks (sym (literals_sound (path_of workload_jwks) path m e).0)),
  )
