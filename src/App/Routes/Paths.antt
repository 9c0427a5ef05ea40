-- ===== src/App/Routes/Paths.antt =====
-- Which paths the patterns of cmd/discovery-server/app/app.go stand for.
use mathlib.Core.Option
use gardener_discovery_serve.Common.{
  ◌≡◌, ◌≢◌, refl, inl, inr, false, Bool-cases, Option, none, some, List, [], ◌∷◌, Bytes, bytes,
  ◌==◌, eq→≡, eq_refl, Option-cases, eq_iff, Map, insert, arith,
}
use gardener_discovery_serve.App.Routes.{
  oid_config_path, jwks_path, ca_path, workload_identity_open_id_config_path,
  workload_identity_jwks_path,
}
use gardener_discovery_serve.App.Mux.{
  Segment, literal, wildcard, has_gap, parse_pattern, match_path,
}

-- What a request may ask of the server.
pub data Route : Type 0 where
  oid_config : Bytes → Bytes → Route
  jwks : Bytes → Bytes → Route
  cluster_ca : Bytes → Bytes → Route
  workload_config : Route
  workload_jwks : Route

-- The segments of its path.
abbrev pub path_of : Route → List Bytes
path_of (oid_config p u) =
    bytes "projects"
    ∷ p
    ∷ bytes "shoots"
    ∷ u
    ∷ bytes "issuer"
    ∷ bytes ".well-known"
    ∷ bytes "openid-configuration"
    ∷ []
path_of (jwks p u) = bytes "projects" ∷ p ∷ bytes "shoots" ∷ u ∷ bytes "issuer" ∷ bytes "jwks" ∷ []
path_of (cluster_ca p u) = bytes "projects" ∷ p ∷ bytes "shoots" ∷ u ∷ bytes "cluster-ca" ∷ []
path_of workload_config =
    bytes "garden"
    ∷ bytes "workload-identity"
    ∷ bytes "issuer"
    ∷ bytes ".well-known"
    ∷ bytes "openid-configuration"
    ∷ []
path_of workload_jwks =
    bytes "garden" ∷ bytes "workload-identity" ∷ bytes "issuer" ∷ bytes "jwks" ∷ []

-- No segment inside a clean path is empty.
abbrev pub IsClean : Route → Type 0
IsClean (oid_config p u) = (p ≢ []) × (u ≢ [])
IsClean (jwks p u) = (p ≢ []) × (u ≢ [])
IsClean (cluster_ca p u) = (p ≢ []) × (u ≢ [])
IsClean _ = Unit

-- A path that a pattern matches: literals are equal, wildcards are not empty.
abbrev Fills : List Segment → List Bytes → Map Bytes → Type 0
Fills [] [] m = m ≡ []
Fills [] (s ∷ path) m = ⊥
Fills (p ∷ rest) [] m = ⊥
Fills (literal l ∷ rest) (s ∷ path) m = (l ≡ s) × Fills rest path m
Fills (wildcard name ∷ rest) (s ∷ path) m =
    (s ≢ []) × ((m' : Map Bytes) × (m ≡ insert name s m') × Fills rest path m')

map-eq-some :
    (f : Map Bytes → Map Bytes) (o : Option (Map Bytes)) (m : Map Bytes)
    → Option.map f o ≡ some m
    → (m' : Map Bytes) × (o ≡ some m') × (m ≡ f m')
map-eq-some f none m h = absurd (cc)
map-eq-some f (some m') m h = (m', refl, cc)

match_path_sound :
    (pattern_segments : List Segment) (path : List Bytes) (m : Map Bytes)
    → match_path pattern_segments path ≡ some m
    → Fills pattern_segments path m
unfolding match_path
match_path_sound [] [] m h = cc
match_path_sound [] (s ∷ path) m h = absurd (cc)
match_path_sound (p ∷ rest) [] m h = absurd (cc)
match_path_sound (literal l ∷ rest) (s ∷ path) m h = elim (Bool-cases (l == s)) [
  | inl same ↦ (eq→≡ l s same, match_path_sound rest path m (rw same at h))
  | inr differs ↦ absurd (cc (h, differs))
]
match_path_sound (wildcard name ∷ rest) (s ∷ path) m h = elim (Bool-cases (s == [])) [
  | inl empty ↦ absurd (cc (h, empty))
  | inr there ↦
      let (m', found, is_m) =
        map-eq-some (insert name s) (match_path rest path) m (rw there at h) in
      (λ e. cc ((eq_iff s []).1 e, there), (m', is_m, match_path_sound rest path m' found))
]

-- the values that a shoot's path gives to the two wildcards
abbrev pub shoot_values : Bytes → Bytes → Map Bytes
shoot_values p u = insert (bytes "projectName") p (insert (bytes "shootUID") u [])

-- What a path is that a pattern for shoots matches, by what follows the UID.
abbrev pub IsShootPath : List Bytes → List Bytes → Map Bytes → Type 0
IsShootPath suffix path m =
    (p : Bytes) × (u : Bytes) × (p ≢ [])
    × (u ≢ [])
    × (path ≡ bytes "projects" ∷ p ∷ bytes "shoots" ∷ u ∷ suffix)
    × (m ≡ shoot_values p u)

abbrev pub literals : List Bytes → List Segment
literals [] = []
literals (s ∷ suffix) = literal s ∷ literals suffix

Fills-literals :
    (suffix path : List Bytes) (m : Map Bytes)
    → Fills (literals suffix) path m
    → (path ≡ suffix) × (m ≡ [])
Fills-literals [] [] m h = (refl, h)
Fills-literals [] (s ∷ path) m h = elim h [ ]
Fills-literals (l ∷ suffix) [] m h = elim h [ ]
Fills-literals (l ∷ suffix) (s ∷ path) m (same, h) =
    let (same_rest, is_m) = Fills-literals suffix path m h in (cc (same, same_rest), is_m)

abbrev pub shoot_pattern : List Bytes → List Segment
shoot_pattern suffix =
    literal (bytes "projects")
    ∷ wildcard (bytes "projectName")
    ∷ literal (bytes "shoots")
    ∷ wildcard (bytes "shootUID")
    ∷ literals suffix

Fills-IsShootPath :
    (suffix path : List Bytes) (m : Map Bytes)
    → Fills (shoot_pattern suffix) path m
    → IsShootPath suffix path m
Fills-IsShootPath suffix [] m h = elim h [ ]
Fills-IsShootPath suffix (a ∷ []) m (ha, h) = elim h [ ]
Fills-IsShootPath suffix (a ∷ p ∷ []) m (ha, (hp, (m', e, h))) = elim h [ ]
Fills-IsShootPath suffix (a ∷ p ∷ b ∷ []) m (ha, (hp, (m', e, (hb, h)))) = elim h [ ]
Fills-IsShootPath suffix (a ∷ p ∷ b ∷ u ∷ path) m (ha, (hp, (m', e, (hb, (hu, (m'', e', h)))))) =
    let (same, is_nil) = Fills-literals suffix path m'' h in
    (p, u, hp, hu, cc (ha, hb, same), cc (e, e', is_nil))

pub IsShootPath-sound :
    (suffix path : List Bytes) (m : Map Bytes)
    → match_path (shoot_pattern suffix) path ≡ some m
    → IsShootPath suffix path m
IsShootPath-sound suffix path m h = Fills-IsShootPath suffix path m (match_path_sound _ path m h)

pub literals_sound :
    (suffix path : List Bytes) (m : Map Bytes)
    → match_path (literals suffix) path ≡ some m
    → (path ≡ suffix) × (m ≡ [])
literals_sound suffix path m h = Fills-literals suffix path m (match_path_sound _ path m h)

pub no_match :
    (pattern_segments : List Segment) (path : List Bytes)
    → ((m : Map Bytes) → match_path pattern_segments path ≢ some m)
    → match_path pattern_segments path ≡ none
no_match pattern_segments path h = elim (Option-cases (match_path pattern_segments path)) [
  | inl e ↦ e
  | inr (m, e) ↦ absurd (h m e)
]

pub literals_complete : (suffix : List Bytes) → match_path (literals suffix) suffix ≡ some []
unfolding match_path
literals_complete [] = refl
literals_complete (s ∷ suffix) = rw (eq_refl s) (literals_complete suffix)

abbrev pub shoot_path : List Bytes → Bytes → Bytes → List Bytes
shoot_path suffix p u = bytes "projects" ∷ p ∷ bytes "shoots" ∷ u ∷ suffix

not_empty : (s : Bytes) → s ≢ [] → (s == []) ≡ false
not_empty s h = ground (arith, eq_iff s [])

pub shoot_path_complete :
    (suffix : List Bytes) (p u : Bytes)
    → p ≢ []
    → u ≢ []
    → match_path (shoot_pattern suffix) (shoot_path suffix p u) ≡ some (shoot_values p u)
unfolding match_path
shoot_path_complete suffix p u hp hu = rw (
  eq_refl (bytes "projects"),
  eq_refl (bytes "shoots"),
  not_empty p hp,
  not_empty u hu,
  literals_complete suffix,
)

pub shoot_path_differs :
    (suffix suffix' : List Bytes) (p u : Bytes)
    → suffix ≢ suffix'
    → match_path (shoot_pattern suffix) (shoot_path suffix' p u) ≡ none
shoot_path_differs suffix suffix' p u h = no_match _ _ λ m e.
    let (p', u', hp, hu, same, _) = IsShootPath-sound suffix (shoot_path suffix' p u) m e in
    h (cc same)

-- The path of a route is clean as it stands.
pub path_of_lem : (route : Route) → IsClean route → has_gap (path_of route) ≡ false
unfolding ◌==◌
path_of_lem (oid_config p u) (hp, hu) = rw (not_empty p hp, not_empty u hu)
path_of_lem (jwks p u) (hp, hu) = rw (not_empty p hp, not_empty u hu)
path_of_lem (cluster_ca p u) (hp, hu) = rw (not_empty p hp, not_empty u hu)
path_of_lem workload_config clean = refl
path_of_lem workload_jwks clean = refl

-- The five patterns, parsed.
abbrev pub config_suffix : List Bytes
config_suffix = bytes "issuer" ∷ bytes ".well-known" ∷ bytes "openid-configuration" ∷ []

abbrev pub jwks_suffix : List Bytes
jwks_suffix = bytes "issuer" ∷ bytes "jwks" ∷ []

pub parsed_shoot_patterns :
    (parse_pattern oid_config_path ≡ shoot_pattern config_suffix)
    × (parse_pattern jwks_path ≡ shoot_pattern jwks_suffix)
    × (parse_pattern ca_path ≡ shoot_pattern (bytes "cluster-ca" ∷ []))
unfolding parse_pattern
parsed_shoot_patterns = (refl, refl, refl)

pub parsed_workload_patterns :
    (parse_pattern workload_identity_open_id_config_path ≡ literals (path_of workload_config))
    × (parse_pattern workload_identity_jwks_path ≡ literals (path_of workload_jwks))
unfolding parse_pattern
parsed_workload_patterns = (refl, refl)
