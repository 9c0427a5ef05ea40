-- ===== src/App/Routes/Fetch.antt =====
-- A GET of a shoot's endpoint, of those that cmd/discovery-server/app/app.go registers.
use gardener_discovery_serve.Common.{
  ◌≡◌, Bool, true, Option, none, ◌++◌, Bytes, bytes, ◌==◌, Map, lookup, map_laws,
}
use gardener_discovery_serve.Handler.{header_cache_control, header_hsts}
use gardener_discovery_serve.Handler.Http.{Request, path_value, method_get, fresh}
use gardener_discovery_serve.Handler.Laws.{
  IsReply, verdict, request_verdict, code_of, cache_of, body_of, endpoint-IsReply, endpoint,
}
use gardener_discovery_serve.App.Routes.Paths.{shoot_values}

shoot_values_lem :
    (p u : Bytes) (r : Request)
    → (path_value (bytes "projectName") (record r { path_values = shoot_values p u }) ≡ p)
      × (path_value (bytes "shootUID") (record r { path_values = shoot_values p u }) ≡ u)
unfolding path_value lookup ◌==◌
shoot_values_lem p u r = (simp map_laws, simp map_laws)

-- A GET of a shoot's endpoint comes to what is stored under its key.
get_verdict :
    {T : Type 0} (valid_uuid : Bytes → Bool) (read : Bytes → Option T) (get_content : T → Bytes)
    (p u : Bytes) (r : Request)
    → r.method ≡ method_get
    → valid_uuid u ≡ true
    → request_verdict valid_uuid read get_content (record r { path_values = shoot_values p u })
      ≡ verdict true true (read (p ++ bytes "--" ++ u))
unfolding ◌==◌
get_verdict valid_uuid read get_content p u r is_get valid =
    let (is_project, is_uid) = shoot_values_lem p u r in rw (is_project, is_uid, is_get, valid)

module _ {T : Type 0} (valid_uuid : Bytes → Bool) (read : Bytes → Option T)
    (get_content : T → Bytes) where
  pub get_endpoint-IsReply :
      (p u : Bytes) (r : Request) (header : Map Bytes) (stored : Option T)
      → read (p ++ bytes "--" ++ u) ≡ stored
      → valid_uuid u ≡ true
      → r.method ≡ method_get
      → lookup header_hsts header ≡ none
      → lookup header_cache_control header ≡ none
      → IsReply
          (code_of (verdict true true stored))
          (cache_of (verdict true true stored))
          (body_of get_content (verdict true true stored))
          (endpoint valid_uuid read get_content
            (record r { path_values = shoot_values p u })
            (fresh header))
  get_endpoint-IsReply p u r header stored e valid is_get no_hsts no_cache =
      rw (← e, ← get_verdict valid_uuid read get_content p u r is_get valid)
        (endpoint-IsReply valid_uuid read get_content (record r { path_values = shoot_values p u })
          header no_hsts no_cache)
