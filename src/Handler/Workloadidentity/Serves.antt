-- ===== src/Handler/Workloadidentity/Serves.antt =====
-- What a handler of internal/handler/workloadidentity/handler.go that was made serves.
use gardener_discovery_serve.Common.{
  ◌≡◌, inl, inr, true, Bool-cases, none, some, [], ◌∷◌, Bytes, Map, lookup,
}
use gardener_discovery_serve.Common.Results.{Result, ok}
use gardener_discovery_serve.Utils.Load.{Jose}
use gardener_discovery_serve.Handler.{header_cache_control, header_hsts, set_hsts, allow_methods}
use gardener_discovery_serve.Handler.Http.{Request, ResponseWriter, method_get, method_head, fresh}
use gardener_discovery_serve.Handler.Laws.{
  IsReply, IsReady, IsReady-set_hsts, on_read_found-IsReply, reply_error-IsReply, allow_methods_lem,
  is_one_of, verdict, code_of, cache_of, body_of,
}
use gardener_discovery_serve.Handler.Workloadidentity.{
  Url, WorkloadHandler, new_handler, handle_request, handle_open_id_configuration, handle_jwks,
}
use gardener_discovery_serve.Handler.Workloadidentity.Accepts.{new_handler_iff}

module _ (document : Bytes) (r : Request) where
  -- The method alone decides between the document and a 405.
  abbrev pub IsDocument : ResponseWriter → Type 0
  IsDocument w =
      let v = verdict (is_one_of (method_get ∷ method_head ∷ []) r.method) true (some document) in
      IsReply (code_of v) (cache_of v) (body_of (λ d. d) v) w

  handle_request-IsDocument :
      (w : ResponseWriter)
      → IsReady w
      → IsDocument (allow_methods (handle_request document) (method_get ∷ method_head ∷ []) r w)
  unfolding handle_request
  handle_request-IsDocument w h =
      elim (Bool-cases (is_one_of (method_get ∷ method_head ∷ []) r.method)) [
        | inl allowed ↦
            rw (allow_methods_lem, allowed) (on_read_found-IsReply (λ d. d) document r w h)
        | inr refused ↦ rw (allow_methods_lem, refused) (reply_error-IsReply _ _ r w h)
      ]

-- Where the response starts with no HSTS and no caching header, a handler that `New` made answers a
-- GET or HEAD request with the very document that it was given, the configuration at the one
-- endpoint and the key set at the other, and any other method with a 405; every answer has the HSTS
-- header and is JSON, and only the documents may be cached.
pub new_handler-IsDocument :
    {JsonError UrlError Key : Type 0} (jose : Jose JsonError Key)
    (parse : Bytes → Result UrlError Url) (open_id_config jwks : Bytes) (h : WorkloadHandler)
    (r : Request) (header : Map Bytes)
    → new_handler jose parse open_id_config jwks ≡ ok h
    → lookup header_hsts header ≡ none
    → lookup header_cache_control header ≡ none
    → IsDocument open_id_config r (handle_open_id_configuration h r (fresh header))
      × IsDocument jwks r (handle_jwks h r (fresh header))
unfolding handle_open_id_configuration handle_jwks set_hsts
new_handler-IsDocument jose parse open_id_config jwks h r header made no_hsts no_cache =
    let same = ((new_handler_iff jose parse open_id_config jwks h).0 made).0 in
    let ready = IsReady-set_hsts header no_hsts no_cache in
    rw same
      (handle_request-IsDocument open_id_config r _ ready, handle_request-IsDocument jwks r _ ready)
