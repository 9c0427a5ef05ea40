-- ===== src/Handler/Laws.antt =====
-- What the middleware and the handlers of internal/handler/handler.go answer.
use gardener_discovery_serve.Common.{
  ℕ, ◌≡◌, refl, inl, inr, Bool, true, false, ◌||◌, Option, none, some, List, [], ◌∷◌, ◌++◌, Bytes,
  bytes, ◌==◌, if◌then◌else◌, Map, lookup, insert, map_laws, lookup-insert, lookup-nil, arith,
  Bool-cases,
}
use gardener_discovery_serve.Handler.{
  header_cache_control, pub_cache_control, header_content_type, mime_app_json, header_hsts,
  hsts_value, response_invalid_uid, response_method_not_allowed, response_not_found, set_hsts,
  store_methods, allow_methods, not_found, on_read, reply_error, store_request,
}
use gardener_discovery_serve.Handler.Http.{
  Request, ResponseWriter, Handler, path_value, get_header, set_header, fresh, method_get,
  method_head, write_body_first, write_body-write_header,
}

-- What went to the client.
pub record IsReply (code : ℕ) (cache : Option Bytes) (body : Bytes) (w : ResponseWriter)
    : Type 0 where
  pub status : w.status ≡ some code
  pub hsts : lookup header_hsts w.sent ≡ some hsts_value
  pub content_type : lookup header_content_type w.sent ≡ some mime_app_json
  pub cache_control : lookup header_cache_control w.sent ≡ cache
  pub content : w.body ≡ body

-- A response writer that holds the HSTS header, has sent nothing, and says nothing about caches.
pub record IsReady (w : ResponseWriter) : Type 0 where
  pub status : w.status ≡ none
  pub body : w.body ≡ []
  pub broken : w.broken ≡ false
  pub hsts : lookup header_hsts w.header ≡ some hsts_value
  pub uncached : lookup header_cache_control w.header ≡ none

pub IsReady-set_hsts :
    (header : Map Bytes)
    → lookup header_hsts header ≡ none
    → lookup header_cache_control header ≡ none
    → IsReady (
        if get_header header_hsts (fresh header) == []
        then set_header header_hsts hsts_value (fresh header)
        else fresh header)
unfolding get_header set_header ◌==◌
IsReady-set_hsts header h k = rw h (record {
  status = refl;
  body = refl;
  broken = refl;
  hsts = simp map_laws;
  uncached = simp map_laws k;
})

pub reply_error-IsReply :
    (code : ℕ) (body : Bytes) (r : Request) (w : ResponseWriter)
    → IsReady w
    → IsReply code none body (reply_error code body r w)
unfolding set_header ◌==◌
reply_error-IsReply code body r w h =
    rw
      (write_body-write_header (set_header header_content_type mime_app_json w) body h.status h.body
        h.broken code)
      (record {
        status = refl;
        hsts = simp map_laws h.hsts;
        content_type = simp map_laws;
        cache_control = simp map_laws h.uncached;
        content = refl;
      })

pub on_read_found-IsReply :
    {T : Type 0} (get_content : T → Bytes) (d : T) (r : Request) (w : ResponseWriter)
    → IsReady w
    → IsReply 200 (some pub_cache_control) (get_content d) (on_read get_content (some d) r w)
unfolding set_header ◌==◌
on_read_found-IsReply get_content d r w h =
    rw
      (write_body_first
        (set_header header_content_type mime_app_json
          (set_header header_cache_control pub_cache_control w))
        (get_content d) h.status h.body h.broken)
      (record {
        status = refl;
        hsts = simp map_laws h.hsts;
        content_type = simp map_laws;
        cache_control = simp map_laws;
        content = refl;
      })

-- The request's method is one of the list.
abbrev pub is_one_of : List Bytes → Bytes → Bool
is_one_of [] m = false
is_one_of (a ∷ rest) m = a == m || is_one_of rest m

lookup-store_methods :
    (allowed : List Bytes) (m : Bytes) (acc : Map (Unit {0}))
    → lookup m (store_methods allowed acc) ≡ (if is_one_of allowed m then some tt else lookup m acc)
unfolding store_methods
lookup-store_methods [] m acc = refl
lookup-store_methods (a ∷ rest) m acc =
    ground (arith, lookup-store_methods rest m (insert a tt acc), lookup-insert a m tt acc)

-- The next handler runs for exactly the methods of the list; the others get a 405.
pub allow_methods_lem :
    (next : Handler) (allowed : List Bytes) (r : Request) (w : ResponseWriter)
    → allow_methods next allowed r w ≡ (
        if is_one_of allowed r.method
        then next r w
        else reply_error 405 response_method_not_allowed r w)
unfolding allow_methods
allow_methods_lem next allowed r w = elim (Bool-cases (is_one_of allowed r.method)) [
  | inl yes_allowed ↦ rw (lookup-store_methods allowed r.method [], yes_allowed)
  | inr refused ↦ rw (lookup-store_methods allowed r.method [], refused, lookup-nil)
]

-- The endpoint of a shoot, as `HandleCABundle` and its like compose it.
abbrev pub endpoint : {T : Type 0} → (Bytes → Bool) → (Bytes → Option T) → (T → Bytes) → Handler
endpoint valid_uuid read get_content =
    set_hsts
      (allow_methods (store_request valid_uuid read get_content) (method_get ∷ method_head ∷ []))

-- The key that a request asks for.
abbrev pub requested_key : Request → Bytes
requested_key r =
    path_value (bytes "projectName") r ++ bytes "--" ++ path_value (bytes "shootUID") r

-- What a request to an endpoint comes to.
pub data Verdict (T : Type 0) : Type 0 where
  bad_method : Verdict T
  bad_uid : Verdict T
  nothing_stored : Verdict T
  served : T → Verdict T

abbrev pub verdict : {T : Type 0} → Bool → Bool → Option T → Verdict T
verdict false valid stored = bad_method
verdict true false stored = bad_uid
verdict true true none = nothing_stored
verdict true true (some d) = served d

abbrev pub code_of : {T : Type 0} → Verdict T → ℕ
code_of bad_method = 405
code_of bad_uid = 400
code_of nothing_stored = 404
code_of (served d) = 200

abbrev pub cache_of : {T : Type 0} → Verdict T → Option Bytes
cache_of (served d) = some pub_cache_control
cache_of _ = none

abbrev pub body_of : {T : Type 0} → (T → Bytes) → Verdict T → Bytes
body_of get_content bad_method = response_method_not_allowed
body_of get_content bad_uid = response_invalid_uid
body_of get_content nothing_stored = response_not_found
body_of get_content (served d) = get_content d

module _ {T : Type 0} (valid_uuid : Bytes → Bool) (read : Bytes → Option T)
    (get_content : T → Bytes) where
  -- What the request comes to: by its method, its UID and what is stored under its key.
  abbrev pub request_verdict : Request → Verdict T
  request_verdict r =
      verdict (is_one_of (method_get ∷ method_head ∷ []) r.method)
        (valid_uuid (path_value (bytes "shootUID") r)) (read (requested_key r))

  abbrev IsAnswer : Verdict T → ResponseWriter → Type 0
  IsAnswer v w = IsReply (code_of v) (cache_of v) (body_of get_content v) w

  on_read-IsAnswer :
      (stored : Option T) (r : Request) (w : ResponseWriter)
      → IsReady w
      → IsAnswer (verdict true true stored) (on_read get_content stored r w)
  unfolding not_found
  on_read-IsAnswer none r w h = reply_error-IsReply _ _ r w h
  on_read-IsAnswer (some d) r w h = on_read_found-IsReply get_content d r w h

  store_request-IsAnswer :
      (r : Request) (w : ResponseWriter)
      → IsReady w
      → IsAnswer
          (verdict true (valid_uuid (path_value (bytes "shootUID") r)) (read (requested_key r)))
          (store_request valid_uuid read get_content r w)
  unfolding store_request
  store_request-IsAnswer r w h = elim (Bool-cases (valid_uuid (path_value (bytes "shootUID") r))) [
    | inl valid ↦ rw valid (on_read-IsAnswer _ r w h)
    | inr invalid ↦ rw invalid (reply_error-IsReply _ _ r w h)
  ]

  allow_methods-IsAnswer :
      (r : Request) (w : ResponseWriter)
      → IsReady w
      → IsAnswer (request_verdict r) (
          allow_methods
            (store_request valid_uuid read get_content)
            (method_get ∷ method_head ∷ [])
            r
            w)
  allow_methods-IsAnswer r w h =
      elim (Bool-cases (is_one_of (method_get ∷ method_head ∷ []) r.method)) [
        | inl allowed ↦ rw (allow_methods_lem, allowed) (store_request-IsAnswer r w h)
        | inr refused ↦ rw (allow_methods_lem, refused) (reply_error-IsReply _ _ r w h)
      ]

  -- Where the response starts with no HSTS and no caching header, a request to a shoot's endpoint is
  -- answered with the HSTS header and JSON: 405 where the method is neither GET nor HEAD, 400 where
  -- the UID does not parse, 404 where nothing is stored under `projectName--shootUID`, and else 200
  -- with the stored content, the one answer with a caching header.
  pub endpoint-IsReply :
      (r : Request) (header : Map Bytes)
      → lookup header_hsts header ≡ none
      → lookup header_cache_control header ≡ none
      → IsReply
          (code_of (request_verdict r))
          (cache_of (request_verdict r))
          (body_of get_content (request_verdict r))
          (endpoint valid_uuid read get_content r (fresh header))
  unfolding set_hsts
  endpoint-IsReply r header no_hsts no_cache =
      allow_methods-IsAnswer r _ (IsReady-set_hsts header no_hsts no_cache)
