-- ===== src/Handler/Workloadidentity/Accepts.antt =====
-- Which documents `New` of internal/handler/workloadidentity/handler.go accepts, and what the
-- handler made of them serves.
use gardener_discovery_serve.Common.{
  ◌≡◌, ◌↔◌, refl, sym, ap, ◌∙◌, true, Option, none, some, List, [], ◌∷◌, Bytes, ◌==◌, eq→≡, eq_refl,
  All, arith,
}
use gardener_discovery_serve.Common.Results.{
  Result, ok, Ensures, Ensures-wrap, Ensures-require, Ensures-bind, Ensures-ok,
}
use gardener_discovery_serve.Utils.Load.{Jose, OpenIdMetadata, load_key_set, load_open_id_config}
use gardener_discovery_serve.Handler.Workloadidentity.{
  Url, WorkloadHandler, https_scheme, check_public, check_key_set, new_handler,
}

module _ {JsonError UrlError Key : Type 0} (jose : Jose JsonError Key)
    (parse : Bytes → Result UrlError Url) where
  -- The issuer and the key set address are https URLs, the issuer has no query and no fragment, and
  -- every key is public.
  pub record IsAcceptable (open_id_config jwks : Bytes) : Type 0 where
    pub conf : OpenIdMetadata
    pub issuer_url : Url
    pub jwks_url : Url
    pub keys : List Key
    pub reads_config : load_open_id_config jose open_id_config ≡ ok conf
    pub parses_issuer : parse conf.issuer ≡ ok issuer_url
    pub https_issuer : issuer_url.scheme ≡ https_scheme
    pub no_query : issuer_url.raw_query ≡ []
    pub no_fragment : issuer_url.fragment ≡ []
    pub parses_jwks_uri : parse conf.jwks_uri ≡ ok jwks_url
    pub https_jwks : jwks_url.scheme ≡ https_scheme
    pub reads_keys : load_key_set jose jwks ≡ ok (some keys)
    pub public_keys : All (λ k. jose.is_public k ≡ true) keys

  check_public-All :
      (keys : List Key) (u : Unit {0})
      → check_public {UrlError = UrlError} jose keys ≡ ok u
      → All (λ k. jose.is_public k ≡ true) keys
  unfolding check_public
  check_public-All [] u h = tt
  check_public-All (k ∷ keys) u h = ground (arith, check_public-All keys u)

  key_set_public :
      (key_set : Option (List Key)) (u : Unit {0})
      → check_key_set {UrlError = UrlError} jose key_set ≡ ok u
      → (keys : List Key) × (key_set ≡ some keys) × All (λ k. jose.is_public k ≡ true) keys
  key_set_public none u h = absurd (cc)
  key_set_public (some keys) u h = (keys, refl, check_public-All keys u h)

  -- What a handler that was made holds.
  abbrev IsMade : Bytes → Bytes → WorkloadHandler → Type 0
  IsMade open_id_config jwks h =
      (h ≡ record { oidc = open_id_config; jwks = jwks }) × IsAcceptable open_id_config jwks

  new_handler-IsMade :
      (open_id_config jwks : Bytes)
      → Ensures (new_handler jose parse open_id_config jwks) (IsMade open_id_config jwks)
  unfolding new_handler
  new_handler-IsMade open_id_config jwks =
      Ensures-wrap _ (load_open_id_config jose open_id_config) _ λ conf reads_config.
        Ensures-wrap _ (parse conf.issuer) _ λ issuer_url parses_issuer.
          Ensures-require (issuer_url.scheme == https_scheme) _ _ λ scheme.
            Ensures-require (issuer_url.raw_query == []) _ _ λ query.
              Ensures-require (issuer_url.fragment == []) _ _ λ fragment.
                Ensures-wrap _ (parse conf.jwks_uri) _ λ jwks_url parses_jwks_uri.
                  Ensures-require (jwks_url.scheme == https_scheme) _ _ λ jwks_scheme.
                    Ensures-wrap _ (load_key_set jose jwks) _ λ key_set reads.
                      Ensures-bind (check_key_set jose key_set) _ λ u checked.
                        let (keys, is_keys, public) = key_set_public key_set u checked in
                        Ensures-ok _ (
                          refl,
                          record {
                            conf = conf;
                            issuer_url = issuer_url;
                            jwks_url = jwks_url;
                            keys = keys;
                            reads_config = reads_config;
                            parses_issuer = parses_issuer;
                            https_issuer = eq→≡ _ _ scheme;
                            no_query = eq→≡ _ _ query;
                            no_fragment = eq→≡ _ _ fragment;
                            parses_jwks_uri = parses_jwks_uri;
                            https_jwks = eq→≡ _ _ jwks_scheme;
                            reads_keys = rw (← is_keys) reads;
                            public_keys = public;
                          },
                        )

  check_public_complete :
      (keys : List Key)
      → All (λ k. jose.is_public k ≡ true) keys
      → check_public {UrlError = UrlError} jose keys ≡ ok tt
  unfolding check_public
  check_public_complete [] h = refl
  check_public_complete (k ∷ keys) h = ground (arith, check_public_complete keys h.1)

  new_handler_complete :
      (open_id_config jwks : Bytes)
      → IsAcceptable open_id_config jwks
      → new_handler jose parse open_id_config jwks
        ≡ ok (record { oidc = open_id_config; jwks = jwks })
  unfolding new_handler
  new_handler_complete open_id_config jwks h =
      rw
        (
          h.reads_config, h.parses_issuer, h.https_issuer, eq_refl, h.no_query, eq_refl,
          h.no_fragment, eq_refl, h.parses_jwks_uri, h.https_jwks, eq_refl, h.reads_keys,
        )
        (rw (check_public_complete h.keys h.public_keys))

  -- `New` makes a handler of exactly the acceptable documents, and the handler holds them unchanged.
  pub new_handler_iff :
      (open_id_config jwks : Bytes) (h : WorkloadHandler)
      → (new_handler jose parse open_id_config jwks ≡ ok h)
        ↔ ((h ≡ record { oidc = open_id_config; jwks = jwks }) × IsAcceptable open_id_config jwks)
  new_handler_iff open_id_config jwks h = (
    (new_handler-IsMade open_id_config jwks).at h,
    λ (e, a). new_handler_complete open_id_config jwks a ∙ ap ok (sym e),
  )
