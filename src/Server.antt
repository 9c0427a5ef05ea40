-- ===== src/Server.antt =====
-- The parts together: what the handlers of internal/handler send to a client after the reconcilers of
-- internal/reconciler have filled the stores that they share (cmd/discovery-server/app/app.go passes
-- one store to both).
use gardener_discovery_serve.Common.{
  ℕ, ◌≡◌, refl, ap, ◌∙◌, Bool, true, false, Option, none, some, List, Bytes, Map, lookup, arith,
}
use gardener_discovery_serve.Utils.Load.{Jose}
use gardener_discovery_serve.Store.Api.{Api}
use gardener_discovery_serve.Store.Openidmeta.{Data as OpenidmetaData}
use gardener_discovery_serve.Store.Certificate.{Data as CertificateData}
use gardener_discovery_serve.Handler.{header_cache_control, header_hsts}
use gardener_discovery_serve.Handler.Http.{Request, ResponseWriter, fresh}
use gardener_discovery_serve.Handler.Laws.{
  IsReply, served, verdict, code_of, body_of, requested_key,
}
use gardener_discovery_serve.Handler.Openidmeta.{
  OpenidmetaHandler, handle_open_id_configuration, handle_jwks, handlers-IsReply,
}
use gardener_discovery_serve.Handler.Certificate.{
  CertificateHandler, handle_ca_bundle, handle_ca_bundle-IsReply,
}
use gardener_discovery_serve.Reconciler.{NamespacedName, Cluster, Constants}
use gardener_discovery_serve.Reconciler.Openidmeta.Served.{
  AllVetted, IsVettedEntry, reconcile_each, reconcile_each-AllVetted,
}
use gardener_discovery_serve.Reconciler.Certificate.{Libraries, Reconciler}
use gardener_discovery_serve.Reconciler.Certificate.Blocks.{Shrinks}
use gardener_discovery_serve.Reconciler.Certificate.Served as CaServed
use gardener_discovery_serve.Reconciler.Certificate.Served.{IsCaEntry, AllCa, reconcile_each-AllCa}

-- Only what is stored is sent with a 200.
verdict_ok :
    {T : Type 0} (allowed valid : Bool) (stored : Option T)
    → code_of (verdict allowed valid stored) ≡ 200
    → (d : T) × (stored ≡ some d) × (verdict allowed valid stored ≡ served d)
verdict_ok false valid stored h = absurd (omega arith)
verdict_ok true false stored h = absurd (omega arith)
verdict_ok true true none h = absurd (omega arith)
verdict_ok true true (some d) h = (d, refl, refl)

code_of_status :
    {code : ℕ} {cache : Option Bytes} {body : Bytes} {w : ResponseWriter}
    → IsReply code cache body w
    → w.status ≡ some 200
    → code ≡ 200
code_of_status reply h = cc (reply.status, h)

module _ {E JsonError Key S : Type 0} (constants : Constants) (jose : Jose JsonError Key)
    (api : Api (OpenidmetaData Bytes) S) (resync_period : ℕ) (valid_uuid : Bytes → Bool) where
  -- the handler over the store that the reconciliations leave
  abbrev pub openid_handler : List (Cluster E × NamespacedName) → S → OpenidmetaHandler
  openid_handler l s = record {
    store = λ key. api.read key (reconcile_each constants jose api resync_period l s);
  }

  -- After any sequence of reconciliations from a store of vetted data, and where the response
  -- starts with no HSTS and no caching header, a request whose configuration is answered with a 200
  -- gets the two documents of one vetted entry from the two endpoints, stored under the project and
  -- the UID of the request.
  pub openid_endpoints-IsVettedEntry :
      (l : List (Cluster E × NamespacedName)) (s : S) (r : Request) (header : Map Bytes)
      → AllVetted jose api s
      → lookup header_hsts header ≡ none
      → lookup header_cache_control header ≡ none
      → (handle_open_id_configuration valid_uuid (openid_handler l s) r (fresh header)).status
        ≡ some 200
      → (d : OpenidmetaData Bytes) × IsVettedEntry jose (requested_key r) d
        × ((handle_open_id_configuration valid_uuid (openid_handler l s) r (fresh header)).body
            ≡ d.config)
        × ((handle_jwks valid_uuid (openid_handler l s) r (fresh header)).body ≡ d.jwks)
  openid_endpoints-IsVettedEntry l s r header all no_hsts no_cache h =
      let (config_reply, jwks_reply) =
        handlers-IsReply valid_uuid (openid_handler l s) r header no_hsts no_cache in
      let (d, stored, is_served) = verdict_ok _ _ _ (code_of_status config_reply h) in
      (
        d,
        reconcile_each-AllVetted constants jose api resync_period l s all (requested_key r) d
            stored,
        config_reply.content ∙ ap (body_of (λ d. d.config)) is_served,
        jwks_reply.content ∙ ap (body_of (λ d. d.jwks)) is_served,
      )

module _ {E S : Type 0} (api : Api (CertificateData Bytes) S) (libraries : Libraries E)
    (resync_period : ℕ) (constants : Constants) (shrinks : Shrinks libraries)
    (valid_uuid : Bytes → Bool) where
  abbrev pub ca_handler : List (Cluster E × NamespacedName) → Reconciler S → CertificateHandler
  ca_handler l r = record {
    store = λ key.
        api.read key
          (CaServed.reconcile_each api libraries resync_period constants shrinks l r).store;
  }

  -- Where pem.Decode returns a rest shorter than what it was given, after any sequence of
  -- reconciliations from a store of CA bundles, and where the response starts with no HSTS and no
  -- caching header, the body of a 200 of `/cluster-ca` is the payload of a bundle of the project
  -- and the UID of the request, and every block of the bundle is a certificate of a CA.
  pub ca_endpoint-IsCaEntry :
      (l : List (Cluster E × NamespacedName)) (r : Reconciler S) (q : Request) (header : Map Bytes)
      → AllCa libraries api r.store
      → lookup header_hsts header ≡ none
      → lookup header_cache_control header ≡ none
      → (handle_ca_bundle valid_uuid (ca_handler l r) q (fresh header)).status ≡ some 200
      → IsCaEntry libraries (requested_key q) (record {
        ca_bundle = (handle_ca_bundle valid_uuid (ca_handler l r) q (fresh header)).body;
      })
  ca_endpoint-IsCaEntry l r q header all no_hsts no_cache h =
      let reply = handle_ca_bundle-IsReply valid_uuid (ca_handler l r) q header no_hsts no_cache in
      let (d, stored, is_served) = verdict_ok _ _ _ (code_of_status reply h) in
      rw (reply.content, is_served)
        (reconcile_each-AllCa api libraries resync_period constants shrinks l r all
          (requested_key q) d stored)
