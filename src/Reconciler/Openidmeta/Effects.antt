-- ===== src/Reconciler/Openidmeta/Effects.antt =====
-- What a reconciliation of internal/reconciler/openidmeta does to the store, and what any sequence
-- of reconciliations leaves in it.
use gardener_discovery_serve.Common.{
  ℕ, ◌≡◌, ◌≢◌, ◌⊎◌, inl, inr, refl, ◌∙◌, false, none, some, Bytes, ◌==◌, eq_refl, eq_iff, arith,
}
use gardener_discovery_serve.Utils.Load.{Jose}
use gardener_discovery_serve.Store.Api.{Api}
use gardener_discovery_serve.Store.Openidmeta.{Data}
use gardener_discovery_serve.Reconciler.{
  NamespacedName, Cluster, Constants, requeue_after, Check, pass, drop, abort, panic,
}
use gardener_discovery_serve.Reconciler.Openidmeta.{check_all, settle, reconcile}
use gardener_discovery_serve.Reconciler.Openidmeta.Publishable.{IsPublishable}
use gardener_discovery_serve.Reconciler.Openidmeta.Decides.{openid_checks_iff}

module _ {E JsonError Key S : Type 0} (constants : Constants) (jose : Jose JsonError Key)
    (api : Api (Data Bytes) S) (resync_period : ℕ) where
  read-settle_ne :
      (name j : Bytes) (c : Check E (Data Bytes)) (s : S)
      → (name == j) ≡ false
      → api.read j (settle constants jose api resync_period name c s).0 ≡ api.read j s
  read-settle_ne name j (pass d) s n = rw (api.read-write name j d s, n)
  read-settle_ne name j drop s n = rw (api.read-delete name j s, n)
  read-settle_ne name j (abort e) s n = refl
  read-settle_ne name j panic s n = refl

  -- A reconciliation changes what is stored under the name of its request and under no other key.
  pub reconcile_frame :
      (cluster : Cluster E) (req : NamespacedName) (s : S) (j : Bytes)
      → req.name ≢ j
      → api.read j (reconcile constants jose api resync_period cluster req s).0 ≡ api.read j s
  unfolding reconcile
  reconcile_frame cluster req s j n =
      read-settle_ne req.name j (check_all constants jose cluster req) s
        (ground (arith, eq_iff req.name j))

  read-settle_eq :
      (name : Bytes) (c : Check E (Data Bytes)) (s t : S)
      → api.read name s ≡ api.read name t
      → api.read name (settle constants jose api resync_period name c s).0
        ≡ api.read name (settle constants jose api resync_period name c t).0
  read-settle_eq name (pass d) s t h =
      rw (api.read-write name name d s, api.read-write name name d t, h)
  read-settle_eq name drop s t h = rw (api.read-delete name name s, api.read-delete name name t, h)
  read-settle_eq name (abort e) s t h = h
  read-settle_eq name panic s t h = h

  -- What is stored under the name of the request afterwards depends on nothing else in the store.
  pub reconcile_own :
      (cluster : Cluster E) (req : NamespacedName) (s t : S)
      → api.read req.name s ≡ api.read req.name t
      → api.read req.name (reconcile constants jose api resync_period cluster req s).0
        ≡ api.read req.name (reconcile constants jose api resync_period cluster req t).0
  unfolding reconcile
  reconcile_own cluster req s t h =
      read-settle_eq req.name (check_all constants jose cluster req) s t h

  -- The store says of the name what the cluster says.
  abbrev pub Reflects : Cluster E → NamespacedName → S → Type 0
  Reflects cluster req s =
      ((d : Data Bytes) × IsPublishable constants jose cluster req d
        × (api.read req.name s ≡ some d))
      ⊎ (((d : Data Bytes) → ¬ IsPublishable constants jose cluster req d)
          × (api.read req.name s ≡ none))

  settle-Reflects :
      (cluster : Cluster E) (req : NamespacedName) (c : Check E (Data Bytes)) (s : S) (n : ℕ)
      → check_all constants jose cluster req ≡ c
      → (settle constants jose api resync_period req.name c s).1 ≡ requeue_after n
      → Reflects cluster req (settle constants jose api resync_period req.name c s).0
  settle-Reflects cluster req (pass d) s n e h = inl (
    d,
    (openid_checks_iff constants jose cluster req d).0 e,
    api.read-write req.name req.name d s ∙ (rw (eq_refl req.name)),
  )
  settle-Reflects cluster req drop s n e h = inr (
    λ d p. cc (e, (openid_checks_iff constants jose cluster req d).1 p),
    api.read-delete req.name req.name s ∙ (rw (eq_refl req.name)),
  )
  settle-Reflects cluster req (abort x) s n e h = absurd (cc)
  settle-Reflects cluster req panic s n e h = absurd (cc)

  -- After a reconciliation that returns without an error, the store holds the documents under the
  -- request's name if they may be published, and nothing if they may not.
  pub reconcile-Reflects :
      (cluster : Cluster E) (req : NamespacedName) (s : S) (n : ℕ)
      → (reconcile constants jose api resync_period cluster req s).1 ≡ requeue_after n
      → Reflects cluster req (reconcile constants jose api resync_period cluster req s).0
  unfolding reconcile
  reconcile-Reflects cluster req s n h =
      settle-Reflects cluster req (check_all constants jose cluster req) s n refl h

  settle_error :
      (name : Bytes) (c : Check E (Data Bytes)) (s : S)
      → ((n : ℕ) → (settle constants jose api resync_period name c s).1 ≢ requeue_after n)
      → (settle constants jose api resync_period name c s).0 ≡ s
  settle_error name (pass d) s h = absurd (h resync_period refl)
  settle_error name drop s h = absurd (h 0 refl)
  settle_error name (abort e) s h = refl
  settle_error name panic s h = refl

  -- A reconciliation that fails or panics leaves the whole store as it was.
  pub reconcile_error :
      (cluster : Cluster E) (req : NamespacedName) (s : S)
      → ((n : ℕ) → (reconcile constants jose api resync_period cluster req s).1 ≢ requeue_after n)
      → (reconcile constants jose api resync_period cluster req s).0 ≡ s
  unfolding reconcile
  reconcile_error cluster req s = settle_error req.name (check_all constants jose cluster req) s
