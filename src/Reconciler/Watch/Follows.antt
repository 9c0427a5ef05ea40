-- ===== src/Reconciler/Watch/Follows.antt =====
-- The store of the OpenID metadata follows the secrets of the cluster.
use mathlib.Core.Path.{subst}
use gardener_discovery_serve.Common.{
  ℕ, ◌≡◌, ◌≢◌, inl, inr, refl, sym, ◌∙◌, false, Bool, true, ap, if◌then◌else◌, Bool-cases, Bytes,
  ◌==◌, eq→≡, eq_iff, eq_refl,
}
use gardener_discovery_serve.Common.Results.{Result}
use gardener_discovery_serve.Utils.Load.{Jose}
use gardener_discovery_serve.Store.Api.{Api}
use gardener_discovery_serve.Store.Openidmeta.{Data}
use gardener_discovery_serve.Reconciler.{
  GetError, NamespacedName, Secret, Cluster, Constants, requeue_after,
}
use gardener_discovery_serve.Reconciler.Openidmeta.{reconcile}
use gardener_discovery_serve.Reconciler.Openidmeta.Effects.{
  Reflects, reconcile_frame, reconcile-Reflects, reconcile_error,
}
use gardener_discovery_serve.Reconciler.Events.{Event, secret_object, secret_predicate}
use gardener_discovery_serve.Reconciler.Watch.{
  Change, put_secret, on_event, request, Watched, starts, sees, fails, repeats, fails_again,
  others_change, clear,
}
use gardener_discovery_serve.Reconciler.Watch.Filtered.{
  missing_unpublishable, filtered_unpublishable, IsPublishable-put,
}

put_secret_same :
    {E : Type 0} (r : NamespacedName) (answer : Result (GetError E) Secret) (cluster : Cluster E)
    → Cluster.get_secret (put_secret r answer cluster) r ≡ answer
put_secret_same r answer cluster = rw (eq_refl r.namespace, eq_refl r.name)

different : (m name : Bytes) → (m == name) ≡ false → m ≢ name
different m name h e = cc (h, (eq_iff m name).1 e)

-- A name that is another than that of an event.
still_fresh :
    (stale : Bytes → Bool) (other name : Bytes) (through : Bool)
    → (other == name) ≡ false
    → (if through then clear other stale else stale) name ≡ false
    → stale name ≡ false
still_fresh stale other name true differs h = rw differs at h
still_fresh stale other name false differs h = h

module _ {E JsonError Key S : Type 0} (constants : Constants) (jose : Jose JsonError Key)
    (api : Api (Data Bytes) S) (resync_period : ℕ) where
  -- What is stored of a name still reflects the cluster where another secret has changed.
  others-Reflects :
      (get_secret : NamespacedName → Result (GetError E) Secret) (cluster : Cluster E)
      (req : NamespacedName) (s s' : S)
      → get_secret req ≡ cluster.get_secret req
      → api.read req.name s' ≡ api.read req.name s
      → Reflects constants jose api resync_period cluster req s
      → Reflects constants jose api resync_period
          (record cluster { get_secret = get_secret })
          req
          s'
  others-Reflects get_secret cluster req s s' same kept (inl (d, p, stored)) =
      inl (d, IsPublishable-put constants jose get_secret cluster req d same p, kept ∙ stored)
  others-Reflects get_secret cluster req s s' same kept (inr (unpublishable, missing)) = inr (
    λ d p. unpublishable d (
        IsPublishable-put constants jose cluster.get_secret
          (record cluster { get_secret = get_secret }) req d (sym same) p),
    kept ∙ missing,
  )

  -- Of a secret that an event was about.
  on_event-Reflects :
      (before after : Cluster E) (req : NamespacedName) (e : Event) (s : S) (n : ℕ)
      → Change secret_object (before.get_secret req) (after.get_secret req) e
      → (secret_predicate constants e ≡ false
          → Reflects constants jose api resync_period before req s)
      → (on_event constants jose api resync_period e after req s).1 ≡ requeue_after n
      → Reflects constants jose api resync_period after req
          (on_event constants jose api resync_period e after req s).0
  unfolding on_event
  on_event-Reflects before after req e s n change reflects done =
      elim (Bool-cases (secret_predicate constants e)) [
        | inl through ↦
            rw through (
              reconcile-Reflects constants jose api resync_period after req s n
                (rw through at done))
        | inr out ↦
            let (old_out, new_out) =
              filtered_unpublishable constants jose before after req e change out in
            rw out (
              inr (
                new_out,
                elim (reflects out) [
                  | inl (d, p, stored) ↦ absurd (old_out d p)
                  | inr (_, missing) ↦ missing
                ],
              ))
      ]

  -- Of the other secrets.
  on_event_frame :
      (e : Event) (cluster : Cluster E) (req : NamespacedName) (s : S) (j : Bytes)
      → req.name ≢ j
      → api.read j (on_event constants jose api resync_period e cluster req s).0 ≡ api.read j s
  unfolding on_event
  on_event_frame e cluster req s j differs = elim (Bool-cases (secret_predicate constants e)) [
    | inl through ↦
        rw through (reconcile_frame constants jose api resync_period cluster req s j differs)
    | inr out ↦ rw out
  ]

  -- Whatever has happened to the secrets of the namespace, the projects and the shoots since the
  -- start with no secret and an empty store: for a name for which, since its last reconciliation that
  -- succeeded, no reconciliation of an event has failed and no project or shoot has changed, the
  -- store has the documents of the secret of that name if they may be published, and nothing if not.
  pub Watched-Reflects :
      (namespace : Bytes) (cluster : Cluster E) (s : S) (stale : Bytes → Bool) (name : Bytes)
      → Watched constants jose api resync_period namespace cluster s stale
      → stale name ≡ false
      → Reflects constants jose api resync_period cluster (request namespace name) s
  Watched-Reflects namespace cluster s stale name (starts cluster' s' no_secret empty) fresh = inr (
    λ d. missing_unpublishable constants jose cluster (request namespace name) d (no_secret name),
    empty name,
  )
  Watched-Reflects namespace cluster s stale name
        (sees {cluster = before} {s = s0} {stale = stale0} e other after n w change done) fresh =
      let now = put_secret (request namespace other) after before in
      elim (Bool-cases (other == name)) [
        | inl same ↦
            let is_name = eq→≡ other name same in
            subst
              (λ m.
                Reflects constants jose api resync_period now (request namespace m)
                  (on_event constants jose api resync_period e now (request namespace other) s0).0)
              is_name
              (on_event-Reflects before now (request namespace other) e s0 n
                (rw (put_secret_same (request namespace other) after before) change)
                (λ out.
                  Watched-Reflects namespace before s0 stale0 other w
                    (ap stale0 is_name ∙ (rw out at fresh)))
                done)
        | inr differs ↦
            others-Reflects now.get_secret before (request namespace name) s0 _
              (rw (eq_refl namespace, differs))
              (on_event_frame e now (request namespace other) s0 name
                (different other name differs))
              (Watched-Reflects namespace before s0 stale0 name w
                (still_fresh stale0 other name (secret_predicate constants e) differs fresh))
      ]
  Watched-Reflects namespace cluster s stale name
        (fails {cluster = before} {s = s0} {stale = stale0} e other after w change failed) fresh =
      let now = put_secret (request namespace other) after before in
      elim (Bool-cases (other == name)) [
        | inl same ↦ absurd (cc (fresh, same))
        | inr differs ↦
            others-Reflects now.get_secret before (request namespace name) s0 _
              (rw (eq_refl namespace, differs))
              (on_event_frame e now (request namespace other) s0 name
                (different other name differs))
              (Watched-Reflects namespace before s0 stale0 name w (rw differs at fresh))
      ]
  Watched-Reflects namespace cluster s stale name (repeats {s = s0} {stale = stale0} other n w done)
        fresh =
      elim (Bool-cases (other == name)) [
        | inl same ↦
            subst
              (λ m.
                Reflects constants jose api resync_period cluster (request namespace m)
                  (reconcile constants jose api resync_period cluster (request namespace other)
                    s0).0)
              (eq→≡ other name same)
              (reconcile-Reflects constants jose api resync_period cluster (request namespace other)
                s0 n done)
        | inr differs ↦
            others-Reflects cluster.get_secret cluster (request namespace name) s0 _ refl
              (reconcile_frame constants jose api resync_period cluster (request namespace other) s0
                name (different other name differs))
              (Watched-Reflects namespace cluster s0 stale0 name w (rw differs at fresh))
      ]
  Watched-Reflects namespace cluster s stale name (fails_again {s = s0} other w failed) fresh =
      others-Reflects cluster.get_secret cluster (request namespace name) s0 _ refl
        (ap (api.read name) (
          reconcile_error constants jose api resync_period cluster (request namespace other) s0
            failed))
        (Watched-Reflects namespace cluster s0 stale name w fresh)
  Watched-Reflects namespace cluster s stale name (others_change cluster' w same) fresh =
      absurd (cc)
