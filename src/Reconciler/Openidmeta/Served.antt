-- ===== src/Reconciler/Openidmeta/Served.antt =====
-- What any sequence of reconciliations of internal/reconciler/openidmeta leaves in the store.
use mathlib.Core.Path.{subst₂}
use gardener_discovery_serve.Common.{
  ℕ, ◌≡◌, inl, inr, refl, Bool-cases, some, List, [], ◌∷◌, Bytes, ◌==◌, eq→≡,
}
use gardener_discovery_serve.Utils.Split.{IsKeyOf}
use gardener_discovery_serve.Utils.Load.{Jose}
use gardener_discovery_serve.Store.Api.{Api}
use gardener_discovery_serve.Store.Openidmeta.{Data}
use gardener_discovery_serve.Reconciler.{
  NamespacedName, Cluster, Constants, Check, pass, drop, abort, panic,
}
use gardener_discovery_serve.Reconciler.Openidmeta.{check_all, settle, reconcile}
use gardener_discovery_serve.Reconciler.Openidmeta.Publishable.{IsVetted, IsPublishable}
use gardener_discovery_serve.Reconciler.Openidmeta.Decides.{openid_checks_iff}

module _ {JsonError Key : Type 0} (jose : Jose JsonError Key) where
  -- What is stored is vetted, and stored under a key of the form `projectName--shootUID`.
  abbrev pub IsVettedEntry : Bytes → Data Bytes → Type 0
  IsVettedEntry key d = IsVetted jose d × ((p : Bytes) × (u : Bytes) × IsKeyOf p u key)

module _ {JsonError Key S : Type 0} (jose : Jose JsonError Key) (api : Api (Data Bytes) S) where
  abbrev pub AllVetted : S → Type 0
  AllVetted s = (key : Bytes) (d : Data Bytes) → api.read key s ≡ some d → IsVettedEntry jose key d

module _ {E JsonError Key S : Type 0} (constants : Constants) (jose : Jose JsonError Key)
    (api : Api (Data Bytes) S) (resync_period : ℕ) where
  -- Reconciliations one after the other, each with what the API server answers at its time.
  unfoldable pub reconcile_each : List (Cluster E × NamespacedName) → S → S
  unfolding reconcile
  reconcile_each [] s = s
  reconcile_each ((cluster, req) ∷ rest) s =
      reconcile_each rest (reconcile constants jose api resync_period cluster req s).0

  publishable-IsVettedEntry :
      (cluster : Cluster E) (req : NamespacedName) (d : Data Bytes)
      → IsPublishable constants jose cluster req d
      → IsVettedEntry jose req.name d
  publishable-IsVettedEntry cluster req d p =
      (p.vetted_data, (p.claims.project, p.claims.shoot_uid, p.has_claims.named))

  settle-AllVetted :
      (cluster : Cluster E) (req : NamespacedName) (c : Check E (Data Bytes)) (s : S)
      → check_all constants jose cluster req ≡ c
      → AllVetted jose api s
      → AllVetted jose api (settle constants jose api resync_period req.name c s).0
  settle-AllVetted cluster req (pass d) s e all key x found = elim (Bool-cases (req.name == key)) [
    | inl same ↦
        let is_d : some d ≡ some x = cc (api.read-write req.name key d s, same, found) in
        let ok_d =
          publishable-IsVettedEntry cluster req d
            ((openid_checks_iff constants jose cluster req d).0 e) in
        subst₂ (IsVettedEntry jose) (eq→≡ req.name key same) (cc) ok_d
    | inr other ↦ all key x (cc (api.read-write req.name key d s, other, found))
  ]
  settle-AllVetted cluster req drop s e all key x found = elim (Bool-cases (req.name == key)) [
    | inl same ↦ absurd (cc (api.read-delete req.name key s, same, found))
    | inr other ↦ all key x (cc (api.read-delete req.name key s, other, found))
  ]
  settle-AllVetted cluster req (abort x) s e all key d found = all key d found
  settle-AllVetted cluster req panic s e all key d found = all key d found

  -- From a store that holds only vetted data, an empty one for instance, any sequence of
  -- reconciliations leads to one: every configuration that is served can be read and names https
  -- addresses, every key set that is served holds public and valid keys only.
  pub reconcile_each-AllVetted :
      (l : List (Cluster E × NamespacedName)) (s : S)
      → AllVetted jose api s
      → AllVetted jose api (reconcile_each l s)
  unfolding reconcile_each
  reconcile_each-AllVetted [] s all key d found = all key d found
  reconcile_each-AllVetted ((cluster, req) ∷ rest) s all key d found =
      reconcile_each-AllVetted rest _
        (settle-AllVetted cluster req (check_all constants jose cluster req) s refl all) key d found
