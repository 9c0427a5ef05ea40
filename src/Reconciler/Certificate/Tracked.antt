-- ===== src/Reconciler/Certificate/Tracked.antt =====
-- The mapping of internal/reconciler/certificate beside the store: where every config map stands for
-- one entry and every entry for one config map, the two have the same entries.
use gardener_discovery_serve.Common.{
  different, differ, ◌≡◌, ◌≢◌, ◌⊎◌, inl, inr, sym, ap, ◌∙◌, Bool-cases, Option, none, some, [],
  Bytes, ◌==◌, eq→≡, eq_refl, Map, lookup, insert, remove, lookup-insert, lookup-remove, lookup-nil,
  if◌then◌else◌,
}
use gardener_discovery_serve.Store.Api.{Api}
use gardener_discovery_serve.Store.Certificate.{Data}
use gardener_discovery_serve.Reconciler.Certificate.{or_empty}

-- What a map has after an insertion, and after a removal.
module _ {V : Type 0} (k j : Bytes) (o : Option V) (w : V) where
  pub after_insert :
      (v : V)
      → (if k == j then some v else o) ≡ some w
      → ((k ≡ j) × (v ≡ w)) ⊎ ((k ≢ j) × (o ≡ some w))
  after_insert v h = elim (Bool-cases (k == j)) [
    | inl same ↦ let e = rw same at h in inl (eq→≡ k j same, cc e)
    | inr other ↦ inr (different k j other, rw other at h)
  ]

  pub after_remove : (if k == j then none else o) ≡ some w → (k ≢ j) × (o ≡ some w)
  after_remove h = elim (Bool-cases (k == j)) [
    | inl same ↦ let e = rw same at h in absurd (cc e)
    | inr other ↦ (different k j other, rw other at h)
  ]

module _ {S : Type 0} (api : Api (Data Bytes) S) (keys : Bytes → Bytes) where
  -- What is mapped is mapped to its own key, which is not empty, and is stored; what is stored is
  -- mapped.
  pub record Tracked (m : Map Bytes) (s : S) : Type 0 where
    pub keyed : (map_key key : Bytes) → lookup map_key m ≡ some key → key ≡ keys map_key
    pub present : (map_key key : Bytes) → lookup map_key m ≡ some key → key ≢ []
    pub stored :
        (map_key key : Bytes)
        → lookup map_key m ≡ some key
        → (d : Data Bytes) × (api.read key s ≡ some d)
    pub owned :
        (key : Bytes) (d : Data Bytes)
        → api.read key s ≡ some d
        → (map_key : Bytes) × (lookup map_key m ≡ some key)

  pub Tracked-empty : (s : S) → ((key : Bytes) → api.read key s ≡ none) → Tracked [] s
  Tracked-empty s empty = record {
    keyed = λ map_key key h. absurd (cc (lookup-nil {V = Bytes} map_key, h));
    present = λ map_key key h. absurd (cc (lookup-nil {V = Bytes} map_key, h));
    stored = λ map_key key h. absurd (cc (lookup-nil {V = Bytes} map_key, h));
    owned = λ key d h. absurd (cc (empty key, h));
  }

  module _ (injective : (x y : Bytes) → keys x ≡ keys y → x ≡ y) where
    pub Tracked-create :
        (map_key : Bytes) (d : Data Bytes) (m : Map Bytes) (s : S)
        → keys map_key ≢ []
        → Tracked m s
        → Tracked (insert map_key (keys map_key) m) (api.write (keys map_key) d s)
    Tracked-create map_key d m s there t = record {
      keyed = λ j key h. elim (inserted j key h) [
        | inl (is_j, is_key) ↦ cc (ap keys is_j, is_key)
        | inr (_, before) ↦ t.keyed j key before
      ];
      present = λ j key h. elim (inserted j key h) [
        | inl (is_j, is_key) ↦ λ e. there (is_key ∙ e)
        | inr (_, before) ↦ t.present j key before
      ];
      stored = λ j key h. elim (inserted j key h) [
        | inl (is_j, is_key) ↦
            (d, api.read-write (keys map_key) key d s ∙ (rw (is_key, eq_refl key)))
        | inr (not_j, before) ↦
            let (d', was) = t.stored j key before in
            let is_other : keys map_key ≢ key =
              λ e. not_j (injective map_key j (e ∙ t.keyed j key before)) in
            (d', api.read-write (keys map_key) key d s ∙ (rw (differ _ _ is_other) was))
      ];
      owned = λ key d' h.
          elim (after_insert (keys map_key) key (api.read key s) d' d
            (sym (api.read-write (keys map_key) key d s) ∙ h)) [
              | inl (is_key, _) ↦
                  (map_key, lookup-insert map_key map_key _ m ∙ (rw (eq_refl map_key, is_key)))
              | inr (not_key, was) ↦
                  let (j, mapped) = t.owned key d' was in
                  let not_j : map_key ≢ j = λ e. not_key (ap keys e ∙ sym (t.keyed j key mapped)) in
                  (j, lookup-insert map_key j _ m ∙ (rw (differ _ _ not_j) mapped))
            ];
    }
      where
        inserted :
            (j key : Bytes)
            → lookup j (insert map_key (keys map_key) m) ≡ some key
            → ((map_key ≡ j) × (keys map_key ≡ key)) ⊎ ((map_key ≢ j) × (lookup j m ≡ some key))
        inserted j key h =
            after_insert map_key j (lookup j m) key (keys map_key)
              (sym (lookup-insert map_key j (keys map_key) m) ∙ h)

    -- What the deletion of one config map's entry takes out is not the entry of another.
    pub deleted_other :
        (map_key : Bytes) (old : Option Bytes) (m : Map Bytes) (s : S)
        → Tracked m s
        → lookup map_key m ≡ old
        → (j key : Bytes) → map_key ≢ j
        → lookup j m ≡ some key
        → or_empty old ≢ key
    deleted_other map_key none m s t is_none j key not_j mapped e = t.present j key mapped (sym e)
    deleted_other map_key (some k) m s t is_some j key not_j mapped e =
        not_j (injective map_key j (sym (t.keyed map_key k is_some) ∙ e ∙ t.keyed j key mapped))

    -- What is deleted: the entry that the config map stands for, or none.
    pub Tracked-delete :
        (map_key : Bytes) (old : Option Bytes) (m : Map Bytes) (s : S)
        → lookup map_key m ≡ old
        → Tracked m s
        → Tracked (remove map_key m) (api.delete (or_empty old) s)
    Tracked-delete map_key old m s is_old t = record {
      keyed = λ j key h. t.keyed j key (removed j key h).1;
      present = λ j key h. t.present j key (removed j key h).1;
      stored = λ j key h.
          let (not_j, before) = removed j key h in
          let (d, was) = t.stored j key before in
          (
            d,
            api.read-delete (or_empty old) key s
                ∙ (rw (differ _ _ (deleted_other map_key old m s t is_old j key not_j before)) was),
          );
      owned = λ key d h.
          let (not_key, was) =
            after_remove (or_empty old) key (api.read key s) d
              (sym (api.read-delete (or_empty old) key s) ∙ h) in
          let (j, mapped) = t.owned key d was in
          (
            j,
            lookup-remove map_key j m
                ∙ (rw
                    (differ _ _
                      (λ e. not_key (ap or_empty (sym is_old ∙ ap (λ x. lookup x m) e ∙ mapped))))
                    mapped),
          );
    }
      where
        removed :
            (j key : Bytes)
            → lookup j (remove map_key m) ≡ some key
            → (map_key ≢ j) × (lookup j m ≡ some key)
        removed j key h =
            after_remove map_key j (lookup j m) key (sym (lookup-remove map_key j m) ∙ h)
