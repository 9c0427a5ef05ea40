-- ===== src/Store/Writers/Kept.antt =====
-- What a call of another goroutine leaves alone: the copies that a call of `Write` of
-- internal/store/store.go has made and not yet inserted.
use gardener_discovery_serve.Common.{
  ◌≤◌, ◌≡◌, refl, false, Option, none, some, inl, inr, Bool-cases, [], ◌∷◌, lookup, ◌==◌, All,
  All-map, length, arith,
}
use gardener_discovery_serve.Store.{copy_found}
use gardener_discovery_serve.Store.Memory.{Slice, M}
use gardener_discovery_serve.Store.DeepCopy.{DeepCopy}
use gardener_discovery_serve.Store.World.{
  World, Action, alloc, poke_byte, write_key, read_key, delete_key, apply, act, Allowed, view,
  change, IsSeparate, store_of,
}
use gardener_discovery_serve.Store.Isolation.{IsOwn, act-IsSeparate, view-act, copied-IsSeparate}
use gardener_discovery_serve.Store.Writers.{IsAtomic}

module _ {T V : Type 0} (c : T → M T) (deep : DeepCopy T V c) where
  -- No caller has a reference to an array of the datum.
  abbrev pub IsOwnData : World T → T → Type 0
  IsOwnData w d = All (IsOwn c deep w) (deep.footprint d)

  -- The world with one entry.
  abbrev alone : World T → T → World T
  alone w d = record w { entries = ([], d) ∷ [] }

  alone-IsSeparate :
      (w : World T) (d : T) → IsSeparate c deep w → IsOwnData w d → IsSeparate c deep (alone w d)
  unfolding lookup
  alone-IsSeparate w d sep own = record {
    known_made = sep.known_made;
    entries_own = λ k x e. elim (Bool-cases ([] == k)) [
      | inl same ↦ let is_x : d ≡ x = cc (e, same) in rw (← is_x) own
      | inr differs ↦ absurd (cc (e, differs))
    ];
  }

  alone_own : (w : World T) (d : T) → IsSeparate c deep (alone w d) → IsOwnData w d
  unfolding lookup ◌==◌
  alone_own w d sep = sep.entries_own [] d refl

  -- A datum that no caller knows stays so, with its value, under all calls but `Write`.
  abbrev pub IsKept : World T → World T → T → Type 0
  IsKept w w' d = IsOwnData w' d × (deep.value d w'.heap ≡ deep.value d w.heap)

  alone_value :
      (w w' : World T) (d : T)
      → view c deep (alone w' d) [] ≡ view c deep (alone w d) []
      → deep.value d w'.heap ≡ deep.value d w.heap
  unfolding lookup ◌==◌
  alone_value w w' d h = cc

  pub act-IsKept :
      (a : Action T) (w : World T) (d : T)
      → IsAtomic a
      → IsSeparate c deep w
      → Allowed c deep a w
      → IsOwnData w d
      → IsKept w (act c deep a w) d
  unfolding act change apply
  act-IsKept (alloc b) w d at sep al own =
      let one = alone-IsSeparate w d sep own in
      (
        alone_own (act c deep (alloc b) w) d (act-IsSeparate c deep (alloc b) (alone w d) one tt),
        alone_value w (act c deep (alloc b) w) d (view-act c deep (alloc b) (alone w d) [] one tt),
      )
  act-IsKept (poke_byte s i v) w d at sep al own =
      let one = alone-IsSeparate w d sep own in
      (
        alone_own (act c deep (poke_byte s i v) w) d
            (act-IsSeparate c deep (poke_byte s i v) (alone w d) one al),
        alone_value w (act c deep (poke_byte s i v) w) d
            (view-act c deep (poke_byte s i v) (alone w d) [] one al),
      )
  act-IsKept (write_key k x) w d at sep al own = elim at [ ]
  act-IsKept (read_key k) w d at sep al own = (
    alone_own (act c deep (read_key k) w) d
        (copied-IsSeparate c deep (lookup k w.entries) (alone w d) (alone-IsSeparate w d sep own)),
    read_kept (lookup k w.entries),
  )
    where
      read_kept :
          (o : Option T)
          → deep.value d (copy_found (store_of c deep w) o w.heap).1 ≡ deep.value d w.heap
      read_kept none = refl
      read_kept (some x) =
          deep.local d w.heap (c x w.heap).1
            (All-map _ _ (deep.footprint d) (λ a p. (deep.extends x w.heap).keeps a p.1) own)
  act-IsKept (delete_key k) w d at sep al own = (own, refl)

  abbrev pub grown : World T → T → World T
  grown w x = record w { heap = (c x w.heap).1 }

  pub grown-IsKept : (w : World T) (x d : T) → IsOwnData w d → IsKept w (grown w x) d
  grown-IsKept w x d own = (
    All-map _ _ (deep.footprint d) (λ a p. (p.0, omega (arith, p.1, (deep.extends x w.heap).grows)))
        own,
    deep.local d w.heap (c x w.heap).1
        (All-map _ _ (deep.footprint d) (λ a p. (deep.extends x w.heap).keeps a p.1) own),
  )

  pub grown-IsSeparate : (w : World T) (x : T) → IsSeparate c deep w → IsSeparate c deep (grown w x)
  grown-IsSeparate w x sep = record {
    known_made = λ a n. omega (arith, sep.known_made a n, (deep.extends x w.heap).grows);
    entries_own = λ k d e. (grown-IsKept w x d (sep.entries_own k d e)).0;
  }

  pub copied_own :
      (w : World T) (x : T) → IsSeparate c deep w → IsOwnData (grown w x) (c x w.heap).0
  copied_own w x sep =
      All-map _ _ (deep.footprint (c x w.heap).0) (λ a p. (unknown a p.0, p.1))
        (deep.fresh x w.heap)
    where
      unknown : (a : Slice) → length w.heap ≤ a → w.known a ≡ false
      unknown a l = elim (Bool-cases (w.known a)) [
        | inl n ↦ absurd (omega (arith, sep.known_made a n))
        | inr u ↦ u
      ]
