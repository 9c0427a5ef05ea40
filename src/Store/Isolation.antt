-- ===== src/Store/Isolation.antt =====
-- The store of internal/store/store.go holds values of its own: whatever callers do with the slices
-- that they pass in and get back, it stays a map of values.
use mathlib.Core.Option
use mathlib.Core.Path.{fun_ext}
use gardener_discovery_serve.Common.{
  ℕ, ◌<◌, ◌≤◌, ◌≡◌, ◌≢◌, refl, ap, ◌∙◌, true, false, ◌||◌, Option, none, some, inl, inr, Bool-cases,
  length-append, length-set, remove, List, [], ◌∷◌, ◌++◌, Bytes, Map, lookup, ◌==◌, All, All-map,
  length, arith, get_elem?, get_elem?-append_left, get_elem?-set_ne, lookup-insert, lookup-remove,
}
use gardener_discovery_serve.Store.{copy_found}
use gardener_discovery_serve.Store.Memory.{Heap, Slice, M, poke}
use gardener_discovery_serve.Store.DeepCopy.{DeepCopy}
use gardener_discovery_serve.Store.World.{
  World, Action, alloc, poke_byte, write_key, read_key, delete_key, apply, act, Allowed, view, seen,
  change, run, AllAllowed, changes, IsSeparate, contains, footprint_of, store_of,
}

contains_below :
    (l : List Slice) (a n m : ℕ) → All (λ x. (n ≤ x) × (x < m)) l → contains l a ≡ true → a < m
contains_below [] a n m h e = absurd (cc)
contains_below (s ∷ l) a n m h e = ground (arith, contains_below l a n m h.1)

-- What is older than all of the list is not in it.
contains_fresh :
    (l : List Slice) (a n m : ℕ) → All (λ x. (n ≤ x) × (x < m)) l → a < n → contains l a ≡ false
contains_fresh [] a n m h e = refl
contains_fresh (s ∷ l) a n m h e = ground (arith, contains_fresh l a n m h.1 e)

lookup-remove_found :
    {T : Type 0} (k j : Bytes) (x : T) (m : Map T)
    → lookup j (remove k m) ≡ some x
    → lookup j m ≡ some x
lookup-remove_found k j x m e = ground (arith, lookup-remove k j m)

pub length-poke : (s : Slice) (i v : ℕ) (h : Heap) → length (poke s i v h) ≡ length h
unfolding poke
length-poke s i v h = length-set h s _

pub get_elem?-poke :
    (s : Slice) (i v a : ℕ) (h : Heap) → s ≢ a → get_elem? (poke s i v h) a ≡ get_elem? h a
unfolding poke
get_elem?-poke s i v a h n = get_elem?-set_ne h s a _ n

module _ {T V : Type 0} (c : T → M T) (deep : DeepCopy T V c) where
  -- A heap that keeps the arrays of the store keeps what the store shows.
  pub view_kept :
      (w : World T) (h : Heap) (j : Bytes)
      → IsSeparate c deep w
      → ((a : Slice) → w.known a ≡ false → a < length w.heap → get_elem? h a ≡ get_elem? w.heap a)
      → view c deep (record w { heap = h }) j ≡ view c deep w j
  view_kept w h j sep kept = go (lookup j w.entries) refl
    where
      go :
          (o : Option T)
          → lookup j w.entries ≡ o
          → Option.map (λ d. deep.value d h) o ≡ Option.map (λ d. deep.value d w.heap) o
      go none e = refl
      go (some d) e = ap some (
          deep.local d w.heap h
            (All-map _ _ (deep.footprint d) (λ a p. kept a p.0 p.1) (sep.entries_own j d e)))

  abbrev pub IsOwn : World T → Slice → Type 0
  IsOwn w a = (w.known a ≡ false) × (a < length w.heap)

  -- Arrays that are made later belong to no entry, and what the store copies is its own.
  write-IsSeparate :
      (k : Bytes) (d : T) (w : World T)
      → IsSeparate c deep w
      → IsSeparate c deep (act c deep (write_key k d) w)
  unfolding act
  write-IsSeparate k d w sep = record {
    known_made = λ a n. omega (arith, sep.known_made a n, (deep.extends d w.heap).grows);
    entries_own = λ j x e. elim (Bool-cases (k == j)) [
      | inl same ↦
          let e' = lookup-insert k j (c d w.heap).0 w.entries in
          let found : (c d w.heap).0 ≡ x = cc (e', same) in
          rw (← found) (All-map _ _ _ (λ a p. (unknown a p.0, p.1)) (deep.fresh d w.heap))
      | inr other ↦
          let e' = lookup-insert k j (c d w.heap).0 w.entries in
          All-map _ _ _ (λ a p. (p.0, omega (arith, p.1, (deep.extends d w.heap).grows)))
            (sep.entries_own j x (rw (e', other) at e))
    ];
  }
    where
      unknown : (a : Slice) → length w.heap ≤ a → w.known a ≡ false
      unknown a l = elim (Bool-cases (w.known a)) [
        | inl n ↦ absurd (omega (arith, sep.known_made a n))
        | inr u ↦ u
      ]

  pub copied-IsSeparate :
      (o : Option T) (w : World T)
      → IsSeparate c deep w
      → IsSeparate c deep (record w {
        heap = (copy_found (store_of c deep w) o w.heap).1;
        known = λ a.
            contains (footprint_of deep.footprint (copy_found (store_of c deep w) o w.heap).0) a
            || w.known a;
      })
  copied-IsSeparate none w sep = record {
    known_made = sep.known_made;
    entries_own = sep.entries_own;
  }
  copied-IsSeparate (some d) w sep = record {
    known_made = λ a n. ground (
      arith,
      sep.known_made a,
      (deep.extends d w.heap).grows,
      contains_below (deep.footprint (c d w.heap).0) a _ _ (deep.fresh d w.heap),
    );
    entries_own = λ j x e.
        All-map _ _ _
          (λ a p. (
            rw (contains_fresh (deep.footprint (c d w.heap).0) a _ _ (deep.fresh d w.heap) p.1) p.0,
            omega (arith, p.1, (deep.extends d w.heap).grows),
          ))
          (sep.entries_own j x e);
  }

  pub act-IsSeparate :
      (a : Action T) (w : World T)
      → IsSeparate c deep w
      → Allowed c deep a w
      → IsSeparate c deep (act c deep a w)
  unfolding act
  act-IsSeparate (alloc b) w sep al = record {
    known_made = λ a k. ground (arith, length-append w.heap (b ∷ []), sep.known_made a);
    entries_own = λ k d e.
        All-map _ _ _ (λ a p. ground (arith, length-append w.heap (b ∷ []), p.0, p.1))
          (sep.entries_own k d e);
  }
  act-IsSeparate (poke_byte s i v) w sep al = record {
    known_made = λ a k. omega (arith, sep.known_made a k, length-poke s i v w.heap);
    entries_own = λ k d e.
        All-map _ _ _ (λ a p. (p.0, omega (arith, p.1, length-poke s i v w.heap)))
          (sep.entries_own k d e);
  }
  act-IsSeparate (write_key k d) w sep al = write-IsSeparate k d w sep
  act-IsSeparate (read_key k) w sep al = copied-IsSeparate (lookup k w.entries) w sep
  act-IsSeparate (delete_key k) w sep al = record {
    known_made = sep.known_made;
    entries_own = λ j x e. sep.entries_own j x (lookup-remove_found k j x w.entries e);
  }

  -- Reading, writing to slices and making new ones leave the values; `Write` and `Delete` change
  -- the value of their key and no other.
  pub view-act :
      (a : Action T) (w : World T) (j : Bytes)
      → IsSeparate c deep w
      → Allowed c deep a w
      → view c deep (act c deep a w) j ≡ apply (change c deep a w) (view c deep w) j
  unfolding act change apply
  view-act (alloc b) w j sep al =
      view_kept w (w.heap ++ (b ∷ [])) j sep (λ a u l. get_elem?-append_left w.heap (b ∷ []) a l)
  view-act (poke_byte s i v) w j sep al =
      view_kept w (poke s i v w.heap) j sep
        (λ a u l. get_elem?-poke s i v a w.heap (λ e. cc (ap w.known e)))
  view-act (write_key k d) w j sep al = elim (Bool-cases (k == j)) [
    | inl same ↦
        rw (lookup-insert k j (c d w.heap).0 w.entries, same)
          (ap some
            (deep.same d w.heap (All-map _ _ (deep.footprint d) (λ a n. sep.known_made a n) al)))
    | inr other ↦
        rw (lookup-insert k j (c d w.heap).0 w.entries, other)
          (view_kept w (c d w.heap).1 j sep (λ a u l. (deep.extends d w.heap).keeps a l))
  ]
  view-act (read_key k) w j sep al = read_kept (lookup k w.entries)
    where
      read_kept :
          (o : Option T)
          → view c deep (record w { heap = (copy_found (store_of c deep w) o w.heap).1 }) j
            ≡ view c deep w j
      read_kept none = refl
      read_kept (some d) =
          view_kept w (c d w.heap).1 j sep (λ a u l. (deep.extends d w.heap).keeps a l)
  view-act (delete_key k) w j sep al = elim (Bool-cases (k == j)) [
    | inl same ↦ rw (lookup-remove k j w.entries, same)
    | inr other ↦ rw (lookup-remove k j w.entries, other)
  ]

  -- `Read` returns the value that the store holds.
  pub seen-view :
      (k : Bytes) (w : World T) → IsSeparate c deep w → seen c deep k w ≡ view c deep w k
  unfolding seen
  seen-view k w sep = go (lookup k w.entries) refl
    where
      go :
          (o : Option T)
          → lookup k w.entries ≡ o
          → Option.map
              (λ d. deep.value d (copy_found (store_of c deep w) o w.heap).1)
              (copy_found (store_of c deep w) o w.heap).0
            ≡ Option.map (λ d. deep.value d w.heap) o
      go none e = refl
      go (some d) e =
          ap some (
            deep.same d w.heap
              (All-map _ _ (deep.footprint d) (λ a p. p.1) (sep.entries_own k d e)))

  run-IsSeparate :
      (l : List (Action T)) (w : World T)
      → IsSeparate c deep w
      → AllAllowed c deep l w
      → IsSeparate c deep (run c deep l w)
  unfolding run
  run-IsSeparate [] w sep al = sep
  run-IsSeparate (a ∷ l) w sep al =
      run-IsSeparate l (act c deep a w) (act-IsSeparate a w sep al.0) al.1

  view-run :
      (l : List (Action T)) (w : World T)
      → IsSeparate c deep w
      → AllAllowed c deep l w
      → (j : Bytes) → view c deep (run c deep l w) j ≡ changes c deep l w (view c deep w) j
  unfolding run changes
  view-run [] w sep al j = refl
  view-run (a ∷ l) w sep al j =
      view-run l (act c deep a w) (act-IsSeparate a w sep al.0) al.1 j
      ∙ ap (λ f. changes c deep l (act c deep a w) f j) (fun_ext λ i. view-act a w i sep al.0)

  -- Where no caller has a reference to an array of the store, and after any sequence of actions in
  -- which callers change and hand over only arrays that they have a reference to, a `Read` returns
  -- what the `Write` and `Delete` calls of the sequence make of the map of values, with the value
  -- of a written datum taken when it was written: what callers do to slices, before or after, has
  -- no effect.
  pub seen-run :
      (l : List (Action T)) (w : World T) (j : Bytes)
      → IsSeparate c deep w
      → AllAllowed c deep l w
      → seen c deep j (run c deep l w) ≡ changes c deep l w (view c deep w) j
  seen-run l w j sep al =
      seen-view j (run c deep l w) (run-IsSeparate l w sep al) ∙ view-run l w sep al j
