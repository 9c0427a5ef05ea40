-- ===== src/Store/World.antt =====
-- The store of internal/store/store.go beside the callers that hold byte slices: what a caller may
-- do, and what `Read` would find. Each method runs under the store's lock, so that the calls of
-- several goroutines are a sequence of actions (Writers has the two parts of `Write`); a caller that
-- changes an array while `Write` copies it is a data race of the caller's, and is not modelled.
use mathlib.Core.Option
use gardener_discovery_serve.Common.{
  ℕ, ◌≡◌, Bool, true, false, ◌||◌, ◌<◌, Option, none, some, List, [], ◌∷◌, ◌++◌, Bytes, Map, lookup,
  ◌==◌, All, length, eqb, if◌then◌else◌,
}
use gardener_discovery_serve.Store.{Store, read, write, delete}
use gardener_discovery_serve.Store.Memory.{Heap, Slice, M, poke}
use gardener_discovery_serve.Store.DeepCopy.{DeepCopy}

-- The heap, the entries of a store, and the arrays that some caller has a reference to.
pub record World (T : Type 0) : Type 0 where
  pub heap : Heap
  pub entries : Map T
  pub known : Slice → Bool

pub data Action (T : Type 0) : Type 0 where
  alloc : Bytes → Action T
  poke_byte : Slice → ℕ → ℕ → Action T
  write_key : Bytes → T → Action T
  read_key : Bytes → Action T
  delete_key : Bytes → Action T

abbrev pub contains : List Slice → Slice → Bool
contains [] a = false
contains (s ∷ l) a = eqb s a || contains l a

abbrev pub footprint_of : {T : Type 0} → (T → List Slice) → Option T → List Slice
footprint_of f none = []
footprint_of f (some d) = f d

-- What an action does to the map of plain values that a client of the store has in mind.
pub data Change (V : Type 0) : Type 0 where
  unchanged : Change V
  wrote : Bytes → V → Change V
  deleted : Bytes → Change V

unfoldable pub apply : {V : Type 0} → Change V → (Bytes → Option V) → Bytes → Option V
apply unchanged f j = f j
apply (wrote k v) f j = if k == j then some v else f j
apply (deleted k) f j = if k == j then none else f j

module _ {T V : Type 0} (c : T → M T) (deep : DeepCopy T V c) where
  abbrev pub store_of : World T → Store T
  store_of w = record { entries = w.entries; copy_func = c }

  -- A caller changes and hands over only arrays that it knows, and learns those that `Read` returns.
  unfoldable pub act : Action T → World T → World T
  unfolding read write delete
  act (alloc b) w = record w {
    heap = w.heap ++ (b ∷ []);
    known = λ a. eqb (length w.heap) a || w.known a;
  }
  act (poke_byte s i v) w = record w { heap = poke s i v w.heap }
  act (write_key k d) w =
      let (s, h) = write k d (store_of w) w.heap in record w { heap = h; entries = s.entries }
  act (read_key k) w =
      let (o, h) = read k (store_of w) w.heap in
      record w { heap = h; known = λ a. contains (footprint_of deep.footprint o) a || w.known a }
  act (delete_key k) w = record w { entries = (delete k (store_of w)).entries }

  abbrev pub Allowed : Action T → World T → Type 0
  Allowed (poke_byte s i v) w = w.known s ≡ true
  Allowed (write_key k d) w = All (λ a. w.known a ≡ true) (deep.footprint d)
  Allowed _ w = Unit

  -- The values behind the entries.
  abbrev pub view : World T → Bytes → Option V
  view w k = Option.map (λ d. deep.value d w.heap) (lookup k w.entries)

  -- What a caller that reads the key sees.
  unfoldable pub seen : Bytes → World T → Option V
  unfolding read
  seen k w = let (o, h) = read k (store_of w) w.heap in Option.map (λ d. deep.value d h) o

  unfoldable pub change : Action T → World T → Change V
  change (write_key k d) w = wrote k (deep.value d w.heap)
  change (delete_key k) w = deleted k
  change _ w = unchanged

  unfoldable pub run : List (Action T) → World T → World T
  unfolding act
  run [] w = w
  run (a ∷ l) w = run l (act a w)

  abbrev pub AllAllowed : List (Action T) → World T → Type 0
  AllAllowed [] w = Unit
  AllAllowed (a ∷ l) w = Allowed a w × AllAllowed l (act a w)

  -- The map of values after the changes, in order.
  unfoldable pub changes : List (Action T) → World T → (Bytes → Option V) → Bytes → Option V
  unfolding change apply
  changes [] w f = f
  changes (a ∷ l) w f = changes l (act a w) (apply (change a w) f)

  -- No caller knows an array of the store, and every reference is to an array that was made.
  pub record IsSeparate (w : World T) : Type 0 where
    pub known_made : (a : Slice) → w.known a ≡ true → a < length w.heap
    pub entries_own :
        (k : Bytes) (d : T)
        → lookup k w.entries ≡ some d
        → All (λ a. (w.known a ≡ false) × (a < length w.heap)) (deep.footprint d)
