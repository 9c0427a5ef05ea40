-- ===== src/Store/Writers.antt =====
-- `Write` of internal/store/store.go in its two parts, with other calls in between: it copies the
-- datum before it takes the lock, and inserts the copy under the lock. `Read` and `Delete` hold the
-- lock all the time.
pub mod Kept
pub mod Linear
use gardener_discovery_serve.Common.{
  ℕ, ◌≡◌, Bool, Option, none, some, List, [], ◌∷◌, ◌++◌, Bytes, Map, insert, ◌==◌, if◌then◌else◌,
}
use gardener_discovery_serve.Store.Memory.{Heap, Slice, M}
use gardener_discovery_serve.Store.DeepCopy.{DeepCopy}
use gardener_discovery_serve.Store.World.{
  World, Action, alloc, poke_byte, write_key, read_key, delete_key, act, Allowed,
}

-- The world, and the copies that calls of `Write` have made and not yet inserted.
pub record Writers (T : Type 0) : Type 0 where
  pub world : World T
  pub pending : List (Bytes × T)

-- What takes one step: all but `Write`.
abbrev pub IsAtomic : {T : Type 0} → Action T → Type 0
IsAtomic (write_key k d) = ⊥
IsAtomic _ = Unit

module _ {T V : Type 0} (c : T → M T) (deep : DeepCopy T V c) where
  -- `d := s.copyFunc(data)`
  unfoldable pub begin_write : Bytes → T → Writers T → Writers T
  begin_write key datum w =
      let (d, h) = c datum w.world.heap in
      record { world = record w.world { heap = h }; pending = (key, d) ∷ w.pending }

  -- `s.store[key] = d`, of the call that stands between `front` and `back`
  unfoldable pub commit_write :
      Bytes → T → List (Bytes × T) → List (Bytes × T) → Writers T → Writers T
  commit_write key d front back w = record {
    world = record w.world { entries = insert key d w.world.entries };
    pending = front ++ back;
  }

  pub data Step (w w' : Writers T) : Type 0 where
    other_call :
        (a : Action T)
        → IsAtomic a
        → Allowed c deep a w.world
        → w' ≡ record w { world = act c deep a w.world }
        → Step w w'
    begins :
        (key : Bytes) (datum : T)
        → Allowed c deep (write_key key datum) w.world
        → w' ≡ begin_write key datum w
        → Step w w'
    commits :
        (key : Bytes) (d : T) (front back : List (Bytes × T))
        → w.pending ≡ front ++ ((key, d) ∷ back)
        → w' ≡ commit_write key d front back w
        → Step w w'

  pub data Steps : Writers T → Writers T → Type 0 where
    stay : {w : Writers T} → Steps w w
    move : {w w' w'' : Writers T} → Step w w' → Steps w' w'' → Steps w w''

-- The map of values, and the values of the calls of `Write` that are under way.
pub record Abstract (V : Type 0) : Type 0 where
  pub values : Bytes → Option V
  pub writing : List (Bytes × V)

-- What a call does, as its caller sees it: `Write` in two parts, with the value that is copied, and with
-- the value that is inserted and the calls before and after it that are under way; `Delete`; any other.
pub data Label (V : Type 0) : Type 0 where
  nothing : Label V
  deletes : Bytes → Label V
  starts : Bytes → V → Label V
  writes : Bytes → V → List (Bytes × V) → List (Bytes × V) → Label V

-- What a call has to do to the map of values, said without memory.
abbrev pub AbstractStep : {V : Type 0} → Label V → Abstract V → Abstract V → Type 0
AbstractStep nothing s s' = ((j : Bytes) → s'.values j ≡ s.values j) × (s'.writing ≡ s.writing)
AbstractStep (deletes key) s s' =
    ((j : Bytes) → s'.values j ≡ (if key == j then none else s.values j)) × (s'.writing ≡ s.writing)
AbstractStep (starts key v) s s' =
    ((j : Bytes) → s'.values j ≡ s.values j) × (s'.writing ≡ (key, v) ∷ s.writing)
AbstractStep (writes key v front back) s s' =
    (s.writing ≡ front ++ ((key, v) ∷ back))
    × ((j : Bytes) → s'.values j ≡ (if key == j then some v else s.values j))
    × (s'.writing ≡ front ++ back)

-- The calls of a list, one after the other.
pub data AbstractSteps {V : Type 0} : List (Label V) → Abstract V → Abstract V → Type 0 where
  stays : {s : Abstract V} → AbstractSteps [] s s
  moves :
      {label : Label V} {labels : List (Label V)} {s s' s'' : Abstract V}
      → AbstractStep label s s'
      → AbstractSteps labels s' s''
      → AbstractSteps (label ∷ labels) s s''

module _ {T V : Type 0} (c : T → M T) (deep : DeepCopy T V c) where
  -- the values of the copies that are under way
  abbrev pub valued : Heap → List (Bytes × T) → List (Bytes × V)
  valued h [] = []
  valued h ((k, d) ∷ pending) = (k, deep.value d h) ∷ valued h pending

  abbrev pub label_of_call : Action T → Label V
  label_of_call (delete_key key) = deletes key
  label_of_call _ = nothing

  -- The call of a step, whatever the step does.
  abbrev pub label_of : {w w' : Writers T} → Step c deep w w' → Label V
  label_of (other_call a atomic allowed e) = label_of_call a
  label_of {w} (begins key datum allowed e) = starts key (deep.value datum w.world.heap)
  label_of {w} (commits key d front back is e) =
      writes key (deep.value d w.world.heap) (valued w.world.heap front) (valued w.world.heap back)

  -- The calls of some steps, in their order.
  abbrev pub labels_of : {w w' : Writers T} → Steps c deep w w' → List (Label V)
  labels_of stay = []
  labels_of (move step path) = label_of step ∷ labels_of path
