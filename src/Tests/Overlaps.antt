-- ===== src/Tests/Overlaps.antt =====
-- A call of `Write` that overlaps with a change of its datum and with a `Delete`.
use gardener_discovery_serve.Common.{
  ◌≡◌, refl, some, [], ◌∷◌, Bytes, bytes, lookup, insert, remove, ◌==◌, ltb, arith,
}
use gardener_discovery_serve.Store.Memory.{Slice, poke}
use gardener_discovery_serve.Store.Certificate.{Data, copy_data, data_copies}
use gardener_discovery_serve.Store.World.{poke_byte, delete_key, act, seen}
use gardener_discovery_serve.Store.Writers.{
  Writers, begin_write, commit_write, other_call, begins, commits, Steps, stay, move, AbstractSteps,
  labels_of,
}
use gardener_discovery_serve.Store.Writers.Linear.{Inv, abstract_of, writers_linear}

-- one array, which the caller knows, and an empty store
abbrev start : Writers (Data Slice)
start = record {
  world = record { heap = (1 ∷ 2 ∷ []) ∷ []; entries = []; known = λ a. ltb a 1 };
  pending = [];
}

start-Inv : Inv copy_data data_copies start
unfolding lookup
start-Inv = record {
  separate = record { known_made = λ a k. ground arith; entries_own = λ k d e. absurd (cc) };
  pending_own = tt;
}

abbrev after : Writers (Data Slice)
after = record {
  world = record {
    heap = (9 ∷ 2 ∷ []) ∷ (1 ∷ 2 ∷ []) ∷ [];
    entries = (bytes "k", record { ca_bundle = 1 }) ∷ [];
    known = λ a. ltb a 1;
  };
  pending = [];
}

-- The call begins, the caller changes the array, another deletes the key, and the call ends.
overlapped : Steps copy_data data_copies start after
unfolding begin_write commit_write act copy_data poke lookup insert remove ◌==◌
overlapped = move (begins (bytes "k") (record { ca_bundle = 0 }) (refl, tt) refl) (
    move (other_call (poke_byte 0 0 9) tt refl refl) (
      move (other_call (delete_key (bytes "k")) tt tt refl)
        (move (commits (bytes "k") (record { ca_bundle = 1 }) [] [] refl refl) stay)))

writers_linear_example :
    AbstractSteps
      (labels_of copy_data data_copies overlapped)
      (abstract_of copy_data data_copies start)
      (abstract_of copy_data data_copies after)
    × ((j : Bytes)
        → seen copy_data data_copies j after.world
          ≡ (abstract_of copy_data data_copies after).values j)
writers_linear_example = writers_linear copy_data data_copies overlapped start-Inv

-- What is read is what the array held when the call began.
read_after :
    seen copy_data data_copies (bytes "k") after.world ≡ some (record { ca_bundle = 1 ∷ 2 ∷ [] })
unfolding seen copy_data lookup ◌==◌
read_after = refl
