-- ===== src/Tests/Stores.antt =====
-- The store at concrete actions.
use gardener_discovery_serve.Common.{
  ◌+◌, Distinct, present, ◌≡◌, refl, some, List, [], ◌∷◌, bytes, lookup, insert, ◌==◌, ltb, arith,
}
use gardener_discovery_serve.Store.{Store, write, delete, len}
use gardener_discovery_serve.Store.Size.{len-write_delete}
use gardener_discovery_serve.Store.Memory.{Slice, poke}
use gardener_discovery_serve.Store.Certificate.{Data, copy_data, data_copies}
use gardener_discovery_serve.Store.World.{
  World, Action, poke_byte, write_key, read_key, act, run, AllAllowed, changes, view, seen,
  IsSeparate,
}
use gardener_discovery_serve.Store.Isolation.{seen-run}

-- one array, which the caller knows, and an empty store
abbrev start : World (Data Slice)
start = record { heap = (1 ∷ 2 ∷ []) ∷ []; entries = []; known = λ a. ltb a 1 }

start-IsSeparate : IsSeparate copy_data data_copies start
unfolding lookup
start-IsSeparate = record { known_made = λ a k. ground arith; entries_own = λ k d e. absurd (cc) }

-- The caller writes the array to the store, changes it, and reads.
abbrev actions : List (Action (Data Slice))
actions =
    write_key (bytes "k") (record { ca_bundle = 0 }) ∷ poke_byte 0 0 9 ∷ read_key (bytes "k") ∷ []

actions_allowed : AllAllowed copy_data data_copies actions start
unfolding act
actions_allowed = ((refl, tt), (refl, (tt, tt)))

seen-run_example :
    seen copy_data data_copies (bytes "k") (run copy_data data_copies actions start)
    ≡ changes copy_data data_copies actions start (view copy_data data_copies start) (bytes "k")
seen-run_example =
    seen-run copy_data data_copies actions start (bytes "k") start-IsSeparate actions_allowed

-- The value is the one that was written, and the array is another.
seen_value :
    seen copy_data data_copies (bytes "k") (run copy_data data_copies actions start)
    ≡ some (record { ca_bundle = 1 ∷ 2 ∷ [] })
unfolding seen run copy_data lookup insert poke ◌==◌
seen_value = refl

abbrev stored : Store (Data Slice)
stored = record { entries = (bytes "k", record { ca_bundle = 0 }) ∷ []; copy_func = copy_data }

stored-Distinct : Distinct stored.entries
unfolding lookup
stored-Distinct = (refl, tt)

len-write_delete_example :
    (Distinct (write (bytes "k") (record { ca_bundle = 1 }) stored []).0.entries
      × (len (write (bytes "k") (record { ca_bundle = 1 }) stored []).0
            + present (lookup (bytes "k") stored.entries)
          ≡ len stored + 1))
    × (Distinct (delete (bytes "k") stored).entries
        × (len (delete (bytes "k") stored) + present (lookup (bytes "k") stored.entries)
            ≡ len stored))
len-write_delete_example =
    len-write_delete stored (bytes "k") (record { ca_bundle = 1 }) [] stored-Distinct
