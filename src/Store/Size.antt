-- ===== src/Store/Size.antt =====
-- How `Len` of internal/store/store.go follows `Write` and `Delete`.
use gardener_discovery_serve.Common.{
  ◌≡◌, ◌+◌, Bytes, lookup, Distinct, present, Distinct-remove, Distinct-insert, length-remove,
  length-insert,
}
use gardener_discovery_serve.Store.{Store, write, delete, len}
use gardener_discovery_serve.Store.Memory.{Heap}

-- In a store with one entry to a key, `Write` leaves one entry to a key, and one more in all unless
-- the key had one; `Delete` leaves one entry to a key, and one less in all if the key had one.
pub len-write_delete :
    {T : Type 0} (s : Store T) (key : Bytes) (datum : T) (h : Heap)
    → Distinct s.entries
    → (Distinct (write key datum s h).0.entries
        × (len (write key datum s h).0 + present (lookup key s.entries) ≡ len s + 1))
      × (Distinct (delete key s).entries
          × (len (delete key s) + present (lookup key s.entries) ≡ len s))
unfolding write delete len
len-write_delete s key datum h d = (
  (
    Distinct-insert key (s.copy_func datum h).0 s.entries d,
    length-insert key (s.copy_func datum h).0 s.entries d,
  ),
  (Distinct-remove key s.entries d, length-remove key s.entries d),
)
