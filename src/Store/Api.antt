-- ===== src/Store/Api.antt =====
-- The contracts of `Reader` and `Writer` of internal/store/store.go, over plain values: what the
-- reconcilers and the handlers use of a store. `Isolation` shows that the store keeps them.
use gardener_discovery_serve.Common.{
  ◌≡◌, Option, none, some, Bytes, ◌==◌, if◌then◌else◌, Map, lookup, insert, remove, lookup-insert,
  lookup-remove,
}

-- `S` is the state of a store, `V` what it holds.
pub record Api (V S : Type 0) : Type 0 where
  pub read : Bytes → S → Option V
  pub write : Bytes → V → S → S
  pub delete : Bytes → S → S
  pub read-write :
      (k j : Bytes) (v : V) (s : S) → read j (write k v s) ≡ (if k == j then some v else read j s)
  pub read-delete :
      (k j : Bytes) (s : S) → read j (delete k s) ≡ (if k == j then none else read j s)

-- The map of values.
abbrev pub map_api : {V : Type 0} → Api V (Map V)
map_api = record {
  read = lookup;
  write = insert;
  delete = remove;
  read-write = lookup-insert;
  read-delete = lookup-remove;
}
