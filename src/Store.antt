-- ===== src/Store.antt =====
-- internal/store/store.go: the generic in-memory store, over an explicit heap, so that the copies
-- that `Write` and `Read` make can be told from the values that they copy.
pub mod Memory
pub mod DeepCopy
pub mod Certificate
pub mod Openidmeta
pub mod World
pub mod Isolation
pub mod Writers
pub mod Size
pub mod Api
use gardener_discovery_serve.Common.{
  ℕ, Option, none, some, [], Bytes, Map, lookup, insert, remove, length,
}
use gardener_discovery_serve.Common.Results.{Result, ok, err, ◌>>=◌ as bind}
use Memory.{M, pure, ◌>>=◌}

pub record Store (T : Type 0) : Type 0 where
  pub entries : Map T
  pub copy_func : T → M T

pub data StoreError : Type 0 where
  err_no_copy_func : StoreError

module _ {T : Type 0} where
  -- `none` is a nil function
  unfoldable pub new_store : Option (T → M T) → Result StoreError (Store T)
  new_store none = err err_no_copy_func
  new_store (some f) = ok (record { entries = []; copy_func = f })

  -- an error is the value of the panic
  unfoldable pub must_new_store : Option (T → M T) → Result StoreError (Store T)
  unfolding new_store
  must_new_store f = bind (new_store f) λ store. ok store

  abbrev copy_found : Store T → Option T → M (Option T)
  copy_found s none = pure none
  copy_found s (some found) = do copied ← s.copy_func found; pure (some copied)

  -- `none` is the zero value with `false`
  unfoldable pub read : Bytes → Store T → M (Option T)
  read key s = copy_found s (lookup key s.entries)

  unfoldable pub write : Bytes → T → Store T → M (Store T)
  write key datum s = do d ← s.copy_func datum; pure (record s { entries = insert key d s.entries })

  unfoldable pub delete : Bytes → Store T → Store T
  delete key s = record s { entries = remove key s.entries }

  unfoldable pub len : Store T → ℕ
  len s = length s.entries
