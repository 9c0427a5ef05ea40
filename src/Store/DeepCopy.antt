-- ===== src/Store/DeepCopy.antt =====
-- What the store needs of the `copyFunc` that it is made with: a deep copy. A client names the
-- arrays that a datum refers to and the value that it stands for.
use gardener_discovery_serve.Common.{◌≤◌, ◌<◌, ◌≡◌, List, All, length, get_elem?}
use gardener_discovery_serve.Store.Memory.{Heap, Slice, M, Extends}

pub record DeepCopy (T V : Type 0) (copy_func : T → M T) : Type 0 where
  -- the arrays that a datum refers to
  pub footprint : T → List Slice
  -- the datum with the bytes in place of the references
  pub value : T → Heap → V
  pub extends : (d : T) (h : Heap) → Extends h (copy_func d h).1
  pub fresh :
      (d : T) (h : Heap)
      → All (λ a. (length h ≤ a) × (a < length (copy_func d h).1)) (footprint (copy_func d h).0)
  pub same :
      (d : T) (h : Heap)
      → All (λ a. a < length h) (footprint d)
      → value (copy_func d h).0 (copy_func d h).1 ≡ value d h
  pub local :
      (d : T) (h h' : Heap)
      → All (λ a. get_elem? h' a ≡ get_elem? h a) (footprint d)
      → value d h' ≡ value d h
