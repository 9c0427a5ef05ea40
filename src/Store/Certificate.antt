-- ===== src/Store/Certificate.antt =====
-- internal/store/certificate/data.go: public certificates. `Data Slice` is the Go struct, and
-- `Data Bytes` is the value that it stands for.
use gardener_discovery_serve.Common.{
  ◌≡◌, ◌≤◌, ◌<◌, refl, List, [], ◌∷◌, ◌++◌, arith, Bytes, All, length, length-append, get_elem?,
}
use gardener_discovery_serve.Store.Memory.{
  Heap, Slice, M, pure, ◌>>=◌, ◌>>◌, contents, make, copy, clone, clone_lem, contents_of_fresh,
  Extends, Extends-append,
}
use gardener_discovery_serve.Store.DeepCopy.{DeepCopy}

pub record Data (B : Type 0) : Type 0 where
  pub ca_bundle : B

unfoldable pub copy_data : Data Slice → M (Data Slice)
unfolding make copy contents
copy_data d h =
    (do
      out ← make (length (contents d.ca_bundle h))
      copy out d.ca_bundle
      pure (record { ca_bundle = out }))
      h

copy_data-clone :
    (d : Data Slice) (h : Heap)
    → copy_data d h ≡ (record { ca_bundle = (clone d.ca_bundle h).0 }, (clone d.ca_bundle h).1)
unfolding copy_data clone
copy_data-clone d h = refl

pub copy_data_lem :
    (d : Data Slice) (h : Heap)
    → copy_data d h ≡ (record { ca_bundle = length h }, h ++ (contents d.ca_bundle h ∷ []))
copy_data_lem d h = rw (copy_data-clone, clone_lem)

abbrev pub value : Data Slice → Heap → Data Bytes
value d h = record { ca_bundle = contents d.ca_bundle h }

abbrev footprint : Data Slice → List Slice
footprint d = d.ca_bundle ∷ []

pub copy_data-Extends : (d : Data Slice) (h : Heap) → Extends h (copy_data d h).1
copy_data-Extends d h = rw copy_data_lem (Extends-append h _)

pub copy_data_fresh :
    (d : Data Slice) (h : Heap)
    → All (λ a. (length h ≤ a) × (a < length (copy_data d h).1)) (footprint (copy_data d h).0)
copy_data_fresh d h =
    rw copy_data_lem (omega (arith, length-append h (contents d.ca_bundle h ∷ [])))

pub value-copy_data :
    (d : Data Slice) (h : Heap)
    → All (λ a. a < length h) (footprint d)
    → value (copy_data d h).0 (copy_data d h).1 ≡ value d h
value-copy_data d h l = rw (copy_data_lem, contents_of_fresh)

pub value_local :
    (d : Data Slice) (h h' : Heap)
    → All (λ a. get_elem? h' a ≡ get_elem? h a) (footprint d)
    → value d h' ≡ value d h
unfolding contents
value_local d h h' e = rw e.0

-- `Copy` is a deep copy.
abbrev pub data_copies : DeepCopy (Data Slice) (Data Bytes) copy_data
data_copies = record {
  footprint = footprint;
  value = value;
  extends = copy_data-Extends;
  fresh = copy_data_fresh;
  same = value-copy_data;
  local = value_local;
}
