-- ===== src/Store/Openidmeta.antt =====
-- internal/store/openidmeta/data.go: openid discovery metadata. `Data Slice` is the Go struct, and
-- `Data Bytes` is the value that it stands for.
use gardener_discovery_serve.Common.{
  ◌≡◌, refl, ap, ◌∙◌, ◌<◌, [], ◌∷◌, ◌+◌, arith, Bytes, List, ◌≤◌, get_elem?, All, length,
  length-replicate, replicate,
}
use gardener_discovery_serve.Store.Memory.{
  Heap, Slice, M, pure, ◌>>=◌, ◌>>◌, bytes_of, contents, make, copy, Extends, Extends-trans,
}
use gardener_discovery_serve.Store.Memory.Copying.{
  length-make, make-Extends, contents-make, length-copy, copy-Extends, contents-Extends,
  contents-copy_self, contents-copy_ne,
}
use gardener_discovery_serve.Store.DeepCopy.{DeepCopy}

pub record Data (B : Type 0) : Type 0 where
  pub config : B
  pub jwks : B

unfoldable pub copy_data : Data Slice → M (Data Slice)
copy_data d h =
    (do
      config ← make (length (contents d.config h))
      jwks ← make (length (contents d.jwks h))
      copy config d.config
      copy jwks d.jwks
      pure (record { config = config; jwks = jwks }))
      h

abbrev pub value : Data Slice → Heap → Data Bytes
value d h = record { config = contents d.config h; jwks = contents d.jwks h }

-- the heaps between the four statements
module _ (d : Data Slice) (h : Heap) where
  abbrev made_config : Heap
  made_config = (make (length (contents d.config h)) h).1

  abbrev made_both : Heap
  made_both = (make (length (contents d.jwks h)) made_config).1

  abbrev copied_config : Heap
  copied_config = (copy (length h) d.config made_both).1

  abbrev copied_both : Heap
  copied_both = (copy (length made_config) d.jwks copied_config).1

  copy_data_lem :
      copy_data d h ≡ (record { config = length h; jwks = length made_config }, copied_both)
  unfolding copy_data make
  copy_data_lem = refl

  made_lengths : (length made_config ≡ length h + 1) × (length made_both ≡ length h + 2)
  made_lengths = omega (arith, length-make)

  length-copied_both : length copied_both ≡ length h + 2
  length-copied_both = omega (arith, made_lengths, length-copy)

  Extends-made_both : Extends h made_both
  Extends-made_both = Extends-trans (make-Extends _ h) (make-Extends _ made_config)

  Extends-copied_config : Extends h copied_config
  Extends-copied_config = copy-Extends _ _ Extends-made_both (omega arith)

  Extends-copied_both : Extends h copied_both
  Extends-copied_both = copy-Extends _ _ Extends-copied_config (omega (arith, made_lengths))

  made_zeros :
      (contents (length h) made_both ≡ replicate (length (contents d.config h)) 0)
      × (contents (length made_config) made_both ≡ replicate (length (contents d.jwks h)) 0)
  unfolding make
  made_zeros = (
    contents-Extends (length h) (make-Extends _ made_config) (omega (arith, made_lengths))
        ∙ contents-make _ h,
    contents-make _ made_config,
  )

  module _ (valid : All (λ a. a < length h) (d.config ∷ d.jwks ∷ [])) where
    config_copied : contents (length h) copied_both ≡ contents d.config h
    config_copied =
        let kept = contents-Extends d.config Extends-made_both valid.0 in
        contents-copy_ne _ d.jwks (length h) copied_config (omega (arith, made_lengths))
        ∙ contents-copy_self (length h) d.config made_both (omega (arith, made_lengths))
            (omega (arith, ap length made_zeros.0, ap length kept, length-replicate {0}))
        ∙ kept

    jwks_copied : contents (length made_config) copied_both ≡ contents d.jwks h
    jwks_copied =
        let kept = contents-Extends d.jwks Extends-copied_config valid.1.0 in
        let zeros =
          contents-copy_ne (length h) d.config (length made_config) made_both
            (omega (arith, made_lengths))
          ∙ made_zeros.1 in
        contents-copy_self (length made_config) d.jwks copied_config
          (omega (arith, made_lengths, length-copy))
          (omega (arith, ap length zeros, ap length kept, length-replicate {0}))
        ∙ kept

abbrev footprint : Data Slice → List Slice
footprint d = d.config ∷ d.jwks ∷ []

pub copy_data-Extends : (d : Data Slice) (h : Heap) → Extends h (copy_data d h).1
copy_data-Extends d h = rw copy_data_lem (Extends-copied_both d h)

pub copy_data_fresh :
    (d : Data Slice) (h : Heap)
    → All (λ a. (length h ≤ a) × (a < length (copy_data d h).1)) (footprint (copy_data d h).0)
copy_data_fresh d h = rw copy_data_lem (omega (arith, made_lengths d h, length-copied_both d h))

pub value-copy_data :
    (d : Data Slice) (h : Heap)
    → All (λ a. a < length h) (footprint d)
    → value (copy_data d h).0 (copy_data d h).1 ≡ value d h
value-copy_data d h l =
    rw copy_data_lem (λ i. record { config = config_copied d h l i; jwks = jwks_copied d h l i })

pub value_local :
    (d : Data Slice) (h h' : Heap)
    → All (λ a. get_elem? h' a ≡ get_elem? h a) (footprint d)
    → value d h' ≡ value d h
unfolding contents
value_local d h h' e = λ i. record { config = bytes_of (e.0 i); jwks = bytes_of (e.1.0 i) }

-- `Copy` is a deep copy.
abbrev pub data_copies : DeepCopy (Data Slice) (Data Bytes) copy_data
data_copies = record {
  footprint = footprint;
  value = value;
  extends = copy_data-Extends;
  fresh = copy_data_fresh;
  same = value-copy_data;
  local = value_local;
}
