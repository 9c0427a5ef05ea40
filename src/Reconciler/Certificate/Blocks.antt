-- ===== src/Reconciler/Certificate/Blocks.antt =====
-- The loop over the PEM blocks in `Reconcile` of internal/reconciler/certificate/reconciler.go: it
-- ends, and it passes for exactly the bundles of CA certificates.
use gardener_discovery_serve.Common.{
  ℕ, zero, suc, ◌≡◌, ◌<◌, ◌⊎◌, inl, inr, sym, ◌∙◌, true, none, some, Bytes, ◌==◌, eq→≡, eq_refl,
  length, leb, arith, Option-cases,
}
use gardener_discovery_serve.Common.Results.{ok}
use gardener_discovery_serve.Reconciler.{pass, drop}
use gardener_discovery_serve.Reconciler.Checks.{
  Ensures, Ensures-require, Ensures-loaded, require-eq-pass,
}
use gardener_discovery_serve.Reconciler.Certificate.{
  Block, Libraries, block_type_certificate, check_block, check_blocks, check_certs,
}

module _ {E : Type 0} (libraries : Libraries E) where
  -- One certificate of a CA, with no headers.
  pub record IsCaBlock (block : Block) : Type 0 where
    pub is_certificate : block.block_type ≡ block_type_certificate
    pub no_headers : length block.headers ≡ 0
    pub is_ca : libraries.parse_certificate block.block_bytes ≡ ok true

  -- Every block that the decoder finds, one after the other, is one; what it skips does not count.
  pub data IsCaBundle : Bytes → Type 0 where
    no_block : {certs : Bytes} → libraries.decode certs ≡ none → IsCaBundle certs
    next_block :
        {certs : Bytes} (block : Block) (rest : Bytes)
        → libraries.decode certs ≡ some (block, rest)
        → IsCaBlock block
        → IsCaBundle rest
        → IsCaBundle certs

  check_block-IsCaBlock :
      (block : Block) → Ensures {E = E} (check_block libraries block) (λ _. IsCaBlock block)
  unfolding check_block
  check_block-IsCaBlock block =
      Ensures-require (block.block_type == block_type_certificate) _ λ certificate.
        Ensures-require (leb (length block.headers) 0) _ λ headers.
          Ensures-loaded (libraries.parse_certificate block.block_bytes) _ λ is_ca parsed. record {
            at = λ u h. record {
              is_certificate = eq→≡ _ _ certificate;
              no_headers = ground arith;
              is_ca = rw (← require-eq-pass is_ca u h) parsed;
            };
          }

  check_block_complete : (block : Block) → IsCaBlock block → check_block libraries block ≡ pass tt
  unfolding check_block
  check_block_complete block h = rw (h.is_certificate, eq_refl, h.no_headers, h.is_ca)

  -- The check of a block passes or drops, and never fails or panics.
  check_block_ends :
      (block : Block)
      → (check_block libraries block ≡ pass tt) ⊎ (check_block libraries block ≡ drop)
  unfolding check_block
  check_block_ends block = ground arith

  -- one round of the loop
  module _ (fuel : ℕ) (certs : Bytes) where
    round_end :
        libraries.decode certs ≡ none → check_blocks libraries (suc fuel) certs ≡ some (pass tt)
    unfolding check_blocks
    round_end e = rw (e, check_blocks)

    module _ (block : Block) (rest : Bytes)
        (decoded : libraries.decode certs ≡ some (block, rest)) where
      round_next :
          check_block libraries block ≡ pass tt
          → check_blocks libraries (suc fuel) certs ≡ check_blocks libraries fuel rest
      unfolding check_blocks
      round_next good = rw (decoded, good, check_blocks)

      round_drop :
          check_block libraries block ≡ drop → check_blocks libraries (suc fuel) certs ≡ some drop
      unfolding check_blocks
      round_drop bad = rw (decoded, bad, check_blocks)

  check_blocks-IsCaBundle :
      (fuel : ℕ) (certs : Bytes) (u : Unit {0})
      → check_blocks libraries fuel certs ≡ some (pass u)
      → IsCaBundle certs
  check_blocks-IsCaBundle zero certs u h = absurd (unfold check_blocks in cc)
  check_blocks-IsCaBundle (suc fuel) certs u h = elim (Option-cases (libraries.decode certs)) [
    | inl missing ↦ no_block missing
    | inr ((block, rest), decoded) ↦ elim (check_block_ends block) [
      | inl good ↦ next_block block rest decoded ((check_block-IsCaBlock block).at tt good) (
          check_blocks-IsCaBundle fuel rest u
            (sym (round_next fuel certs block rest decoded good) ∙ h))
      | inr bad ↦ absurd (cc (round_drop fuel certs block rest decoded bad))
    ]
  ]

  -- `pem.Decode` takes the block that it returns off the input.
  abbrev pub Shrinks : Type 0
  Shrinks =
      (certs : Bytes) (block : Block) (rest : Bytes)
      → libraries.decode certs ≡ some (block, rest)
      → length rest < length certs

  module _ (shrinks : Shrinks) where
    -- With more fuel than there are bytes the loop ends, by a pass or by a drop.
    check_blocks_total :
        (fuel : ℕ) (certs : Bytes)
        → length certs < fuel
        → (check_blocks libraries fuel certs ≡ some (pass tt))
          ⊎ (check_blocks libraries fuel certs ≡ some drop)
    check_blocks_total zero certs l = absurd (omega arith)
    check_blocks_total (suc fuel) certs l = elim (Option-cases (libraries.decode certs)) [
      | inl missing ↦ inl (round_end fuel certs missing)
      | inr ((block, rest), decoded) ↦ elim (check_block_ends block) [
        | inl good ↦
            rw (round_next fuel certs block rest decoded good)
              (check_blocks_total fuel rest (omega (arith, shrinks certs block rest decoded)))
        | inr bad ↦ inr (round_drop fuel certs block rest decoded bad)
      ]
    ]

    check_blocks_complete :
        (fuel : ℕ) {certs : Bytes}
        → IsCaBundle certs
        → length certs < fuel
        → check_blocks libraries fuel certs ≡ some (pass tt)
    check_blocks_complete zero b l = absurd (omega arith)
    check_blocks_complete (suc fuel) {certs} (no_block missing) l = round_end fuel certs missing
    check_blocks_complete (suc fuel) {certs} (next_block block rest decoded good more) l =
        round_next fuel certs block rest decoded (check_block_complete block good)
        ∙ check_blocks_complete fuel more (omega (arith, shrinks certs block rest decoded))

    pub check_certs_ends :
        (certs : Bytes)
        → (check_certs libraries certs ≡ pass tt) ⊎ (check_certs libraries certs ≡ drop)
    check_certs_ends certs = elim (check_blocks_total (suc (length certs)) certs (omega arith)) [
      | inl e ↦ inl (rw e)
      | inr e ↦ inr (rw e)
    ]

    pub check_certs_sound :
        (certs : Bytes) → check_certs libraries certs ≡ pass tt → IsCaBundle certs
    check_certs_sound certs h = elim (check_blocks_total (suc (length certs)) certs (omega arith)) [
      | inl e ↦ check_blocks-IsCaBundle (suc (length certs)) certs tt e
      | inr e ↦ absurd (cc e)
    ]

    pub check_certs_complete :
        (certs : Bytes) → IsCaBundle certs → check_certs libraries certs ≡ pass tt
    check_certs_complete certs b = rw (check_blocks_complete (suc (length certs)) b (omega arith))

    -- Where `pem.Decode` returns less than it was given, the loop over the blocks ends: it lets pass
    -- the bundles of which every block that is found is a certificate of a CA with no headers, and
    -- drops all others.
    pub check_certs_decides :
        (certs : Bytes)
        → ((check_certs libraries certs ≡ pass tt) × IsCaBundle certs)
          ⊎ ((check_certs libraries certs ≡ drop) × (¬ IsCaBundle certs))
    check_certs_decides certs = elim (check_certs_ends certs) [
      | inl e ↦ inl (e, check_certs_sound certs e)
      | inr e ↦ inr (e, λ b. cc (check_certs_complete certs b))
    ]
