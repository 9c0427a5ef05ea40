-- ===== src/Dynamiccert/Chains.antt =====
-- Chains of certificates, and one load of internal/dynamiccert/certificate.go.
use gardener_discovery_serve.Common.{
  ◌≡◌, refl, true, Bool-cases, inl, inr, List, [], ◌∷◌, Bytes, eq→≡, eq_refl, arith,
}
use gardener_discovery_serve.Common.Results.{Result, ok, err}
use gardener_discovery_serve.Dynamiccert.{Logged, are_equal, on_load, on_tick}

pub are_equal_sound : (a b : List Bytes) → are_equal a b ≡ true → a ≡ b
unfolding are_equal
are_equal_sound [] [] h = refl
are_equal_sound [] (d ∷ b) h = absurd (ground arith)
are_equal_sound (c ∷ a) [] h = absurd (ground arith)
are_equal_sound (c ∷ a) (d ∷ b) h = ground (arith, are_equal_sound a b, eq→≡ c d)

pub are_equal_refl : (a : List Bytes) → are_equal a a ≡ true
unfolding are_equal
are_equal_refl [] = refl
are_equal_refl (c ∷ a) = ground (arith, are_equal_refl a, eq_refl c)

module _ {E Cert Sink : Type 0} (chain : Cert → List Bytes) where
  -- what a tick does with the result of its load
  abbrev pub loaded : Result E Cert → Logged E Cert Sink → Logged E Cert Sink
  loaded r s = on_tick (on_load chain r s)

  -- A load leaves the files and the logger.
  pub loaded_keeps :
      (r : Result E Cert) (s : Logged E Cert Sink)
      → ((loaded r s).0.cert_file ≡ s.0.cert_file)
        × ((loaded r s).0.key_file ≡ s.0.key_file)
        × ((loaded r s).0.log ≡ s.0.log)
  loaded_keeps (err e) (dc, calls) = (refl, refl, refl)
  loaded_keeps (ok cert) (dc, calls) =
      elim (Bool-cases (are_equal (chain cert) (chain dc.certificate))) [
        | inl same ↦ rw same (refl, refl, refl)
        | inr changed ↦ rw changed (refl, refl, refl)
      ]
