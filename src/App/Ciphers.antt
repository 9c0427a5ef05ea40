-- ===== src/App/Ciphers.antt =====
-- Which cipher suites the server of cmd/discovery-server/app/app.go offers.
use gardener_discovery_serve.Common.{
  ℕ, ◌≡◌, refl, sym, ap, ◌∙◌, Bool, true, false, not, ◌&&◌, ◌||◌, inl, inr, Bool-cases, List, [],
  ◌∷◌, eqb, eqb_iff, arith,
}
use gardener_discovery_serve.App.{
  CipherSuite, ciphers_to_remove, contains, delete_func, cipher_ids, get_cipher_suite_ids,
}

-- the removed suite and the kept one, as Booleans
drop_step : (e r c : Bool) → (e ≡ true → r ≡ true) → (c && not r) ≡ ((e || c) && not r)
drop_step true true c h = ground arith
drop_step true false c h = absurd (cc (h refl))
drop_step false r c h = refl

keep_step : (e r c : Bool) → (e ≡ true → r ≡ false) → (e || (c && not r)) ≡ ((e || c) && not r)
keep_step true true c h = absurd (cc (h refl))
keep_step true false c h = refl
keep_step false r c h = refl

module _ (removed : List ℕ) where
  contains-cipher_ids :
      (suites : List CipherSuite) (x : ℕ)
      → contains (cipher_ids (delete_func (λ cs. contains removed cs.id) suites)) x
        ≡ (contains (cipher_ids suites) x && not (contains removed x))
  unfolding cipher_ids delete_func contains
  contains-cipher_ids [] x = refl
  contains-cipher_ids (cs ∷ rest) x = elim (Bool-cases (contains removed cs.id)) [
    | inl out ↦
        rw (out, contains-cipher_ids rest x)
          (drop_step (eqb cs.id x) (contains removed x) (contains (cipher_ids rest) x)
            λ e. sym (ap (contains removed) ((eqb_iff cs.id x).0 e)) ∙ out)
    | inr kept ↦
        rw (kept, contains-cipher_ids rest x)
          (keep_step (eqb cs.id x) (contains removed x) (contains (cipher_ids rest) x)
            λ e. sym (ap (contains removed) ((eqb_iff cs.id x).0 e)) ∙ kept)
  ]

-- The server offers exactly the suites of `tls.CipherSuites` that are none of the four with CBC and
-- SHA-1 over ECDHE.
pub contains-get_cipher_suite_ids :
    (suites : List CipherSuite) (x : ℕ)
    → contains (get_cipher_suite_ids suites) x
      ≡ (contains (cipher_ids suites) x && not (contains ciphers_to_remove x))
unfolding get_cipher_suite_ids
contains-get_cipher_suite_ids suites x = contains-cipher_ids ciphers_to_remove suites x
