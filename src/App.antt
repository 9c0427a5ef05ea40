-- ===== src/App.antt =====
-- cmd/discovery-server/app/app.go: the cipher suites of the server. The modules below it have the rest of the file.
pub mod Ciphers
pub mod Mux
pub mod Routes
pub mod Run
pub mod Command
pub mod Setup
pub mod Main
use gardener_discovery_serve.Common.{
  ℕ, Bool, true, false, ◌||◌, List, [], ◌∷◌, Bytes, eqb, if◌then◌else◌,
}

-- What the code reads of a `*tls.CipherSuite`.
pub record CipherSuite : Type 0 where
  pub id : ℕ

-- The identifiers of the IANA registry that package tls declares.
abbrev pub tls_ecdhe_rsa_with_aes_128_cbc_sha : ℕ
tls_ecdhe_rsa_with_aes_128_cbc_sha = 0xc013

abbrev pub tls_ecdhe_rsa_with_aes_256_cbc_sha : ℕ
tls_ecdhe_rsa_with_aes_256_cbc_sha = 0xc014

abbrev pub tls_ecdhe_ecdsa_with_aes_128_cbc_sha : ℕ
tls_ecdhe_ecdsa_with_aes_128_cbc_sha = 0xc009

abbrev pub tls_ecdhe_ecdsa_with_aes_256_cbc_sha : ℕ
tls_ecdhe_ecdsa_with_aes_256_cbc_sha = 0xc00a

abbrev pub ciphers_to_remove : List ℕ
ciphers_to_remove =
    tls_ecdhe_rsa_with_aes_128_cbc_sha ∷ tls_ecdhe_rsa_with_aes_256_cbc_sha
    ∷ tls_ecdhe_ecdsa_with_aes_128_cbc_sha ∷ tls_ecdhe_ecdsa_with_aes_256_cbc_sha ∷ []

-- `slices.Contains`
unfoldable pub contains : List ℕ → ℕ → Bool
contains [] x = false
contains (y ∷ l) x = eqb y x || contains l x

-- `slices.DeleteFunc`
unfoldable pub delete_func : (CipherSuite → Bool) → List CipherSuite → List CipherSuite
delete_func del [] = []
delete_func del (cs ∷ rest) = let kept = delete_func del rest in if del cs then kept else cs ∷ kept

-- the loop that appends the identifiers
unfoldable pub cipher_ids : List CipherSuite → List ℕ
cipher_ids [] = []
cipher_ids (cipher ∷ rest) = cipher.id ∷ cipher_ids rest

-- The suites are those of `tls.CipherSuites`.
unfoldable pub get_cipher_suite_ids : List CipherSuite → List ℕ
unfolding delete_func cipher_ids contains
get_cipher_suite_ids suites =
    cipher_ids (delete_func (λ cs. contains ciphers_to_remove cs.id) suites)
