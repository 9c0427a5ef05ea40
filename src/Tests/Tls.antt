-- ===== src/Tests/Tls.antt =====
-- The certificate of the server over ticks of which some fail, and its cipher suites.
use gardener_discovery_serve.Common.{
  ◌==◌, refl, ◌&&◌, not, ℕ, ◌≡◌, ◌↔◌, true, List, [], ◌∷◌, Bytes, bytes,
}
use gardener_discovery_serve.Common.Results.{ok, err}
use gardener_discovery_serve.App.{
  CipherSuite, ciphers_to_remove, contains, cipher_ids, get_cipher_suite_ids,
}
use gardener_discovery_serve.App.Ciphers.{contains-get_cipher_suite_ids}
use gardener_discovery_serve.Dynamiccert.{
  Logger, with_name, log_error, log_info, new_dynamic_certificate, reload_cert, DynamicCertificate,
  Loader, are_equal, ticks, get_certificate, minute, failed_to_reload, certificate_was_reloaded,
}
use gardener_discovery_serve.Dynamiccert.Logs.{Tells}
use gardener_discovery_serve.Dynamiccert.Reload.{
  interval, logger, chosen, new_dynamic_certificate-ticks, are_equal_iff,
}

-- A certificate is its chain here, and an error a number.
abbrev renewed : Loader ℕ (List Bytes)
renewed = λ cert key. ok (bytes "new" ∷ bytes "ca" ∷ [])

abbrev broken : Loader ℕ (List Bytes)
broken = λ cert key. err 7

abbrev loads : List (Loader ℕ (List Bytes))
loads = broken ∷ renewed ∷ broken ∷ []

abbrev old : Loader ℕ (List Bytes)
old = λ cert key. ok (bytes "old" ∷ bytes "ca" ∷ [])

abbrev log : Logger Bytes
log = with_name (bytes "dynamic-cert") (bytes "zap")

abbrev presented : DynamicCertificate (List Bytes) Bytes
presented = record {
  cert_file = bytes "tls.crt";
  key_file = bytes "tls.key";
  interval = minute;
  certificate = bytes "old" ∷ bytes "ca" ∷ [];
  log = log;
}

-- the last pair that was read, and what is logged: a failure, a change, a failure
renewed_presented : ticks (λ c. c) loads (presented, []) ≡ (
  record presented { certificate = bytes "new" ∷ bytes "ca" ∷ [] },
  log_error log 7 failed_to_reload
      ∷ log_info log certificate_was_reloaded
      ∷ log_error log 7 failed_to_reload
      ∷ [],
)
unfolding ticks reload_cert are_equal ◌==◌
renewed_presented = refl

are_equal_iff_example :
    (are_equal (bytes "a" ∷ bytes "b" ∷ []) (bytes "a" ∷ bytes "c" ∷ []) ≡ true)
    ↔ (bytes "a" ∷ bytes "b" ∷ [] ≡ bytes "a" ∷ bytes "c" ∷ [])
are_equal_iff_example = are_equal_iff (bytes "a" ∷ bytes "b" ∷ []) (bytes "a" ∷ bytes "c" ∷ [])

new_dynamic_certificate-ticks_example :
    (dc : DynamicCertificate (List Bytes) Bytes) × (new_dynamic_certificate old
        (bytes "tls.crt")
        (bytes "tls.key")
        (chosen (logger log ∷ interval 5 ∷ []))
      ≡ ok dc)
    × (get_certificate (ticks (λ c. c) loads (dc, [])).0 ≡ bytes "new" ∷ bytes "ca" ∷ [])
    × Tells
        (λ c. c)
        log
        (bytes "tls.crt")
        (bytes "tls.key")
        (bytes "old" ∷ bytes "ca" ∷ [])
        loads
        (ticks (λ c. c) loads (dc, [])).1
new_dynamic_certificate-ticks_example =
    new_dynamic_certificate-ticks (λ c. c) old (bytes "old" ∷ bytes "ca" ∷ []) (bytes "tls.crt")
      (bytes "tls.key") (logger log ∷ interval 5 ∷ []) loads refl

abbrev suites : List CipherSuite
suites = record { id = 0xc02f } ∷ record { id = 0xc013 } ∷ []

offered : get_cipher_suite_ids suites ≡ 0xc02f ∷ []
unfolding get_cipher_suite_ids
offered = refl

contains-get_cipher_suite_ids_example :
    contains (get_cipher_suite_ids suites) 0xc013
    ≡ (contains (cipher_ids suites) 0xc013 && not (contains ciphers_to_remove 0xc013))
contains-get_cipher_suite_ids_example = contains-get_cipher_suite_ids suites 0xc013
