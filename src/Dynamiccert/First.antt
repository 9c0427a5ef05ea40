-- ===== src/Dynamiccert/First.antt =====
-- The first certificate of internal/dynamiccert/certificate.go, as cmd/discovery-server/app/app.go
-- asks for it.
use gardener_discovery_serve.Common.{ℕ, ◌≡◌, refl, sym, ap, ◌∙◌, [], ◌∷◌, Bytes}
use gardener_discovery_serve.Common.Results.{Result, ok, err}
use gardener_discovery_serve.Dynamiccert.{
  Logger, DynamicCertificate, Loader, get_certificate, on_first_load, with_refresh_interval,
  with_logger, apply_options, new_dynamic_certificate,
}

module _ {L Cert Sink : Type 0} (load : Loader L Cert) (cert_file key_file : Bytes)
    (log : Logger Sink) (interval : ℕ) where
  -- The certificate is the pair that was read from the two files, which are read again after each
  -- interval, and it logs to `log`.
  pub record IsLoaded (dc : DynamicCertificate Cert Sink) : Type 0 where
    pub loaded : load cert_file key_file ≡ ok (get_certificate dc)
    pub same_cert_file : dc.cert_file ≡ cert_file
    pub same_key_file : dc.key_file ≡ key_file
    pub same_interval : dc.interval ≡ interval
    pub same_log : dc.log ≡ log

  on_first_load-IsLoaded :
      (loaded : Result L Cert) (dc : DynamicCertificate Cert Sink)
      → load cert_file key_file ≡ loaded
      → on_first_load cert_file key_file
          (with_logger log ∷ with_refresh_interval interval ∷ [])
          loaded
        ≡ ok dc
      → IsLoaded dc
  unfolding apply_options with_refresh_interval with_logger get_certificate
  on_first_load-IsLoaded (err e) dc h k = absurd (cc)
  on_first_load-IsLoaded (ok cert) dc h k =
      let same : record {
        cert_file = cert_file;
        key_file = key_file;
        interval = interval;
        certificate = cert;
        log = log;
      }
          ≡ dc =
        cc k in
      record {
        loaded = h ∙ ap (λ d. ok (DynamicCertificate.certificate d)) same;
        same_cert_file = sym (ap (λ d. DynamicCertificate.cert_file d) same);
        same_key_file = sym (ap (λ d. DynamicCertificate.key_file d) same);
        same_interval = sym (ap (λ d. DynamicCertificate.interval d) same);
        same_log = sym (ap (λ d. DynamicCertificate.log d) same);
      }

  pub new_dynamic_certificate-IsLoaded :
      (dc : DynamicCertificate Cert Sink)
      → new_dynamic_certificate load cert_file key_file
          (with_logger log ∷ with_refresh_interval interval ∷ [])
        ≡ ok dc
      → IsLoaded dc
  unfolding new_dynamic_certificate
  new_dynamic_certificate-IsLoaded dc h = on_first_load-IsLoaded (load cert_file key_file) dc refl h
