-- ===== src/Dynamiccert/Logs.antt =====
-- What the goroutine of internal/dynamiccert/certificate.go logs.
use gardener_discovery_serve.Common.{
  ◌≡◌, ◌≢◌, sym, ◌∙◌, inl, inr, Bool-cases, List, [], ◌∷◌, ◌++◌, append_assoc, append-nil, Bytes,
}
use gardener_discovery_serve.Common.Results.{Result, ok, err}
use gardener_discovery_serve.Dynamiccert.{
  Logger, LogCall, log_error, log_info, DynamicCertificate, Loader, are_equal, ticks,
  failed_to_reload, certificate_was_reloaded,
}
use gardener_discovery_serve.Dynamiccert.Chains.{
  are_equal_sound, are_equal_refl, loaded, loaded_keeps,
}

module _ {E Cert Sink : Type 0} (chain : Cert → List Bytes) (log : Logger Sink)
    (cert_file key_file : Bytes) where
  -- What is to be logged over some ticks, where the chain was another before: each failure with its
  -- error, and each change of the chain.
  pub data Tells : List Bytes → List (Loader E Cert) → List (LogCall E Sink) → Type 0 where
    no_tick : {before : List Bytes} → Tells before [] []
    fails :
        {before : List Bytes} {load : Loader E Cert} {loads : List (Loader E Cert)}
        {calls : List (LogCall E Sink)} (e : E)
        → load cert_file key_file ≡ err e
        → Tells before loads calls
        → Tells before (load ∷ loads) (log_error log e failed_to_reload ∷ calls)
    renews :
        {before : List Bytes} {load : Loader E Cert} {loads : List (Loader E Cert)}
        {calls : List (LogCall E Sink)} (cert : Cert)
        → load cert_file key_file ≡ ok cert
        → chain cert ≢ before
        → Tells (chain cert) loads calls
        → Tells before (load ∷ loads) (log_info log certificate_was_reloaded ∷ calls)
    stays :
        {before : List Bytes} {load : Loader E Cert} {loads : List (Loader E Cert)}
        {calls : List (LogCall E Sink)} (cert : Cert)
        → load cert_file key_file ≡ ok cert
        → chain cert ≡ before
        → Tells before loads calls
        → Tells before (load ∷ loads) calls

  abbrev pub Adds :
      List Bytes → List (Loader E Cert) → List (LogCall E Sink) → List (LogCall E Sink) → Type 0
  Adds before loads calls later =
      (new : List (LogCall E Sink)) × (later ≡ calls ++ new) × Tells before loads new

  on_tick-Adds :
      (r : Result E Cert) (load : Loader E Cert) (loads : List (Loader E Cert))
      (dc : DynamicCertificate Cert Sink) (calls later : List (LogCall E Sink))
      → load cert_file key_file ≡ r
      → dc.log ≡ log
      → Adds
          (chain (loaded chain r (dc, calls)).0.certificate)
          loads
          (loaded chain r (dc, calls)).1
          later
      → Adds (chain dc.certificate) (load ∷ loads) calls later
  on_tick-Adds (err e) load loads dc calls later h same_log (new, adds, tells) = (
    log_error log e failed_to_reload ∷ new,
    adds ∙ append_assoc calls (log_error dc.log e failed_to_reload ∷ []) new ∙ (rw same_log),
    fails e h tells,
  )
  on_tick-Adds (ok cert) load loads dc calls later h same_log rest =
      elim (Bool-cases (are_equal (chain cert) (chain dc.certificate))) [
        | inl same ↦
            let (new, adds, tells) = rw same at rest in
            (
              new,
              adds,
              stays cert h (are_equal_sound (chain cert) (chain dc.certificate) same) tells,
            )
        | inr changed ↦
            let (new, adds, tells) = rw changed at rest in
            (
              log_info log certificate_was_reloaded ∷ new,
              adds
                  ∙ append_assoc calls (log_info dc.log certificate_was_reloaded ∷ []) new
                  ∙ (rw same_log),
              renews cert h (λ e. cc (are_equal_refl (chain cert), e, changed)) tells,
            )
      ]

  pub ticks-Tells :
      (loads : List (Loader E Cert)) (dc : DynamicCertificate Cert Sink)
      (calls : List (LogCall E Sink))
      → dc.cert_file ≡ cert_file
      → dc.key_file ≡ key_file
      → dc.log ≡ log
      → Adds (chain dc.certificate) loads calls (ticks chain loads (dc, calls)).1
  unfolding ticks
  ticks-Tells [] dc calls same_cert same_key same_log = ([], sym (append-nil calls), no_tick)
  ticks-Tells (load ∷ loads) dc calls same_cert same_key same_log =
      let r = load dc.cert_file dc.key_file in
      let (keeps_cert, keeps_key, keeps_log) = loaded_keeps chain r (dc, calls) in
      on_tick-Adds r load loads dc calls _ (rw (same_cert, same_key)) same_log (
        ticks-Tells loads (loaded chain r (dc, calls)).0 (loaded chain r (dc, calls)).1
          (keeps_cert ∙ same_cert) (keeps_key ∙ same_key) (keeps_log ∙ same_log))
