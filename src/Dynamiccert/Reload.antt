-- ===== src/Dynamiccert/Reload.antt =====
-- What the server of internal/dynamiccert/certificate.go presents and logs after any number of ticks.
use mathlib.Core.Path.{subst}
use gardener_discovery_serve.Common.{
  ℕ, ◌≡◌, ◌↔◌, refl, sym, ◌∙◌, inl, inr, true, Bool-cases, List, [], ◌∷◌, Bytes,
}
use gardener_discovery_serve.Common.Results.{Result, ok, err}
use gardener_discovery_serve.Dynamiccert.{
  Logger, discard, DynamicCertificate, Setter, Logged, Loader, are_equal, ticks, get_certificate,
  apply_options, with_refresh_interval, with_logger, new_dynamic_certificate, minute,
}
use gardener_discovery_serve.Dynamiccert.Chains.{
  are_equal_sound, are_equal_refl, loaded, loaded_keeps,
}
use gardener_discovery_serve.Dynamiccert.Logs.{Tells, ticks-Tells}

-- `areEqual` decides equality of the chains.
pub are_equal_iff : (a b : List Bytes) → (are_equal a b ≡ true) ↔ (a ≡ b)
are_equal_iff a b =
    (are_equal_sound a b, λ e. subst (λ x. are_equal a x ≡ true) e (are_equal_refl a))

module _ {E Cert : Type 0} (chain : Cert → List Bytes) where
  -- The certificate that was loaded last without an error, or else the first.
  abbrev pub last_loaded : List (Loader E Cert) → Bytes → Bytes → Cert → Cert
  last_loaded [] cert_file key_file first = first
  last_loaded (load ∷ loads) cert_file key_file first =
      last_loaded loads cert_file key_file
        (elim (load cert_file key_file) [ ok cert ↦ cert | err e ↦ first ])

  -- what one load makes of the certificate
  abbrev loaded_or : Result E Cert → Cert → Cert
  loaded_or r first = elim r [ ok cert ↦ cert | err e ↦ first ]

  module _ {Sink : Type 0} where
    loaded_chain :
        (r : Result E Cert) (s : Logged E Cert Sink) (c : Cert)
        → chain s.0.certificate ≡ chain c
        → chain (loaded chain r s).0.certificate ≡ chain (loaded_or r c)
    loaded_chain (err e) (dc, calls) c h = h
    loaded_chain (ok cert) (dc, calls) c h =
        elim (Bool-cases (are_equal (chain cert) (chain dc.certificate))) [
          | inl same ↦ rw same (sym (are_equal_sound (chain cert) (chain dc.certificate) same))
          | inr changed ↦ rw changed
        ]

    ticks_chain :
        (loads : List (Loader E Cert)) (s : Logged E Cert Sink) (c : Cert)
        → chain s.0.certificate ≡ chain c
        → chain (ticks chain loads s).0.certificate
          ≡ chain (last_loaded loads s.0.cert_file s.0.key_file c)
    unfolding ticks
    ticks_chain [] s c h = h
    ticks_chain (load ∷ loads) (dc, calls) c h =
        let r = load dc.cert_file dc.key_file in
        let (same_cert, same_key, same_log) = loaded_keeps chain r (dc, calls) in
        ticks_chain loads (loaded chain r (dc, calls)) (loaded_or r c)
          (loaded_chain r (dc, calls) c h)
        ∙ (rw (same_cert, same_key))

-- The options of `New`.
pub data Choice (Sink : Type 0) : Type 0 where
  interval : ℕ → Choice Sink
  logger : Logger Sink → Choice Sink

module _ {Sink : Type 0} where
  abbrev pub chosen : {Cert : Type 0} → List (Choice Sink) → List (Setter Cert Sink)
  chosen [] = []
  chosen (interval i ∷ choices) = with_refresh_interval i ∷ chosen choices
  chosen (logger log ∷ choices) = with_logger log ∷ chosen choices

  -- The logger that was chosen last, or else the first.
  abbrev pub last_logger : List (Choice Sink) → Logger Sink → Logger Sink
  last_logger [] first = first
  last_logger (interval i ∷ choices) first = last_logger choices first
  last_logger (logger log ∷ choices) first = last_logger choices log

  module _ {Cert : Type 0} where
    apply_chosen :
        (choices : List (Choice Sink)) (dc : DynamicCertificate Cert Sink)
        → ((apply_options (chosen choices) dc).certificate ≡ dc.certificate)
          × ((apply_options (chosen choices) dc).cert_file ≡ dc.cert_file)
          × ((apply_options (chosen choices) dc).key_file ≡ dc.key_file)
          × ((apply_options (chosen choices) dc).log ≡ last_logger choices dc.log)
    unfolding apply_options with_refresh_interval with_logger
    apply_chosen [] dc = (refl, refl, refl, refl)
    apply_chosen (interval i ∷ choices) dc = apply_chosen choices (with_refresh_interval i dc)
    apply_chosen (logger log ∷ choices) dc = apply_chosen choices (with_logger log dc)

    abbrev first_certificate : Bytes → Bytes → Cert → DynamicCertificate Cert Sink
    first_certificate cert_file key_file cert = record {
      cert_file = cert_file;
      key_file = key_file;
      interval = minute;
      certificate = cert;
      log = discard;
    }

    new_dynamic_certificate_ok :
        {E : Type 0} (first : Loader E Cert) (cert : Cert) (cert_file key_file : Bytes)
        (opts : List (Setter Cert Sink))
        → first cert_file key_file ≡ ok cert
        → new_dynamic_certificate first cert_file key_file opts
          ≡ ok (apply_options opts (first_certificate cert_file key_file cert))
    unfolding new_dynamic_certificate
    new_dynamic_certificate_ok first cert cert_file key_file opts made = rw made

module _ {E Cert Sink : Type 0} (chain : Cert → List Bytes) where
  -- Where `New` reads a key pair and has refresh intervals and loggers as its options, it makes a
  -- certificate that presents, after any ticks, the chain of the last key pair that a tick read from
  -- the two files without an error, or that of the first pair where no tick did. To the logger that
  -- was given last, or to one that discards, each tick that failed has told its error, each that
  -- changed the chain that it was reloaded, in the order of the ticks, and the others nothing.
  pub new_dynamic_certificate-ticks :
      (first : Loader E Cert) (cert : Cert) (cert_file key_file : Bytes)
      (choices : List (Choice Sink)) (loads : List (Loader E Cert))
      → first cert_file key_file ≡ ok cert
      → (dc : DynamicCertificate Cert Sink) × (new_dynamic_certificate first cert_file key_file
            (chosen choices)
          ≡ ok dc)
        × (chain (get_certificate (ticks chain loads (dc, [])).0)
            ≡ chain (last_loaded chain loads cert_file key_file cert))
        × Tells chain
            (last_logger choices discard)
            cert_file
            key_file
            (chain cert)
            loads
            (ticks chain loads (dc, [])).1
  unfolding get_certificate apply_options
  new_dynamic_certificate-ticks first cert cert_file key_file choices loads made =
      let start = first_certificate cert_file key_file cert in
      let dc = apply_options (chosen choices) start in
      let (same_cert, same_cert_file, same_key_file, same_log) = apply_chosen choices start in
      let (new, adds, tells) =
        ticks-Tells chain (last_logger choices discard) cert_file key_file loads dc []
          same_cert_file same_key_file same_log in
      (
        dc,
        new_dynamic_certificate_ok first cert cert_file key_file (chosen choices) made,
        ticks_chain chain loads (dc, []) dc.certificate refl
            ∙ (rw (same_cert, same_cert_file, same_key_file)),
        rw same_cert at (
            subst
              (λ calls.
                Tells chain (last_logger choices discard) cert_file key_file (chain dc.certificate)
                  loads calls)
              (sym adds) tells),
      )
