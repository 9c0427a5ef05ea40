-- ===== src/Dynamiccert.antt =====
-- internal/dynamiccert/certificate.go: the TLS certificate of the server, read again at each tick.
pub mod Chains
pub mod Reload
pub mod First
pub mod Logs
use gardener_discovery_serve.Common.{
  ℕ, Bool, true, false, not, ◌&&◌, Option, none, some, List, [], ◌∷◌, ◌++◌, Bytes, bytes, ◌==◌, eqb,
  length, if◌then◌else◌,
}
use gardener_discovery_serve.Common.Results.{Result, ok, err}

-- `logr.Logger` is what the package logr makes of another logger; `Sink` are the loggers it is given.
pub data Logger (Sink : Type 0) : Type 0 where
  discard : Logger Sink
  with_name : Bytes → Sink → Logger Sink

-- The calls of loggers, of which the output is made.
pub data LogCall (E Sink : Type 0) : Type 0 where
  log_error : Logger Sink → E → Bytes → LogCall E Sink
  log_info : Logger Sink → Bytes → LogCall E Sink

-- `Cert` is `tls.Certificate`, of which the code reads the chain.
pub record DynamicCertificate (Cert Sink : Type 0) : Type 0 where
  pub cert_file : Bytes
  pub key_file : Bytes
  pub interval : ℕ
  pub certificate : Cert
  pub log : Logger Sink

-- `tls.LoadX509KeyPair` at some time
abbrev pub Loader : Type 0 → Type 0 → Type 0
Loader E Cert = Bytes → Bytes → Result E Cert

-- nanoseconds
abbrev pub minute : ℕ
minute = 60000000000

-- the loop of `areEqual`; its caller has compared the lengths
unfoldable pub all_equal : List Bytes → List Bytes → Bool
all_equal [] cert2 = true
all_equal (c ∷ cert1) [] = false
all_equal (c ∷ cert1) (d ∷ cert2) = if not (c == d) then false else all_equal cert1 cert2

unfoldable pub are_equal : List Bytes → List Bytes → Bool
unfolding all_equal
are_equal cert1 cert2 =
    if not (eqb (length cert1) (length cert2)) then false else all_equal cert1 cert2

abbrev pub failed_to_reload : Bytes
failed_to_reload = bytes "Failed to reload certificates"

abbrev pub certificate_was_reloaded : Bytes
certificate_was_reloaded = bytes "Certificate was reloaded"

-- `Option`
abbrev pub Setter : Type 0 → Type 0 → Type 0
Setter Cert Sink = DynamicCertificate Cert Sink → DynamicCertificate Cert Sink

-- A certificate, and the calls of loggers so far.
abbrev pub Logged : Type 0 → Type 0 → Type 0 → Type 0
Logged E Cert Sink = DynamicCertificate Cert Sink × List (LogCall E Sink)

module _ {Cert Sink : Type 0} where
  unfoldable pub with_refresh_interval : ℕ → Setter Cert Sink
  with_refresh_interval interval dc = record dc { interval = interval }

  unfoldable pub with_logger : Logger Sink → Setter Cert Sink
  with_logger log dc = record dc { log = log }

  -- `for _, opt := range opts { opt(dynamicCert) }`
  unfoldable pub apply_options : List (Setter Cert Sink) → Setter Cert Sink
  apply_options [] dc = dc
  apply_options (opt ∷ opts) dc = apply_options opts (opt dc)

  unfoldable pub get_certificate : DynamicCertificate Cert Sink → Cert
  get_certificate dc = dc.certificate

module _ {E Cert Sink : Type 0} where
  -- `if err := dynamicCert.reloadCert(); err != nil`
  abbrev on_tick : Logged E Cert Sink × Option E → Logged E Cert Sink
  on_tick (s, none) = s
  on_tick ((dc, calls), some e) = (dc, calls ++ log_error dc.log e failed_to_reload ∷ [])

module _ {E Cert Sink : Type 0} (chain : Cert → List Bytes) where
  abbrev on_load : Result E Cert → Logged E Cert Sink → Logged E Cert Sink × Option E
  on_load (err e) (dc, calls) = ((dc, calls), some e)
  on_load (ok cert) (dc, calls) =
      if are_equal (chain cert) (chain dc.certificate) then ((dc, calls), none) else (
        (record dc { certificate = cert }, calls ++ log_info dc.log certificate_was_reloaded ∷ []),
        none,
      )

  -- The second component is the error that is returned.
  unfoldable pub reload_cert : Loader E Cert → Logged E Cert Sink → Logged E Cert Sink × Option E
  reload_cert load (dc, calls) = on_load (load dc.cert_file dc.key_file) (dc, calls)

  -- the goroutine of `New`
  unfoldable pub ticks : List (Loader E Cert) → Logged E Cert Sink → Logged E Cert Sink
  unfolding reload_cert
  ticks [] s = s
  ticks (load ∷ loads) s = ticks loads (on_tick (reload_cert load s))

module _ {E Cert Sink : Type 0} where
  abbrev on_first_load :
      Bytes
      → Bytes
      → List (Setter Cert Sink)
      → Result E Cert
      → Result E (DynamicCertificate Cert Sink)
  on_first_load cert_file key_file opts (err e) = err e
  on_first_load cert_file key_file opts (ok cert) = ok (
      apply_options opts (record {
        cert_file = cert_file;
        key_file = key_file;
        interval = minute;
        certificate = cert;
        log = discard;
      }))

  unfoldable pub new_dynamic_certificate :
      Loader E Cert
      → Bytes
      → Bytes
      → List (Setter Cert Sink)
      → Result E (DynamicCertificate Cert Sink)
  unfolding apply_options
  new_dynamic_certificate load cert_file key_file opts =
      on_first_load cert_file key_file opts (load cert_file key_file)
