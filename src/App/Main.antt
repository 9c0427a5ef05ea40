-- ===== src/App/Main.antt =====
-- cmd/discovery-server/main.go: `main`; cmd/discovery-server/app/app.go: what `run` returns. The
-- normalisation of the names of global flags and the log line are left out.
pub mod Status
use gardener_discovery_serve.Common.{ℕ, ◌≡◌, Bool, Option, none, some, List, [], ◌∷◌, Bytes}
use gardener_discovery_serve.Common.Results.{Result, ok, err, ◌>>=◌, wrap}
use gardener_discovery_serve.Utils.Load.{Jose}
use gardener_discovery_serve.Options.{Config}
use gardener_discovery_serve.Handler.Openidmeta.{OpenidmetaHandler}
use gardener_discovery_serve.Handler.Certificate.{CertificateHandler}
use gardener_discovery_serve.Handler.Workloadidentity.{Url, NewError}
use gardener_discovery_serve.Reconciler.{Constants}
use gardener_discovery_serve.Metrics.{Promhttp}
use gardener_discovery_serve.Dynamiccert.{Loader}
use gardener_discovery_serve.App.{CipherSuite}
use gardener_discovery_serve.App.Setup.{Runtime, RunError, HttpServer, setup}
use gardener_discovery_serve.App.Run.{State, returned, Reach}

-- `errors.Join` of two errors: nil if both are nil.
unfoldable pub join : {X : Type 0} → Option X → Option X → Option (List X)
join none none = none
join none (some b) = some (b ∷ [])
join (some a) none = some (a ∷ [])
join (some a) (some b) = some (a ∷ b ∷ [])

-- What `run` returns: an error before its goroutines start, or those of the goroutines.
pub data RunEnd (S X : Type 0) : Type 0 where
  not_started : S → RunEnd S X
  stopped : List X → RunEnd S X

abbrev pub end_of : {S X : Type 0} → Option (List X) → Result (RunEnd S X) (Unit {0})
end_of none = ok tt
end_of (some errs) = err (stopped errs)

module _ {E Rest Manager Client JsonError UrlError Key L Cert Sink : Type 0}
    (runtime : Runtime E Rest Manager Client) (constants : Constants) (promhttp : Promhttp)
    (jose : Jose JsonError Key) (parse : Bytes → Result UrlError Url) (valid_uuid : Bytes → Bool)
    (load : Loader L Cert) (log : Sink) (suites : List CipherSuite) (oid : OpenidmetaHandler)
    (ca : CertificateHandler) where
  -- What `run` may return for a configuration: the error of its part before the goroutines, or the two
  -- results that it has received when its goroutines have taken some steps, joined.
  pub data Ended {X : Type 0} (conf : Config)
      : Result (RunEnd (RunError E (NewError JsonError UrlError) L) X) (Unit {0}) → Type 0 where
    not_set_up :
        (e : RunError E (NewError JsonError UrlError) L)
        → setup {Sink = Sink} runtime constants promhttp jose parse valid_uuid load log suites oid
            ca conf
          ≡ err e
        → Ended conf (err (not_started e))
    joined :
        (started : Manager × HttpServer Cert Sink) (n : ℕ) (s : State X) (first second : Option X)
        → setup runtime constants promhttp jose parse valid_uuid load log suites oid ca conf
          ≡ ok started
        → Reach n s
        → s.main ≡ returned first second
        → Ended conf (end_of (join first second))

-- The exit status of `main`, for what `ExecuteContext` returns; help and the version end with 0, too.
unfoldable pub main : {E A : Type 0} → Result E A → ℕ
main (ok a) = 0
main (err e) = 1
