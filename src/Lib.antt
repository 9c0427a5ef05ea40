-- ===== src/Lib.antt =====
-- The Gardener Discovery Server: what the shoots of a Gardener landscape publish, and who may read it.
--
-- Two reconcilers watch the virtual garden cluster. One reads secrets with the OpenID configuration
-- and the key set (JWKS) of a shoot's service accounts, the other reads config maps with the CA bundle
-- of a shoot. Each checks the object against the project and the shoot that it names, and writes it
-- to an in-memory store, or deletes what is stored. HTTP handlers read the two stores under
-- `projectName--shootUID`. A third handler serves documents of the landscape itself, read at the start.
-- The TLS certificate of the server is read again at each tick of a timer.
--
-- Which file models which code:
--   Common/*                strings as lists of bytes, maps as association lists with one entry for a
--                           key, results with an error, and their laws
--   Store                   internal/store/store.go: Store, NewStore, MustNewStore, Read, Write,
--                           Delete, Len
--   Store/Memory            byte slices: the heap is a list of arrays, a slice is the number of its
--                           array; make, copy, and what keeps an array as it is
--   Store/Certificate, Store/Openidmeta
--                           internal/store/certificate/data.go, internal/store/openidmeta/data.go:
--                           Data and Copy
--   Store/DeepCopy          what Read and Write need of a copy function
--   Store/World, Store/Isolation
--                           the store beside callers that make, change and hand over slices
--   Store/Writers           store.go: Write in its two parts, overlapping with other calls
--   Store/Size              how many entries there are
--   Store/Api               Reader and Writer of store.go as operations with laws; the reconcilers
--                           and the handlers use these
--   Utils, Utils/Load       internal/utils/utils.go: SplitProjectNameAndShootUID, LoadKeySet,
--                           LoadOpenIDConfig
--   Reconciler, Reconciler/Checks
--                           what both reconcilers read of the cluster, and their guards
--   Reconciler/Openidmeta   internal/reconciler/openidmeta/metadata.go: Reconcile
--   Reconciler/Certificate  internal/reconciler/certificate/reconciler.go: Reconcile, init,
--                           createMapping, deleteMapping
--   Reconciler/Certificate/Tracked, Reconciler/Certificate/Keeps, Reconciler/Certificate/Own
--                           reconciler.go: storeMapping and the store together
--   Reconciler/Events       internal/reconciler/openidmeta/add.go and certificate/add.go:
--                           secretPredicate, configmapPredicate, and what they call
--   Reconciler/Watch        openidmeta/add.go: the controller over the events of the secrets
--   Reconciler/Workers      openidmeta/add.go and certificate/add.go: the workers of both controllers
--   Reconciler/CaWatch      certificate/add.go: the controller over the events of the config maps
--   Handler, Handler/Http   internal/handler/handler.go: SetHSTS, AllowMethods, NotFound, StoreRequest,
--                           over the request and the response writer of net/http
--   Handler/Certificate, Handler/Openidmeta, Handler/Workloadidentity
--                           the handler.go of the same folder of internal/handler
--   Dynamiccert             internal/dynamiccert/certificate.go: New, reloadCert, areEqual,
--                           GetCertificate, WithRefreshInterval, WithLogger, and what is logged
--   Options, Options/Decimal
--                           cmd/discovery-server/app/options/options.go: Validate and ApplyTo
--   Options/Flags           options.go: NewOptions and AddFlags
--   Metrics                 internal/metrics/metrics.go: InstrumentHandler
--   Metrics/Registration    metrics.go: init
--   App                     cmd/discovery-server/app/app.go: getCipherSuiteIDs
--   App/Command             app.go: NewCommand
--   App/Setup               app.go: run up to its goroutines; openidmeta/add.go and
--                           certificate/add.go: SetupWithManager
--   App/Mux, App/Routes     app.go: the routes that run registers at an http.ServeMux
--   App/Run                 app.go: the goroutines of run and runServer, their channels and contexts
--   App/Main                cmd/discovery-server/main.go, and what run of app.go returns
--   Server                  the endpoints over the stores that the reconcilers have filled
--   Tests/*                 concrete clusters, stores, requests and libraries, and what the theorems
--                           say of them
--
-- How the code is translated. A pure function is a function. A method that changes a struct takes the
-- struct and returns it; what changes byte slices is in the state monad `M` of Store/Memory. A guard of
-- a reconciler that removes the entry and returns is a `Check` that ends in `drop`; one that returns an
-- error ends in `abort`; a nil dereference ends in `panic`. `settle` says what each end does to the
-- store and returns. The code reads all it reads before it writes, so that one cluster stands for
-- what the client answers during a reconciliation, and each `Get` names a different object.
--
-- Parameters. The API client (`Cluster`), encoding/json and go-jose (`Jose`), pem, x509, json.Marshal
-- and the printed form of a request (`Libraries`), url.Parse, uuid.Parse, os.ReadFile and
-- tls.LoadX509KeyPair are arguments of the definitions that call them, and so are the names of labels
-- and annotations that come from Gardener's packages (`Constants`). What is asked of them: that
-- pem.Decode returns a rest that is shorter than what it was given (`Shrinks`), and, for the events of
-- config maps, that the three constants are the strings that the reconciler spells out, and that two
-- requests with the names that an API server allows are printed differently. The packages
-- promhttp, prometheus, pflag and cobra are records of operations with the laws that they document
-- (`Promhttp`, `Prometheus`, `Pflag`, `Cobra`), and controller-runtime is one of operations without
-- laws (`Runtime`). Arguments too are the redirection that net/http answers to a path that is not
-- clean, and whether a command line asks for help or the version.
--
-- Fuel. The loop over the PEM blocks runs on the length of the data plus one: each block shortens the
-- rest, so that the fuel does not run out. The digits of a port run on the port plus one. All other
-- loops are on the structure of a list.
--
-- Concurrency. The methods of a store run under its lock, and those of the mapping under the
-- reconciler's: they are steps, and an execution is a list of steps. A reconciliation reads the
-- cluster, and then takes one step at the store: Reconciler/Workers has many that overlap. Only
-- `Write` does something before it takes the lock, which is a step of its own in Store/Writers.
-- controller-runtime does not run two reconciliations of one request at a time. In App/Run each goroutine has its own state, and
-- a step is one of a goroutine, or of two that meet at a channel. `Free` has what the outside does,
-- `Due` what happens when it can, under what net/http and controller-runtime document: `Start` returns
-- once its context is cancelled, `Shutdown` within its timeout, and `ListenAndServeTLS` with
-- `ErrServerClosed` after `Shutdown` was called.
--
-- Not modelled: log lines but for those of the certificate, errors of writing a response (the code
-- logs them), the help texts of the metrics and of the flags, the scheme of the API client, the
-- normalisation of the names of global flags, the flags that other packages register, a caller that changes an array while `Write` copies it
-- (a data race), and TLS itself.
pub mod Common
pub mod Utils
pub mod Store
pub mod Handler
pub mod Reconciler
pub mod Dynamiccert
pub mod Server
pub mod Metrics
pub mod App
pub mod Options
pub mod Tests
