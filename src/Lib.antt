-- ===== src/Lib.antt =====
-- A verification library for go-toolbelt, a set of Go packages for services and command-line tools.
--
-- The packages are small and mostly independent: an application wires them by a lifecycle of `Start`
-- and `Stop`. Here is what models which part; a path is from the root of the repository.
--
-- StrictJson (strictjson/strictjson.go). StrictJson.antt has one round of the loop in
--   `validateTokens`, its frames and its flag; Stream runs it over a decoder, which stands for
--   encoding/json; Grammar says what a value is, how deep, and when its names are unique; Complete
--   and Sound relate the two. Decode has `Decode`, `DecodeReader` and `sanitizeDecodeError`.
-- LocalGateway (localgateway/). Admission is admission.go: `Accept`, `Close` and the connections,
--   each critical section a step of a system with any number of callers. Gate is `handlerGate` of
--   gateway.go in the same style, Config its `Config` and `New`, and Server `Start` and `Stop`. Client
--   is `NewClient` and `Dial`, and Cond what Admission and Gate use of `sync.Cond`. Echo is the example
--   examples/localgateway-echo/main.go, its server and its client. Endpoint is endpoint_unix.go: the
--   checks on a socket and on its directory; Removal has the socket that is left from before and the
--   cleanup, Listen the listening, the dialing and the peers, with peer_linux.go, Race the cleanup
--   among other processes, with restore_linux.go, and Windows is endpoint_windows.go, with the thread
--   of the operating system in Impersonation.
-- OidcVerifier (oidcverifier/oidcverifier.go). Settings has `New` and the checks on its
--   configuration, Discovery `Discover`, which reads its document by `DecodeReader` of StrictJson,
--   Lifecycle `Start`, `Stop` and `Ready`, Tokens `Verify`, and Keys the remote key set.
-- Artifact (artifact/artifact.go). Copy has `copyAndDigest` and `Store.Path`, Stored
--   `validateStoredArtifact`, Publish `Store.Put`, and Inspect `Inspect` and `Digest`.
-- Process (process/process.go, cancel_nonwindows.go and cancel_windows.go). Control has the command
--   that `Start` makes of a `Spec`, and `Stop` and `Kill`; Events the events and the result of `Run`,
--   one after another; Lifetime the same under any interleaving of the goroutines of a process; Env
--   `mergeEnv`, and Sinks `WriterSink` and `Scrollback`.
-- ProcessLock (processlock/processlock.go, Unix for processlock/lock_unix.go, and Windows for
--   processlock/lock_windows.go): `Start`, `Stop`, and the acquisition of the lock.
-- EventBus (eventbus/eventbus.go): `Broker`, with its channels, and in Publishers the publishers.
-- PrivateDir (Path for privatedir/privatedir.go, Unix for privatedir/privatedir_unix.go, and Windows for
--   privatedir/privatedir_windows.go): the paths, and the making and the checks of a private directory,
--   which the process lock demands too. Acl has what the checks of Windows have in common.
-- SqlStore (sqlite/sqlite.go, postgres/postgres.go, which share most of their code). Migrations has
--   `runMigrations` over a database with transactions, Connect the opening and the closing after an
--   error, Lifecycle `Start` and `Stop` under any interleaving, with the calls that open and close a
--   database, Calls below it whole calls of them, Sqlite the configuration of the
--   one, and Postgres `New`, `Start` and `Stop` of the other.
-- EmbeddedNats (embeddednats/embeddednats.go). Launch has `New` and the parts of `Start` outside its
--   mutex, with the calls they make, EmbeddedNats.antt `Start`, `waitForShutdown` and `Stop` under any
--   interleaving, and Client the connections.
-- HttpServer (httpserver/httpserver.go, and Echo for the server of echoserver/echoserver.go): `New`,
--   `Start` and `Stop`, and in Life any sequence of them.
-- Logging (logging/logging.go): the levels, the choice of a handler, and in RequestId the request id.
-- Ai (ai/ai.go): `Client`, and in Cli examples/ai-cli/main.go.
-- Jobs (examples/advanced-jobs/main.go). Manager is `JobManager` under any interleaving, Listing its
--   `Jobs`, also as a function of a map without order, Commands the command line and the HTTP
--   handlers over it, with their routes in Routes, and Scanner the goroutine that reads the lines and
--   the loop that takes them.
-- Base has the shared names: numbers, lists and texts, Go's signed numbers, and results with errors;
--   Words has `strings.Fields`, Mode the mode of a file, Bytes the comparison of bytes, and Ids sets of
--   numbers.
--
-- What the code calls outside the repository is an argument: the decoder and the reader of
-- encoding/json and io, `url.Parse`, the JOSE library, SHA-256, a database with its transactions
-- (with what database/sql says of a commit that succeeds and of a rollback), the models and agents of fantasy, the contexts
-- and handlers of context and log/slog, and what each system call returns.
-- Numbers are natural numbers; a signed one is ℤ of Base.Int where the code tests its sign.
--
-- Fuel: `Validate` runs with one more than the input that is left in the decoder, which suffices as
-- each token uses input up. The loops over a reader or a link are over a list of what their rounds
-- meet; where the list ends before the loop does, the result is an error of its own. Goroutines are
-- steps of a relation, without fuel, and a bound on the number of steps is proved where they are to end.
--
-- Not modelled: the router of echoserver, which only holds a third-party one, the wiring of the
-- examples, times, logs, and the texts of errors. Calls of `Start` of a store may overlap in the steps
-- of SqlStore; where a theorem is about calls that do not, as go-app makes them, it says so. The status
-- of the job that `StartJob` returns is left out, as it is read outside the mutex.
pub mod Base
pub mod StrictJson
pub mod LocalGateway
pub mod OidcVerifier
pub mod Artifact
pub mod Process
pub mod ProcessLock
pub mod EventBus
pub mod SqlStore
pub mod Jobs
pub mod PrivateDir
pub mod EmbeddedNats
pub mod HttpServer
pub mod Logging
pub mod Acl
pub mod Ai
