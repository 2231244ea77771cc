-- ===== src/Lib.antt =====
-- firefork: a Go orchestrator that snapshots Firecracker microVMs and forks copies of them.
--
-- The program's parts. `internal/template` names templates by keys, keeps them in a registry and builds
-- snapshots of them; `internal/snapshot` caches snapshot bundles on disk and moves them to and from a
-- store; `internal/storage` is that store; `internal/fc` configures and drives Firecracker processes,
-- bare or in a jailer's chroot; `internal/fork` keeps a pool of warm processes (`WarmPool`) and a pool
-- of live forks (`Pool`) that takes slots from it; `internal/workload` talks to the agent in a guest;
-- the commands under `cmd` put these together, the server behind HTTP routes.
--
-- Which file models which part:
--   Prelude             shared helpers: Boolean tests, lists, results, Go's 64-bit integers (Word), Go
--                       strings as lists of bytes with the functions of `strings` (Text), maps (Table)
--   Template/Key        internal/template/key.go: `ParseKey`, and `Entry.Key` of registry.go
--   Template/Registry   internal/template/registry.go: `Registry` and its file; Order is about `List`, File
--                       about `Put`, `persist` and `OpenRegistry`, Removal about `Delete`
--   Template/Def        internal/template/def.go: `Def`, `LoadDef`, `Validate` and the defaults
--   Template/Builder    internal/template/builder.go: `Build` as a pipeline over the host, with the
--                       commands of Setup and Warmup in Shell and the phases from the start of the
--                       machine on in Pipeline, whose Guest and Cleanup are about what a build leaves
--   Snapshot/Cache      internal/snapshot/cache.go: `LocalCache`. The list of `container/list` holds
--                       elements with an identity, to which the map `byKey` points, as in the source.
--   Snapshot/Manifest   internal/snapshot/manifest.go and compress.go: keys (Keys), the schema check, and
--                       decompression with a bound (Bound)
--   Snapshot/Store      internal/snapshot/store.go: `Save`, and `Load` in Load, over the interface of
--                       Storage; Saving is about the one, Loading (with the local paths in Paths) about
--                       the other, RoundTrip about one after the other, Verified about a store that
--                       anyone may have written to
--   Storage             internal/storage/interface.go, as a record of operations and laws
--   Storage/Mock        internal/storage/mock.go, which implements it
--   Storage/S3          internal/storage/s3.go, which implements it over a client of the SDK
--   Fc/Host             the processes, directories and loaded snapshots outside the program
--   Fc/Jailer           internal/fc/jailer.go, and the layout and outcome of chroot.go
--   Fc/Chroot           internal/fc/chroot.go: `PrepareChroot` call by call; Links is about its success,
--                       with what the calls leave in Steps
--   Fc/Machine          internal/fc/config.go and machine.go, and `Snapshot` of snapshot.go;
--                       Portable is about `NewJailed`
--   Fc/Socket           internal/fc/restore_socket.go: the calls as sequences of API requests
--   Fork/Options        internal/fork/options.go: presets and `Validate`
--   Fork/Sweep          internal/fork/sweep.go: `SweepStale`
--   Fork/Pool           internal/fork/pool.go: `Fork`, `forkOne` on its three paths, and,
--                       in Teardown, `Release` and `Shutdown`; Ledger says who owns which process,
--                       Forking and Batch are about `Fork`, Ending about Teardown
--   Fork/WarmPool       internal/fork/warmpool.go: one function for each critical section;
--                       Fork/WarmPool/System interleaves them as a step relation on the pool, the
--                       background goroutines, the slots that callers hold, and the host. Ultra is
--                       `NewUltraWarmPool`, before anyone else has the pool; Settled is about the
--                       processes of a new pool, Leftover about refills that outlive `Close`.
--   Workload/Vsock      internal/workload/vsock.go: `parseAck`, `signCmd`, `canonicalJSON`
--   Workload/Call       the same file: `Call`, with the other end of the connection as its `Peer`;
--                       Delivery is about what it writes and returns
--   Workload/Agent      the same file: `WaitForAgent`, `extractAgentSecret`; Waiting is about the loop
--   Server              cmd/firefork-server/main.go: the state and the answers; the handlers are in
--                       Forking (`handleFork`), Commands (`handleExec`) and Views (the others), the
--                       routes, `auth` and the teardown in Routes, the start of `main` in Startup.
--                       Startup/Lifecycle is about the server that it starts, Context about the end
--                       of the context of `handleFork`, Answers about its answers and Granting about
--                       what it lets through, Access about clients without the token
--
-- State is a record, a Go method is a function that returns the new record beside its result, and an
-- error is a value of the component's `Error` type. A call that holds its mutex throughout is one step.
-- What Go gets from the outside (a UUID, the clock, whether a system call succeeds, what a directory
-- walk reports) is an argument. `int` and `int64` are bit patterns below 2 ^ 64, with the sums,
-- differences and comparisons of Prelude/Word that wrap; `uint64` counters wrap in `increment`.
--
-- Fuel. The eviction loops of `LocalCache` run on the number of elements in the list, and each round
-- takes one out, as the source's own test `order.Len() > 0` has it.
-- `WaitForAgent` runs on the half-seconds up to its deadline and two, which its theorem shows to be enough.
-- `take`, `drop_bytes` and the goroutines of `Fork` recurse on a number that the source counts as well.
--
-- Outside the repository: YAML and JSON, zstd, SHA-256 and HMAC are arguments of the definitions that
-- use them (`encode` and `decode`, `unzip`, `sha`, `mac`), and so is the client of S3 (`Client`), with
-- what the code relies on as hypotheses of the theorems. Any store of objects is a `Storage`.
--
-- Not modelled: the text of error messages and logs, file modes, the SDKs of Firecracker and AWS, a
-- goroutine of `Fork` that panics, requests that a server handles at the same time, the refills that a
-- `Fork` or a server has started (they are counted there, and run in Fork/WarmPool/System only), the
-- commands under cmd other than the server. `filepath.Join` is modelled for components that validation
-- has passed and for a root that is already clean.
pub mod Prelude
pub mod Template
pub mod Snapshot
pub mod Fc
pub mod Fork
pub mod Storage
pub mod Workload
pub mod Server
