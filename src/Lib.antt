-- ===== src/Lib.antt =====
-- A verification library for the model service of ani-model-service.
--
-- The service keeps models, their versions, artifacts, import tasks and trained artifact
-- registrations in PostgreSQL. Workers lease import tasks, run them and mark versions ready;
-- other services register trained artifacts and delete models. The library models the stores
-- that decide these things, the statements that they run, the domain values, and the worker.
--
--   Prelude: numbers, lists, options, results, and their Boolean tests. Errors: the error values.
--   Database: the connection. Rows are the structs of internal/data/postgres/models.go with the
--     constraints of migrations/*.sql; Table has the statement forms; Exec is the state and error
--     monad of a connection (DBTX) with BeginTx, Commit and Rollback as `transaction`; Tasks, Due and
--     Versions are the queries of internal/data/postgres/model.sql.go, and Registrations those that
--     trained_artifact_store.go writes itself. Keeps and After are rules for chains of operations.
--   Text: the functions of Go's strings, regexp and path packages that the checks use.
--   Model: the checks of internal/biz/model/model.go. Work: internal/biz/work/work.go.
--   TaskStore: WorkStore of internal/data/postgres/work_store.go, an operation for each method.
--     Moves is the state machine of a task, Calls the calls as an alphabet whose interleavings, with
--     the time between them, are lists; Invariant, Ownership, Claiming, Fencing, Refinement and
--     Idempotency hold what follows.
--   VersionStore: version_store.go and artifact_store.go. Integrity, Calls and Intact are about
--     ready versions and their artifacts, Lookup about what a lookup hands out; Creation is
--     CreateVersion, Recreation its repetition, and Marking what MarkReady leaves.
--   TrainedArtifactStore: trained_artifact_store.go, with its methods Complete and Prepare as
--     modules of their own; Publishing and Committing say what a commit writes, Moves, Calls and
--     Terminal are the state machine, Replay, Atomic, Preparing and Repeating what follows.
--   ImportWorker: a due scan of internal/worker/import_worker.go over TaskStore and VersionStore.
--   BundleImport: internal/data/postgres/import_bundle_store.go, with Replay, Atomic and Race,
--     which is about a request that loses its key to another.
--   ModelStore: the creation of a model in internal/data/postgres/model_store.go, with Creation.
--   Listing: the lists of models and of versions of model_store.go and version_store.go, with the
--     statements of model.sql.go in Models and Versions. Order is about ORDER BY, Keyset about the
--     boundary, Pages about the pages of models, and VersionPages about those of versions.
--   ImportExecutor: what internal/worker/import_executor.go records of an import, and Archive the
--     paths of an archive, over Text/Paths, which is path.Clean of Go on segments.
--   Kubernetes: internal/data/kubernetes/import_job.go. Phases is the phase of a Job; Cluster has the
--     objects of an attempt and the calls on them, Ensures and Calm the rules for runs of calls.
--   KubernetesExecutor: internal/worker/kubernetes_executor.go. Storage and Sizes are the size of the
--     volume, Driver is Execute; Cleanup, Watching and Ending say what it leaves and that it ends.
--   Rpc: cmd/ani-model-service/rpc_policy.go, with Metadata and Principals; Guard says what a call
--     has passed when it reaches its handler, Consistent when the tenant headers are taken.
--   Service: internal/service/model.go over the stores. Uploads is CreateModelVersion with the
--     finalisation of an upload, Intact what it keeps, Verified what an answer has been through.
--   Pagination: resolvePage of internal/service/pagination.go. Identity: internal/identity/context.go.
--   Deletion: internal/data/postgres/deletion_store.go.
--   Tests: runs at concrete inputs.
--
-- A UUID is a number, a time a number of nanoseconds, and an integer column a number in its range;
-- a statement that would leave the range fails. clock_timestamp() is the clock of the tables, which
-- stands still during one operation. What other connections do comes between the operations, and
-- inside WorkStore.Create, Prepare, ImportBundle and the creation of a model or a version between
-- the lookup and the insert; inside ImportBundle also after its first replay and before its second
-- reading. uuid.Parse, UUID.String, the SHA-256 digest, the JSON text of the
-- fields of a model or a version, lower of PostgreSQL, err.Error() and uuid.New() are parameters.
-- Prepare counts its own calls, and two of them are enough when no registration that is there at
-- the first insert has the id of the request under another key; otherwise it may call itself without
-- end. The batches of a deletion are cut with the number of ids as fuel, and every batch takes at
-- least one. The poll loop of an import attempt takes a round of fuel for each poll.
--
-- A call to Kubernetes that fails is taken to have had no effect; one whose answer alone is lost is
-- not modelled. DeleteJob asks for foreground deletion, so the Job stays, marked, until the garbage
-- collection has taken its pods, and a claim that is deleted while there is a Job stays with it. The
-- collection runs before any later call, or before none.
--
-- Not modelled: row locks and lost connections, logging, metrics and health, the ticker loop of the
-- worker, the providers of the executor, the Job spec, the storage, Kubernetes and hub clients, the
-- other gRPC handlers and the servers, and of the model catalogue the reads of one model and the latest
-- versions that it adds to a list: they are input and output, or wait for an extension.
pub mod Prelude
pub mod Errors
pub mod Database
pub mod Text
pub mod Model
pub mod Work
pub mod TaskStore
pub mod VersionStore
pub mod TrainedArtifactStore
pub mod ImportWorker
pub mod Deletion
pub mod ImportExecutor
pub mod Pagination
pub mod Identity
pub mod BundleImport
pub mod ModelStore
pub mod Rpc
pub mod Listing
pub mod Service
pub mod Kubernetes
pub mod KubernetesExecutor
mod Tests
