-- ===== src/Lib.antt =====
-- The workbench operator: a Kubernetes operator that keeps a remote desktop (a workbench) as a
-- deployment with an xpra server, a service in front of it, volumes, and one job for each app.
--
-- The parts and their files:
--   * Config: the settings (internal/controller/config.go).
--   * Workbench: the custom resource (api/v1alpha1/workbench_types.go); Workbench/Status: the methods
--     UpdateStatusFromDeployment, UpdateStatusFromJob and SetAppStatusFailed
--     (api/v1alpha1/workbench.go).
--   * Kube: the Kubernetes objects with the fields that the code names; Kube/Zero: their zero values.
--   * Deployment and Service: the objects of the server and updateDeployment
--     (internal/controller/deployment.go, service.go).
--   * Job, Job/Passwd and Job/Init: the job of an app, the scan of an image for reserved UIDs, and
--     initJob (internal/controller/job.go).
--   * Storage and Storage/Manager: the providers and the storage manager
--     (internal/controller/storage.go, storage_s3.go, storage_nfs.go, storage_local.go).
--   * Health: the health of the server pod; Names: what the clean-up uses of Go's slices.Sort and
--     slices.BinarySearch; Cluster: the operations on the cluster; Reconcile: the handler (internal/controller/workbench_controller.go,
--     with findJobs, deleteJobs and deleteDeployments of job.go and deployment.go in Cluster).
--   * Main: the flags, the configuration made from them and the start of the manager (cmd/main.go);
--     what it calls of controller-runtime is a parameter.
--   * Platform: what the code calls and does not implement, as a record that everything below takes
--     as a parameter: the API of the cluster, controllerutil, the clock, the container tools. Any
--     call may fail and may change the state of the world. Platform/Monad has the step from world to
--     world; Platform/Only, Total, Contract and Keeps are the logics that the proofs use: which calls
--     a computation makes, that it ends in a value, what holds of the history of calls after it, and
--     that it keeps a property of the history. Platform/Ensures is the logic of what a computation
--     brings about in the state of the platform.
--   * Reconcile/Kept (over KeptJobs), Released, Guarded, Cleanup and Phases follow the calls of one
--     reconciliation. Reconcile/Teardown follows a deleted workbench over repeated ones, on a
--     platform that keeps its word (KeepsWord): it lists the objects that exist and removes the one
--     that is deleted. Teardown/Runs repeats a reconciliation that asks for it, as controller-runtime does.
--   * Reconcile/Settled follows a workbench that is as it should be; Cluster/Settled says which answers
--     such a cluster gives, and Storage/Manager/Settled and Job/Init/Settled follow the rest.
--   * Cluster/Converge says what a platform that stores deployments and services promises, and
--     Reconcile/Converge (over Reconcile/Saves) follows the part of the handler above the apps on it.
--   * Cluster/Jobs says the same of a platform that stores jobs, Reconcile/Jobs follows the loop over
--     the apps and the clean-up on it, and Reconcile/Reached the whole reconciliation.
--   * Reconcile/Role: the markers of the role of the operator, and the accesses that each call needs.
--   * Cluster/Ensure: creation on a platform with a store, where a read gives what was written;
--     Job/Init/Fits and Distinct: what initJob gives; Job/Passwd/Print: the lines of a passwd file,
--     written out and scanned; Storage/Manager/Order: the order of volumes and claims;
--     Workbench/Status/Allowed: statuses after any sequence of updates; Names/Order: the order
--     in which names come.
--   * Base: texts, lists, numbers and maps; Tests: the theorems on sample objects.
--
-- How the code is modelled. Reconcile.reconcile runs the phases of Reconcile in the order of the
-- code; an early return stops the computation with a verdict (done, requeue, an error, a panic). Each
-- call of the platform is put on a history with its answer, newest first. A create or an update gives
-- the object as the server stored it, and the code goes on with that object. A Go map is a list of
-- entries, and a range over it takes them in the order of the list, which may be any; the loop over
-- the apps runs over the map as it was when the loop began. Where the code prints a name with %q, it
-- stands in quotes. The recorder is set, so the tests of it for nil pass. The time since a moment is
-- taken from the clock as an argument.
--
-- Bounds: Names.search_loop runs on fuel, one round for each name, which is enough since each round
-- makes the range smaller. Runs.runs repeats on fuel, which stands for
-- how often the queue brings the workbench back; runs-GivesUp names the number that is
-- enough. Every other loop is by structure. Integers of statuses are unbounded; the code only
-- compares them, prints them and reads them from text.
--
-- Not modelled: of cmd/main.go the parsing of the flags and the logger; the generated deep copies,
-- the registration of the types, of SetupWithManager all but the kinds it names, log output, and the tests.
pub mod Base
pub mod Kube
pub mod Workbench
pub mod Config
pub mod Health
pub mod Deployment
pub mod Service
pub mod Storage
pub mod Job
pub mod Platform
pub mod Cluster
pub mod Names
pub mod Reconcile
pub mod Main
pub mod Tests
