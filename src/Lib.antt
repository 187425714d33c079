-- ===== src/Lib.antt =====
-- infrakube-multicluster: a Kubernetes controller that runs Terraform workflows as pods, on the
-- clusters that a provider engages from their kubeconfig secrets.
--
-- The parts, and where they are modelled:
--   Prelude        tests, lists, association lists and texts that the other modules share
--   Exec           Go code that returns or panics, over a world outside; Exec/Ensures has one rule for
--                  each way to build such code, for what it keeps of the world and what it returns, and
--                  Exec/Yields the like for code that always returns
--   Utils          pkg/utils/utils.go: ListContainsStr, ListRemoveStr, TruncateResourceName,
--                  AutoHashLabeler
--   Task           pkg/apis/infrakube/v1/tf_types.go and helpers.go: task names, lists and ids
--   Kube           the Kubernetes objects, with the fields that the code names
--   Resource       tf_types.go: Terraform with its specification and status, Stage.IsEqual
--   Workflow       pkg/controllers/tf_controller.go: nextTask and getConfiguredTasks
--   Stages         tf_controller.go: newStage, isTaskInterruptable and checkSetNewStage
--   Options        tf_controller.go: TaskOptions and newTaskOptions
--   Controller     tf_controller.go: the finalizers (updateFinalizer, updateSecretFinalizer,
--                  getGitSecrets), the cached node settings, getTfResource, update and
--                  updateStatusWithRetry, the plugins of a stage, and in Controller/Reconcile the round
--                  of `reconcile` in the parts between its returns; Controller/Writes has what a
--                  status update keeps, and Controller/Dispatch is Reconcile
--   Objects        tf_controller.go: the objects of a task, by validateVolume and the generate functions
--                  (generatePod, generateJob, generateRole and the others)
--   Addresses      tf_controller.go: getForcedGetter, sshDetector and getParsedAddress
--   Creation       tf_controller.go: the functions that look for, delete and create each kind, run and
--                  setupAndRun, createEnvFromSources, loadPassword, createGitAskpass and
--                  formatJobSSHConfig; Creation/Store has the abstract cluster, and
--                  Creation/Tasks fills the `Runner` of the reconciler
--   Reapers        tf_controller.go: backgroundReapOldGenerationPods and reapPlugins
--   Tofu           pkg/controllers/tofu_controller.go, the controller of a second kind: its own functions
--                  around `run`, and in Tofu/Controller the functions that are those of tf_controller.go
--                  up to names
--   CacheServer    pkg/controllers/cache_server.go: the handlers, over a disk, with what they use of
--                  path/filepath
--   Command        cmd/manager/main.go: the global environment and the settings of the reconcilers
--   Multicluster   pkg/multicluster: the provider of clusters and the manager's Start
--   Scenarios      concrete resources, clusters and a small API server, on which all of this is run
--
-- How they interact: `reconcile` takes a lock in the cache, reads the resource, settles its
-- finalizers, and then stores a first stage, the stage that `check_set_new_stage` chooses, or what the
-- pod of the present stage shows. The stage's task is chosen by `next_task` among the configured tasks,
-- and its pod is made from `new_task_options`. Every write goes through `update` or
-- `update_status_with_retry`.
--
-- The state: a resource is a record, and what is outside the repository is a function of a world
-- `W` (Controller/Api: the client of the API server, the cache, the clock, the random source;
-- `Runner` in Controller/Plugins: the parts that make and run pods, which Creation/Tasks fills;
-- `Cluster` in Creation/Cluster: the client as the creations use it; `Reaping` in Reapers; `Libraries`
-- in Addresses/Parse: net/url and go-getter; `Disk` in CacheServer: the package os; `Engine` in
-- Multicluster/Provider: client-go and the manager). `Go` tells a panic from a return, and what was
-- written before a panic stays written. Phases, states and
-- tasks are texts, as in the source, which stores the phase of a pod as the state of a stage. A Go
-- map with text keys is an association list, or the function that reads it. Times are seconds.
--
-- Bounds: the retries of getTfResource and updateStatusWithRetry are recursion on the attempts that are
-- left, with the source's numbers (3 or 10 reads, 10 updates, 10 confirmations). `decimal` has one more
-- than its number as fuel, and a number has no more digits. `remove_loop` runs over the length that the
-- list has at its start, as the range of Go does. `walk` and `stages_run` are cut after a number of
-- tasks, and the theorems ask only that it exceeds the places that are left.
--
-- The reapers recurse on fuel: they give up after 21 attempts, so 22 calls are enough.
--
-- Not modelled: generated code, the registration of watches and of HTTP handlers, the parsing of
-- flags. The waits between retries and the log are left out, and so is the security context of a pod.
-- A goroutine that the reconciler starts runs at once. The handlers of the provider are one sequence of
-- events: the informer calls them one after the other. The errors that the updates of a Tofu resource
-- return keep the words of the Terraform controller.
pub mod Prelude
pub mod Exec
pub mod Utils
pub mod Task
pub mod Kube
pub mod Resource
pub mod Workflow
pub mod Stages
pub mod Objects
pub mod Options
pub mod Controller
pub mod Addresses
pub mod Creation
pub mod Reapers
pub mod Tofu
pub mod CacheServer
pub mod Command
pub mod Multicluster
pub mod Scenarios
