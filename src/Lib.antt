-- ===== src/Lib.antt =====
-- The Verrazzano monitoring operator: a model of its core and the theorems about it.
-- The operator reconciles instances of a custom resource with stateful sets, deployments and volume
-- claims of Kubernetes, and looks after the OpenSearch cluster that runs on them. A reconciliation
-- fills in the defaults of the instance (VmoSpec), creates and resizes its claims (PvcUpdate),
-- plans which stateful sets to create, update and delete (Plan), carries the plan out where the
-- health of OpenSearch allows it (StatefulSets, Health), rolls out the deployments, keeps the
-- policies of the indices (Ism) and the index patterns of Dashboards (Dashboards), and lets a monitor
-- migrate old indices beside it (Monitor); Controller puts these stages together. A hook of its own
-- backs the cluster up and restores it (Backup).
--
-- Which file models which part (paths from the repository's root):
-- Vmi: the custom resource, pkg/apis/vmcontroller/v1/types.go, with the fields that are read.
-- Kube: the Kubernetes objects, cut down to the fields that are read.
-- Names, Containers: names and container environments of pkg/resources/helper.go.
-- Nodes: pkg/resources/nodes/nodes.go. Memory: pkg/util/memory.
-- Storage: `initStorageElement` of pkg/vmo/vmospec.go; VmoSpec: the rest of that file.
-- VmoStorage, Claims, PvcUpdate: pkg/vmo/pvc_update.go and `CreatePersistentVolumeClaims`.
-- Pvc: pkg/resources/pvcs/pvc.go, pkg/vmo/utils.go and the counter of pkg/vmo/pvc.go.
-- StorageClasses: the storage classes of pkg/vmo/pvc.go.
-- StatefulSets: pkg/vmo/statefulset.go, with pkg/resources/statefulsets/plan.go in Plan.
-- Deployments: pkg/vmo/deployment.go, without its metrics.
-- Health: pkg/opensearch/health.go and the checks of pkg/opensearch/opensearch.go.
-- Ism, Policy: pkg/opensearch/ism.go, and what pkg/opensearch/opensearch.go does with policies.
-- Migration, Retention: pkg/opensearch/opensearch_upgrade.go, pkg/config/reindex_config.go.
-- SavedObject, Patterns, Dashboards: pkg/opensearch_dashboards.
-- Reconcilers: pkg/vmo/service.go, ingress.go, rolebindings.go, configmap.go and suboperator.go.
-- Controller: pkg/vmo/controller.go, a sync over the stages that Controller/Operator puts together.
-- Backup: verrazzano-backup-hook, with its own calls, outcomes and monad in Backup/Hook; Search is
--   opensearch/opensearch.go, Cluster and Keystore are utilities/k8s/k8sHelper.go, Main is main.go.
-- Monitor: pkg/upgrade/upgrade.go. Server: the calls that leave the operator.
-- Examples: runs on concrete inputs. Prelude: shared names, Go's integers, texts, maps and errors.
-- A Go function `DoThis` is `do_this` here; its loops and closures are functions of their own.
--
-- Go values: an `int32` or `int` is an integer kept within its width by `add32`, `add64` and
-- `wrap32`; a pointer to a struct is an `Option`; a nil slice and an empty one are the same list; a
-- map is an association list, and where the order of a loop over a map shows, the order is a
-- parameter. An error is a text without its arguments, and a run-time panic is a result of its own.
-- Code that calls a server is a function of an arbitrary `env`, which answers a call from the calls
-- made before; the calls are recorded, and theorems that count them hold for every `env`.
-- Loops over lists are structural. Fuel stands in two places: `digits`, where `suc n` rounds are
-- enough for the digits of n, and `trim`, which has one round for each name; both are proved enough
-- where they are used.
-- Loops that wait for a server take a number of rounds, and have a result of their own for a loop
-- that is not left: `none` for the pages of Dashboards, where one round more than there are index
-- patterns is enough if Dashboards keeps its word, and `running` for the backup hook, where the
-- rounds that Backup/Ends asks for are enough whatever the servers answer.
-- What a function starts in a goroutine runs where its channel is read: one of the interleavings.
-- The checks of pods that the backup hook starts together run one after the other.
-- A decoded JSON document keeps the value of a field that it lacks, as `json.Unmarshal` does. In the
-- actions of policies, which are untyped maps, a number that the code writes is an `int` and one that
-- is decoded a `float64`.
--
-- Parameters for code outside the repository: `diff.Diff` of github.com/verrazzano/pkg,
-- `resource.ParseQuantity` of k8s.io/apimachinery, `http.NewRequest`, `json.Marshal`, `regexp`, the
-- environment, the API server, the HTTP servers and the source of random numbers. `statefulsets.New`,
-- `deployments.New`, `services.New` and `ingresses.New`, which fill in templates, are arguments too:
-- the theorems hold whatever objects they ask for.
-- Not modelled: the builders of Kubernetes objects, secrets and certificates, logging and metrics,
-- generated clients and the command line, which hold no logic of their own beyond library calls;
-- and the making of the controller, whose informers and work queue are library code.
pub mod Prelude
pub mod Vmi
pub mod Names
pub mod Nodes
pub mod Kube
pub mod Storage
pub mod Memory
pub mod Containers
pub mod Plan
pub mod Server
pub mod Health
pub mod StorageClasses
pub mod StatefulSets
pub mod VmoSpec
pub mod Claims
pub mod VmoStorage
pub mod Pvc
pub mod PvcUpdate
pub mod Monitor
pub mod Examples
pub mod Deployments
pub mod Policy
pub mod Ism
pub mod Migration
pub mod Retention
pub mod Backup
pub mod SavedObject
pub mod Patterns
pub mod Dashboards
pub mod Controller
pub mod Reconcilers
