-- ===== src/Lib.antt =====
-- Presto operator: a model of the Kubernetes operator that runs Presto clusters.
--
-- The program is a controller. For each object of kind Presto it keeps a headless service, an
-- external service, three config maps, a replica set for the coordinator, one for the workers, and
-- an autoscaler. `Reconcile` (pkg/controller/presto/presto_controller.go) is called with the name of
-- an object, reads it, and goes through eight steps in a fixed order. A step looks for its object,
-- creates, updates or deletes it where it must, records an event and writes the status; the pass
-- ends at the first step that made a change or failed. When all steps are done, the status follows
-- the phase of the coordinator's pod and the CPU usage of the pods.
--
-- Which file models what:
--   Resource, Resource/ClusterState: the records of pkg/apis/falarica/v1alpha1/presto_types.go
--   Webhook: presto_webhook.go beside it, which the program does not register
--   WatchPredicate: `GenerationChangedPredicate` of pkg/controller/presto/watch_predicate.go
--   Names: names, labels and owner reference of common_util.go
--   Exec/Fallible: `OperatorError` of errors.go, and the errors of the API
--   Ports: `getHTTPPort` of presto_properties.go and `getServicePort` of services.go
--   Properties, Properties/Files: the other functions of presto_properties.go, and constants.go
--   Catalog: catalog.go
--   Pods, Pods/Build: the pod templates of presto_pods.go, and `getPropsVolumeMount`
--   ReplicaSets: the functions of presto_pods.go that call the API
--   Services, ConfigMaps: services.go, `createConfigMap` and its callers
--   Autoscaling: hpa_handler.go
--   Status: `ClusterUpdateAction`, `updateStatus` and `getPresto` of presto_controller.go
--   Cpu: `getCPUUsage` and `getCoordinatorPodPhase`
--   Steps, Steps/Sets: the eight steps
--   Reconcile: `Reconcile`, the registry of periodic events, and the requests of one tick
--   Watches: `add`, what the controller watches
--   Cluster: a cluster whose objects only the operator writes, the law `Keeper` of its platform, and
--     below it how each step runs on it: Cluster/Runs and Cluster/Makes compose operations of known
--     effect, Cluster/Services to Cluster/HpaStep treat the eight steps (the object is there and is
--     kept, or is missing and is built), Cluster/Pass composes them to a pass and Cluster/Passes to
--     any number of calls of `Reconcile`
--   Owners: to whom the built objects belong
--   Base, Exec, Kube, Platform, Session: shared types and notation
--   the other files below these: theorems; Spending: the calls that write, counted; Tests: witnesses
--
-- How code becomes definitions. A function that returns a value and an error returns a `Result`. A
-- method that talks to the cluster is an `Exec`: it takes a session, the world with the Presto object
-- and the shared map of base labels, and gives an outcome, done, failed or panicked, with the new
-- session. A nil dereference, `clusterUUID[:8]` on a short text and `Ports[0]` of a service without
-- ports are panics. A Go map is an association list whose keys the operations keep apart, and
-- `range` visits it in an order that the platform chooses. Integers of 64 bits wrap where the code
-- computes with them; those that the code only copies and compares are unbounded. All recursion is
-- structural, over lists; only `decimal` (Base/Int), the digits of a number, counts down a fuel, which
-- starts at the number plus one and is always enough, since each digit divides the number by ten.
-- `has_short` counts characters where Go counts bytes, which differs only for an identifier with
-- characters outside ASCII.
--
-- What the operator is given and does not implement is the record `Platform`: the Kubernetes client,
-- the metrics client, the event recorder, quantities, the clock, fresh identifiers and the order of
-- maps. A call takes the world and gives a result and a world, so that it may fail, and others may
-- change the cluster in between. Laws of it are hypotheses of the theorems that need them: `IsRange`
-- (a map is visited entry by entry), `Counts` (what a write may add to a count of writes),
-- `KeepsReplicas` (what the server answers to an update), `Saves` (a status update writes the
-- identifier of the object with its namespace and name, and of no other) and `Answers` (a Get answers
-- with the object of that name). Tests/Memory has a platform that obeys the first three, and the
-- witnesses have one for each of the other two.
-- `recorded` (Calls) is a platform around another that also keeps the services, the replica sets and
-- the calls about autoscalers that are sent to it; Calls/Rules says how what is sent by a part follows
-- from what is sent by its parts.
-- The theorems on whole clusters ask for more, `Keeper`: a list call returns what it selects, an
-- object whose name is free is created with its labels and the numbers that it was sent with, and the
-- other calls leave the objects alone, whether they fail or not. This is an ideal server: a list sees a
-- creation at once, where the client of the program reads from a cache that may lag behind, and no
-- creation with a free name is refused. Tests/Store has such a platform. Of
-- the eight objects `progress` (Cluster/Progress) says which the operator finds, in the order of the
-- steps; `settle` (Cluster/Settle) is the abstract pass on that. `Sound` says that nobody else uses
-- the operator's names and that what is there is as wanted, and `Valid` that the texts of the resource
-- parse and that it gives what its features need.
--
-- Not modelled: logging, the flags of cmd/manager/main.go, the work queue and the dispatch of
-- events of the controller runtime, the registration of schemes and of the webhook, generated deep
-- copies and schemas, and the fields of Kubernetes types that the code never names.
pub mod Base
pub mod Exec
pub mod Kube
pub mod Resource
pub mod Platform
pub mod Names
pub mod Webhook
pub mod WatchPredicate
pub mod Ports
pub mod Properties
pub mod Calls
pub mod Catalog
pub mod Pods
pub mod Session
pub mod Status
pub mod Services
pub mod ConfigMaps
pub mod ReplicaSets
pub mod Autoscaling
pub mod Cpu
pub mod Steps
pub mod Reconcile
pub mod Spending
pub mod Tests
pub mod Cluster
pub mod Owners
pub mod Watches
