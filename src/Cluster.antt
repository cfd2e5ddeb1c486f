-- ===== src/Cluster.antt =====
-- A cluster whose objects only the operator writes: what the API server keeps, as far as the
-- operator looks for it, and what its list and create calls do to that.
pub mod Found
pub mod Runs
pub mod Makes
pub mod Safe
pub mod Reports
pub mod Settle
pub mod Progress
pub mod Services
pub mod External
pub mod ExternalBuilt
pub mod ConfigMaps
pub mod CoordinatorConfig
pub mod WorkerConfig
pub mod CatalogConfig
pub mod Sets
pub mod Coordinator
pub mod Workers
pub mod Hpas
pub mod HpaStep
pub mod Phase
pub mod Pass
pub mod Passes
use steerd_presto_operator.Base.{
  String, ◌≡◌, refl, Bool, true, false, not, ◌&&◌, ◌||◌, Option, none, some, List, [], ◌∷◌, ◌++◌,
  ◌==◌, if◌then◌else◌, arith,
}
use steerd_presto_operator.Base.Dict.{lookup}
use steerd_presto_operator.Exec.{Result, ok}
use steerd_presto_operator.Kube.{ConfigMap, Hpa, ObjectMeta, ReplicaSet, Service, StringMap}
use steerd_presto_operator.Resource.{Presto}
use steerd_presto_operator.Platform.{Api, Platform}
use steerd_presto_operator.Status.{find_by_name}

abbrev pub any : {A : Type 0} → (A → Bool) → List A → Bool
any f [] = false
any f (x ∷ xs) = f x || any f xs

abbrev pub all : {A : Type 0} → (A → Bool) → List A → Bool
all f [] = true
all f (x ∷ xs) = f x && all f xs

-- The elements that pass a test, in their order.
abbrev pub keep : {A : Type 0} → (A → Bool) → List A → List A
keep f [] = []
keep f (x ∷ xs) = let rest = keep f xs in if f x then x ∷ rest else rest

abbrev pub is_entry : Option String → String → Bool
is_entry none v = false
is_entry (some value) v = value == v

-- Labels have every entry of a selector.
abbrev pub has_labels : StringMap → StringMap → Bool
has_labels [] labels = true
has_labels ((k, v) ∷ selector) labels = is_entry (lookup k labels) v && has_labels selector labels

-- What a list call with this namespace and selector finds.
abbrev pub selects : String → StringMap → ObjectMeta → Bool
selects namespace selector meta = (meta.namespace == namespace) && has_labels selector meta.labels

abbrev pub named : String → String → ObjectMeta → Bool
named namespace name meta = (meta.namespace == namespace) && (meta.name == name)

-- The four kinds of objects, in the order in which list calls return them.
pub record Objects (Quantity : Type 0) : Type 0 where
  pub services : List Service
  pub config_maps : List ConfigMap
  pub replica_sets : List (ReplicaSet Quantity)
  pub hpas : List Hpa

-- The server keeps labels and namespace of an object that it creates, and its name if it has one.
pub record SameMeta (o o' : ObjectMeta) : Type 0 where
  pub same_namespace : o'.namespace ≡ o.namespace
  pub same_labels : o'.labels ≡ o.labels
  pub same_name : (o.name == "") ≡ false → o'.name ≡ o.name

-- No object has the name, or the server is to generate one.
abbrev pub name_is_free : {Object : Type 0} → (Object → ObjectMeta) → Object → List Object → Bool
name_is_free meta o found =
    ((meta o).name == "") || not (any (λ x. named (meta o).namespace (meta o).name (meta x)) found)

-- How one kind of objects behaves: a list call returns what it selects and changes nothing; an
-- object whose name is free is created, much as it was sent (`Like`), and stands last.
pub record Keeps {World Object View : Type 0} (view : World → View) (get : View → List Object)
    (put : List Object → View → View) (meta : Object → ObjectMeta) (Like : Object → Object → Type 0)
    (api : Api World Object) : Type 0 where
  pub listed :
      (namespace : String) (selector : StringMap) (w : World)
      → ((api.list namespace selector w).0
          ≡ ok (keep (λ o. selects namespace selector (meta o)) (get (view w))))
        × (view (api.list namespace selector w).1 ≡ view w)
  pub created :
      (o : Object) (w : World)
      → name_is_free meta o (get (view w)) ≡ true
      → (o' : Object) × ((api.create o w).0 ≡ ok o')
        × SameMeta (meta o) (meta o')
        × Like o o'
        × (view (api.create o w).1 ≡ put (get (view w) ++ o' ∷ []) (view w))

abbrev pub is_empty : {A : Type 0} → List A → Bool
is_empty [] = true
is_empty (x ∷ xs) = false

-- What else of an object the server keeps: whether a service has ports, the number of replicas, and
-- the numbers of an autoscaler.
abbrev pub LikeService : Service → Service → Type 0
LikeService o o' = is_empty o'.spec.ports ≡ is_empty o.spec.ports

abbrev pub LikeSet : {Quantity : Type 0} → ReplicaSet Quantity → ReplicaSet Quantity → Type 0
LikeSet o o' = o'.replicas ≡ o.replicas

abbrev pub LikeHpa : Hpa → Hpa → Type 0
LikeHpa o o' =
    (o'.min_replicas ≡ o.min_replicas)
    × (o'.max_replicas ≡ o.max_replicas)
    × (o'.target_cpu_utilization_percentage ≡ o.target_cpu_utilization_percentage)

-- The whole platform, for one Presto object. Other calls than those of the four kinds leave the
-- objects alone, and may fail. The Presto object is there: a list of its namespace by its labels
-- that succeeds has it.
pub record Keeper (p : Platform) (presto : Presto) (view : p.World → Objects p.Quantity)
    : Type 0 where
  pub keeps_services :
      Keeps view
        (λ o. o.services)
        (λ xs o. record o { services = xs })
        (λ x. x.meta)
        LikeService
        p.services
  pub keeps_config_maps :
      Keeps view
        (λ o. o.config_maps)
        (λ xs o. record o { config_maps = xs })
        (λ x. x.meta)
        (λ o o'. Unit {0})
        p.config_maps
  pub keeps_replica_sets :
      Keeps view
        (λ o. o.replica_sets)
        (λ xs o. record o { replica_sets = xs })
        (λ x. x.meta)
        LikeSet
        p.replica_sets
  pub keeps_hpas :
      Keeps view (λ o. o.hpas) (λ xs o. record o { hpas = xs }) (λ x. x.meta) LikeHpa p.hpas
  pub list_prestos_view :
      (namespace : String) (labels : StringMap) (w : p.World)
      → view (p.list_prestos namespace labels w).1 ≡ view w
  pub update_presto_status_view :
      (o : Presto) (w : p.World) → view (p.update_presto_status o w).1 ≡ view w
  pub list_pods_view :
      (namespace : String) (labels : StringMap) (w : p.World)
      → view (p.list_pods namespace labels w).1 ≡ view w
  pub list_pod_metrics_view :
      (namespace : String) (labels : StringMap) (w : p.World)
      → view (p.list_pod_metrics namespace labels w).1 ≡ view w
  pub now_view : (w : p.World) → view (p.now w).1 ≡ view w
  pub record_event_view :
      (o : Presto) (event_type reason text : String) (w : p.World)
      → view (p.record_event o event_type reason text w) ≡ view w
  pub presto_is_listed :
      (items : List Presto) (w : p.World)
      → (p.list_prestos presto.namespace presto.labels w).0 ≡ ok items
      → (copy : Presto) × (find_by_name presto.name items ≡ some copy)
