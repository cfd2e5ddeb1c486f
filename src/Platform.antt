-- ===== src/Platform.antt =====
-- What the operator is given and does not implement: the client of the Kubernetes API, the
-- metrics client, the event recorder, the clock, new identifiers, quantities, and the order in
-- which Go iterates over a map. Every operation may also show what others did to the cluster.
use steerd_presto_operator.Base.{String, ◌≡◌, List}
use steerd_presto_operator.Base.Dict.{NodupKeys, lookup}
use steerd_presto_operator.Base.Int.{ℤ}
use steerd_presto_operator.Kube.{StringMap, NamespacedName, Service, ConfigMap, ReplicaSet, Hpa}
use steerd_presto_operator.Kube.Pod.{PodMetrics}
use steerd_presto_operator.Resource.{Presto}
use steerd_presto_operator.Exec.{Result}

-- A call of the API: it fails or succeeds, and the world goes on.
abbrev pub Call : Type 0 → Type 0 → Type 0
Call World A = World → Result A × World

-- `List` takes a namespace and the set of a label selector. `Create` and `Update` return the
-- object as the server filled it in, which the Go client writes back through the pointer.
pub record Api (World Object : Type 0) : Type 0 where
  pub list : String → StringMap → Call World (List Object)
  pub create : Object → Call World Object
  pub update : Object → Call World Object
  pub delete : Object → Call World (Unit {0})

pub record Platform : Type 1 where
  pub World : Type 0
  pub Quantity : Type 0
  -- `resource.ParseQuantity`, and the `Quantity{}` that it returns beside an error
  pub parse_quantity : String → Result Quantity
  pub zero_quantity : Quantity
  pub milli_value : Quantity → ℤ
  pub quantity_value : Quantity → ℤ
  pub services : Api World Service
  pub config_maps : Api World ConfigMap
  pub replica_sets : Api World (ReplicaSet Quantity)
  pub hpas : Api World Hpa
  pub get_presto : NamespacedName → Call World Presto
  pub list_prestos : String → StringMap → Call World (List Presto)
  pub update_presto_status : Presto → Call World Presto
  -- the phases of the pods found
  pub list_pods : String → StringMap → Call World (List String)
  pub list_pod_metrics : String → StringMap → Call World (List (PodMetrics Quantity))
  -- `uuid.New().String()`, `metav1.Now()` and `eventRecorder.Eventf` cannot fail
  pub new_uuid : World → String × World
  pub now : World → String × World
  pub record_event : Presto → String → String → String → World → World
  -- the text of `errors.NewNotFound(resource, name)`
  pub not_found_message : String → String → String
  -- the order in which `range` visits a map
  pub range : StringMap → StringMap

-- What the Go specification says of `range` over a map: every entry is visited once.
pub record IsRange (range : StringMap → StringMap) : Type 0 where
  pub lookup-range : (m : StringMap) → NodupKeys m → (k : String) → lookup k (range m) ≡ lookup k m
  pub range-NodupKeys : (m : StringMap) → NodupKeys m → NodupKeys (range m)
