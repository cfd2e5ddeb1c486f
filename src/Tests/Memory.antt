-- ===== src/Tests/Memory.antt =====
-- A platform in memory, which counts its writes and obeys the laws that the theorems ask for.
use steerd_presto_operator.Base.{
  String, ℕ, suc, refl, ◌&&◌, List, [], ◌∷◌, ◌==◌, if◌then◌else◌, arith,
}
use steerd_presto_operator.Base.Int.{pos}
use steerd_presto_operator.Exec.{Result, ok, err}
use steerd_presto_operator.Exec.Fallible.{api_error, not_found, operator_error}
use steerd_presto_operator.Kube.{NamespacedName}
use steerd_presto_operator.Resource.{Presto}
use steerd_presto_operator.Platform.{Api, IsRange, Platform}
use steerd_presto_operator.ReplicaSets.Scaling.{KeepsReplicas}
use steerd_presto_operator.Spending.{ApiCounts, Counts}

-- The cluster: the Presto objects, and how many writes were made to each kind of other object.
pub record Cluster : Type 0 where
  pub prestos : List Presto
  pub written : ℕ

abbrev pub one_more : Cluster → Cluster
one_more w = record w { written = suc w.written }

-- An API that logs its writes and finds the given objects.
abbrev pub logged : {Object : Type 0} → List Object → Api Cluster Object
logged found = record {
  list = λ namespace labels w. (ok found, w);
  create = λ o w. (ok o, one_more w);
  update = λ o w. (ok o, one_more w);
  delete = λ o w. (ok tt, one_more w);
}

abbrev find : NamespacedName → List Presto → Result Presto
find name [] = err (api_error not_found name.name)
find name (presto ∷ prestos) =
    let rest = find name prestos in
    if presto.namespace == name.namespace && presto.name == name.name then ok presto else rest

abbrev pub parse_text : String → Result ℕ
parse_text text = if text == "" then err (operator_error "empty") else ok 1000

abbrev pub memory : Platform
memory = record {
  World = Cluster;
  Quantity = ℕ;
  parse_quantity = parse_text;
  zero_quantity = 0;
  milli_value = λ q. pos q;
  quantity_value = λ q. pos q;
  services = logged [];
  config_maps = logged [];
  replica_sets = logged [];
  hpas = logged [];
  get_presto = λ name w. (find name w.prestos, w);
  list_prestos = λ namespace labels w. (ok w.prestos, w);
  update_presto_status = λ presto w. (ok presto, record w { prestos = presto ∷ [] });
  list_pods = λ namespace labels w. (ok ("Running" ∷ []), w);
  list_pod_metrics = λ namespace labels w. (ok [], w);
  new_uuid = λ w. ("0123456789abcdef", w);
  now = λ w. ("now", w);
  record_event = λ presto event_type reason text w. w;
  not_found_message = λ resource name. resource;
  range = λ m. m;
}

abbrev pub written_count : Cluster → ℕ
written_count w = w.written

pub logged-ApiCounts :
    {Object : Type 0} (found : List Object) → ApiCounts written_count (logged found)
logged-ApiCounts found = record {
  list_count = λ namespace labels w. omega arith;
  create_count = λ o w. omega arith;
  update_count = λ o w. omega arith;
  delete_count = λ o w. omega arith;
}

pub memory-Counts : Counts memory written_count
memory-Counts = record {
  services_count = logged-ApiCounts [];
  config_maps_count = logged-ApiCounts [];
  replica_sets_count = logged-ApiCounts [];
  hpas_count = logged-ApiCounts [];
  get_presto_count = λ name w. omega arith;
  list_prestos_count = λ namespace labels w. omega arith;
  update_presto_status_count = λ presto w. omega arith;
  list_pods_count = λ namespace labels w. omega arith;
  list_pod_metrics_count = λ namespace labels w. omega arith;
  new_uuid_count = λ w. omega arith;
  now_count = λ w. omega arith;
  record_event_count = λ presto event_type reason text w. omega arith;
}

pub memory-IsRange : IsRange memory.range
memory-IsRange = record { lookup-range = λ m u k. refl; range-NodupKeys = λ m u. u }

pub memory-KeepsReplicas : KeepsReplicas memory
memory-KeepsReplicas o o' w h = ground arith
