-- ===== src/Tests/Store.antt =====
-- A platform in memory that keeps the objects of a cluster, and on which a cluster is built up.
use steerd_presto_operator.Base.{
  String, ℕ, ◌≡◌, refl, true, some, List, [], ◌∷◌, ◌++◌, if◌then◌else◌, arith,
}
use steerd_presto_operator.Base.Int.{pos}
use steerd_presto_operator.Exec.{ok, err}
use steerd_presto_operator.Exec.Fallible.{already_exists, api_error}
use steerd_presto_operator.Kube.{ObjectMeta}
use steerd_presto_operator.Resource.{Presto, PrestoStatus, namespaced_name}
use steerd_presto_operator.Platform.{Api, Platform}
use steerd_presto_operator.Status.{find_by_name}
use steerd_presto_operator.Reconcile.{Reconciler}
use steerd_presto_operator.Autoscaling.{check_autoscaling_enabled}
use steerd_presto_operator.Names.{has_short}
use steerd_presto_operator.Ports.{get_http_port}
use steerd_presto_operator.Base.Dict.{has, insert, lookup}
use steerd_presto_operator.Properties.{
  add_props, get_system_props, http_props, http_uri, render, worker_system_props,
}
use steerd_presto_operator.Properties.Files.{
  build_config_map, coordinator_config_props_map, coordinator_jvm_config_map, jvm_config_map,
  parse_limit, worker_config_props_map, worker_jvm_config_map,
}
use steerd_presto_operator.Pods.Build.{
  cpu_request_of, create_replica_set_for_coordinator, create_replica_set_for_worker,
  get_presto_coordinator_pod_spec, get_presto_worker_pod,
}
use steerd_presto_operator.Cluster.{Keeper, Keeps, Objects, keep, name_is_free, selects}
use steerd_presto_operator.Cluster.Progress.{Sound, Valid}
use steerd_presto_operator.Cluster.Passes.{Served, reading}
use steerd_presto_operator.Tests.{sample, sample_status}
use steerd_presto_operator.Tests.Memory.{parse_text}

-- The objects, and the part of the Presto object's status that changes.
pub record Shelf : Type 0 where
  pub objects : Objects ℕ
  pub coordinator_address : String

abbrev pub wanted : Presto
wanted = record sample {
  spec = record sample.spec {
    worker = record sample.spec.worker {
      autoscaling = record sample.spec.worker.autoscaling { enabled = some true };
    };
  };
}

abbrev pub stored : Shelf → Presto
stored w = reading wanted (record sample_status { coordinator_address = w.coordinator_address })

module _ {Object : Type 0} (get : Objects ℕ → List Object)
    (put : List Object → Objects ℕ → Objects ℕ) (meta : Object → ObjectMeta) where
  -- A created object stands last, unless its name is taken.
  abbrev pub shelf : Api Shelf Object
  shelf = record {
    list = λ namespace selector w.
        (ok (keep (λ o. selects namespace selector (meta o)) (get w.objects)), w);
    create = λ o w.
        if name_is_free meta o (get w.objects)
        then (ok o, record w { objects = put (get w.objects ++ o ∷ []) w.objects })
        else (err (api_error already_exists "taken"), w);
    update = λ o w. (ok o, w);
    delete = λ o w. (ok tt, w);
  }

  shelf-Keeps :
      (Like : Object → Object → Type 0)
      → ((o : Object) → Like o o)
      → Keeps (λ w. w.objects) get put meta Like shelf
  shelf-Keeps Like like = record {
    listed = λ namespace selector w. (refl, refl);
    created = λ o w free. (
      o,
      rw free refl,
      record { same_namespace = refl; same_labels = refl; same_name = λ _. refl },
      like o,
      rw free refl,
    );
  }

abbrev pub store : Platform
store = record {
  World = Shelf;
  Quantity = ℕ;
  parse_quantity = parse_text;
  zero_quantity = 0;
  milli_value = λ q. pos q;
  quantity_value = λ q. pos q;
  services = shelf (λ o. o.services) (λ xs o. record o { services = xs }) (λ x. x.meta);
  config_maps = shelf (λ o. o.config_maps) (λ xs o. record o { config_maps = xs }) (λ x. x.meta);
  replica_sets = shelf (λ o. o.replica_sets) (λ xs o. record o { replica_sets = xs }) (λ x. x.meta);
  hpas = shelf (λ o. o.hpas) (λ xs o. record o { hpas = xs }) (λ x. x.meta);
  get_presto = λ name w. (ok (stored w), w);
  list_prestos = λ namespace labels w. (ok (stored w ∷ []), w);
  update_presto_status =
      λ presto w. (ok presto, record w { coordinator_address = presto.status.coordinator_address });
  list_pods = λ namespace labels w. (ok ("Running" ∷ []), w);
  list_pod_metrics = λ namespace labels w. (ok [], w);
  new_uuid = λ w. ("fedcba9876543210", w);
  now = λ w. ("now", w);
  record_event = λ presto event_type reason text w. w;
  not_found_message = λ resource name. resource;
  range = λ m. m;
}

abbrev pub on_shelf : Shelf → Objects ℕ
on_shelf w = w.objects

listed_there :
    (w : Shelf) (items : List Presto)
    → ok (stored w ∷ []) ≡ ok items
    → (copy : Presto) × (find_by_name "mycluster" items ≡ some copy)
unfolding find_by_name
listed_there w items h = (stored w, ground (arith, h))

pub store-Keeper : Keeper store wanted on_shelf
unfolding find_by_name
store-Keeper = record {
  keeps_services = shelf-Keeps _ _ _ _ λ o. refl;
  keeps_config_maps = shelf-Keeps _ _ _ _ λ o. tt;
  keeps_replica_sets = shelf-Keeps _ _ _ _ λ o. refl;
  keeps_hpas = shelf-Keeps _ _ _ _ λ o. (refl, refl, refl);
  list_prestos_view = λ namespace labels w. refl;
  update_presto_status_view = λ o w. refl;
  list_pods_view = λ namespace labels w. refl;
  list_pod_metrics_view = λ namespace labels w. refl;
  now_view = λ w. refl;
  record_event_view = λ o event_type reason text w. refl;
  presto_is_listed = λ items w h. listed_there w items h;
}

pub store-Served : Served store wanted on_shelf (namespaced_name wanted)
store-Served w =
    (record sample_status { coordinator_address = w.coordinator_address }, refl, refl, refl)

pub store-Valid :
    (status : PrestoStatus) → status.uuid ≡ wanted.status.uuid → Valid (reading wanted status) store
unfolding has_short check_autoscaling_enabled build_config_map coordinator_config_props_map
    worker_config_props_map get_system_props http_props http_uri get_http_port add_props
    jvm_config_map parse_limit lookup worker_system_props render create_replica_set_for_coordinator
    create_replica_set_for_worker get_presto_coordinator_pod_spec get_presto_worker_pod
    cpu_request_of coordinator_jvm_config_map worker_jvm_config_map has insert
store-Valid status e = record {
  is_short = rw e refl;
  has_uuid = rw e refl;
  has_type = refl;
  has_count = refl;
  coordinator_config_built = refl;
  worker_config_built = refl;
  coordinator_built = refl;
  workers_built = λ n. refl;
  numbers_given = refl;
}

abbrev pub empty : Reconciler store
empty = record {
  world = record {
    objects = record { services = []; config_maps = []; replica_sets = []; hpas = [] };
    coordinator_address = "";
  };
  registered_prestos = [];
}

pub empty-Sound : Sound wanted (on_shelf empty.world)
empty-Sound = record {
  headless_named = refl;
  external_named = refl;
  external_ports = refl;
  coordinator_config_named = refl;
  worker_config_named = refl;
  catalog_config_named = refl;
  workers_settled = refl;
  hpas_agree = refl;
  hpas_named = refl;
}
