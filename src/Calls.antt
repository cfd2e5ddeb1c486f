-- ===== src/Calls.antt =====
-- The calls that the operator makes of the API: a platform that also keeps what is sent to it. The
-- answers, and what they depend on, are those of the platform around which it stands.
pub mod Rules
pub mod Kept
pub mod Services
pub mod Sets
use steerd_presto_operator.Base.{List, [], ◌∷◌}
use steerd_presto_operator.Kube.{ReplicaSet, Service}
use steerd_presto_operator.Platform.{Api, Call, Platform}
use steerd_presto_operator.Session.{Session}

-- A call about an autoscaler that is to change one.
pub data HpaCall : Type 0 where
  hpa_create : HpaCall
  hpa_update : HpaCall
  hpa_delete : HpaCall

-- The services and the replica sets that were sent to be created, and the calls about autoscalers,
-- the last one first, whatever the server answered.
pub record Sent (Quantity : Type 0) : Type 0 where
  pub services : List Service
  pub replica_sets : List (ReplicaSet Quantity)
  pub hpas : List HpaCall

abbrev pub nothing_sent : {Quantity : Type 0} → Sent Quantity
nothing_sent = record { services = []; replica_sets = []; hpas = [] }

module _ {World Log : Type 0} where
  abbrev pub lifted : {A : Type 0} → Call World A → Call (World × Log) A
  lifted c x = let (r, w) = c x.0 in (r, (w, x.1))

  abbrev pub noted : {A : Type 0} → (Log → Log) → Call World A → Call (World × Log) A
  noted note c x = let (r, w) = c x.0 in (r, (w, note x.1))

  abbrev pub lifted_api : {Object : Type 0} → Api World Object → Api (World × Log) Object
  lifted_api api = record {
    list = λ namespace lbls. lifted (api.list namespace lbls);
    create = λ o. lifted (api.create o);
    update = λ o. lifted (api.update o);
    delete = λ o. lifted (api.delete o);
  }

  -- A creation is kept.
  abbrev pub noted_api :
      {Object : Type 0} → (Object → Log → Log) → Api World Object → Api (World × Log) Object
  noted_api note api = record {
    list = λ namespace lbls. lifted (api.list namespace lbls);
    create = λ o. noted (note o) (api.create o);
    update = λ o. lifted (api.update o);
    delete = λ o. lifted (api.delete o);
  }

module _ {Quantity : Type 0} where
  abbrev pub note_service : Service → Sent Quantity → Sent Quantity
  note_service o l = record l { services = o ∷ l.services }

  abbrev pub note_replica_set : ReplicaSet Quantity → Sent Quantity → Sent Quantity
  note_replica_set o l = record l { replica_sets = o ∷ l.replica_sets }

  abbrev pub note_hpa : HpaCall → Sent Quantity → Sent Quantity
  note_hpa c l = record l { hpas = c ∷ l.hpas }

abbrev pub recorded : Platform → Platform
recorded p = record {
  World = p.World × Sent p.Quantity;
  Quantity = p.Quantity;
  parse_quantity = p.parse_quantity;
  zero_quantity = p.zero_quantity;
  milli_value = p.milli_value;
  quantity_value = p.quantity_value;
  services = noted_api note_service p.services;
  config_maps = lifted_api p.config_maps;
  replica_sets = noted_api note_replica_set p.replica_sets;
  hpas = record {
    list = λ namespace lbls. lifted (p.hpas.list namespace lbls);
    create = λ o. noted (note_hpa hpa_create) (p.hpas.create o);
    update = λ o. noted (note_hpa hpa_update) (p.hpas.update o);
    delete = λ o. noted (note_hpa hpa_delete) (p.hpas.delete o);
  };
  get_presto = λ name. lifted (p.get_presto name);
  list_prestos = λ namespace lbls. lifted (p.list_prestos namespace lbls);
  update_presto_status = λ o. lifted (p.update_presto_status o);
  list_pods = λ namespace lbls. lifted (p.list_pods namespace lbls);
  list_pod_metrics = λ namespace lbls. lifted (p.list_pod_metrics namespace lbls);
  new_uuid = λ x. let (uuid, w) = p.new_uuid x.0 in (uuid, (w, x.1));
  now = λ x. let (time, w) = p.now x.0 in (time, (w, x.1));
  record_event =
      λ presto event_type reason text x. (p.record_event presto event_type reason text x.0, x.1);
  not_found_message = p.not_found_message;
  range = p.range;
}

abbrev pub sent : (p : Platform) → Session (recorded p) → Sent p.Quantity
sent p s = s.world.1

-- The session, with nothing sent yet.
abbrev pub emptied : (p : Platform) → Session (recorded p) → Session (recorded p)
emptied p s = record s { world = (s.world.0, nothing_sent) }
