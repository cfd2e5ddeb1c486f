-- ===== src/Cluster/Sets.antt =====
-- Replica sets: what is sent, what is looked up, and what a creation leaves.
use steerd_presto_operator.Base.{String, ◌≡◌, refl, true, ◌&&◌, some, List, [], ◌∷◌, ◌++◌, arith}
use steerd_presto_operator.Base.Int.{ℤ}
use steerd_presto_operator.Exec.{done, failed, ok}
use steerd_presto_operator.Exec.Fallible.{is_not_found}
use steerd_presto_operator.Kube.{ReplicaSet, StringMap}
use steerd_presto_operator.Resource.{Presto}
use steerd_presto_operator.Platform.{Platform}
use steerd_presto_operator.Session.{new_not_found}
use steerd_presto_operator.Pods.Build.{create_replica_set_for_worker, replica_set_of}
use steerd_presto_operator.ReplicaSets.{get_replica_set, replica_set_listed}
use steerd_presto_operator.ReplicaSets.Scaling.{is_settled}
use steerd_presto_operator.Cluster.{Keeper, Objects, keep, name_is_free, selects}
use steerd_presto_operator.Cluster.Runs.{
  Runs, Runs->>=, Runs-attempt, Runs-list, Runs-presto, Runs-pure, Runs-raise,
}
use steerd_presto_operator.Cluster.Progress.{Sound, is_given, is_worker_set}
use steerd_presto_operator.Cluster.Found.{follows, all-grows}

-- A replica set as it is sent: its name is left to the server.
pub record Sent {Quantity : Type 0} (presto : Presto) (l : StringMap)
    (replica_set : ReplicaSet Quantity) : Type 0 where
  pub sent_namespace : replica_set.meta.namespace ≡ presto.namespace
  pub sent_labels : replica_set.meta.labels ≡ l
  pub sent_name : replica_set.meta.name ≡ ""

pub Sent-worker :
    (p : Platform) (presto : Presto) (l : StringMap) (n : ℤ) {replica_set : ReplicaSet p.Quantity}
    → create_replica_set_for_worker p presto l n ≡ ok replica_set
    → Sent presto l replica_set × (replica_set.replicas ≡ some n)
unfolding create_replica_set_for_worker replica_set_of
Sent-worker p presto l n h = (
  record {
    sent_namespace = ground (arith, h);
    sent_labels = ground (arith, h);
    sent_name = ground (arith, h);
  },
  ground (arith, h),
)

pub is_not_found-new_not_found :
    (p : Platform) (resource : String) → is_not_found (new_not_found p resource) ≡ true
unfolding is_not_found new_not_found
is_not_found-new_not_found p resource = refl

module _ {Quantity : Type 0} (presto : Presto) (o : Objects Quantity) where
  abbrev pub with_set : ReplicaSet Quantity → Objects Quantity
  with_set y = record o { replica_sets = o.replica_sets ++ y ∷ [] }

  pub Sound-with_set :
      (y : ReplicaSet Quantity)
      → follows (is_worker_set presto y.meta) (is_settled presto y && is_given y.replicas) ≡ true
      → Sound presto o
      → Sound presto (with_set y)
  Sound-with_set y h sound = record {
    headless_named = sound.headless_named;
    external_named = sound.external_named;
    external_ports = sound.external_ports;
    coordinator_config_named = sound.coordinator_config_named;
    worker_config_named = sound.worker_config_named;
    catalog_config_named = sound.catalog_config_named;
    workers_settled = all-grows _ o.replica_sets y sound.workers_settled h;
    hpas_agree = sound.hpas_agree;
    hpas_named = sound.hpas_named;
  }

module _ (p : Platform) (presto : Presto) (view : p.World → Objects p.Quantity)
    (keeper : Keeper p presto view) (o : Objects p.Quantity) where
  module _ (get_label : String → String × String) where
    abbrev pub listed_sets : List (ReplicaSet p.Quantity)
    listed_sets =
        keep (λ x. selects presto.namespace (get_label presto.status.uuid ∷ []) x.meta)
          o.replica_sets

    pub Runs-get_replica_set :
        {l : StringMap} {y : ReplicaSet p.Quantity} {rest : List (ReplicaSet p.Quantity)}
        → listed_sets ≡ y ∷ rest
        → Runs p presto view l o (get_replica_set p get_label) (done y) l o
    unfolding get_replica_set replica_set_listed
    Runs-get_replica_set {y} e =
        Runs-presto _
          (Runs->>= _ (Runs-attempt (Runs-list keeper.keeps_replica_sets _ _)) (rw e (Runs-pure y)))

    pub Runs-get_replica_set-failed :
        {l : StringMap}
        → listed_sets ≡ []
        → Runs p presto view l o
            (get_replica_set p get_label)
            (failed (new_not_found p "replicasets"))
            l
            o
    unfolding get_replica_set replica_set_listed
    Runs-get_replica_set-failed e =
        Runs-presto _ (
          Runs->>= _ (Runs-attempt (Runs-list keeper.keeps_replica_sets _ _)) (rw e (Runs-raise _)))

  pub Sent-is_free :
      {l : StringMap} (x : ReplicaSet p.Quantity)
      → Sent presto l x
      → name_is_free (λ x. x.meta) x o.replica_sets ≡ true
  Sent-is_free x sent = rw sent.sent_name refl
