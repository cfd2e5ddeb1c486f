-- ===== src/Reconcile/Identifier.antt =====
-- A cluster without an identifier: the pass that gives it one.
use steerd_presto_operator.Base.{
  String, ◌≡◌, refl, sym, ap, ◌∙◌, Bool, true, false, Bool-cases, inl, inr, Option, none, some,
  List, [], ◌∷◌, ◌==◌, eq_iff, if◌then◌else◌,
}
use steerd_presto_operator.Exec.{deref, done, gets, ok, pure, ◌>>=◌}
use steerd_presto_operator.Kube.{NamespacedName, StringMap}
use steerd_presto_operator.Resource.{Presto, namespaced_name}
use steerd_presto_operator.Platform.{Platform}
use steerd_presto_operator.Session.{Op, Session, ask, call, set_presto}
use steerd_presto_operator.Status.{
  ClusterUpdateAction, find_by_name, get_presto, no_action, send_status, update_status, update_with,
}
use steerd_presto_operator.Status.Laws.{apply_action-plain}
use steerd_presto_operator.Reconcile.{assign_uuid, no_requeue, reconcile_presto, same_name}

-- Every object is of the namespace.
abbrev pub AllOf : String → List Presto → Type 0
AllOf namespace [] = Unit {0}
AllOf namespace (o ∷ items) = (o.namespace ≡ namespace) × AllOf namespace items

-- The identifiers, with the one of this object replaced.
abbrev pub replaced : NamespacedName → String → (NamespacedName → String) → NamespacedName → String
replaced name uuid identifier n = if same_name name n then uuid else identifier n

-- The server keeps an identifier for each name. It answers when the Presto objects of a namespace are
-- listed, with objects of the namespace, and when a status is updated, and an update writes the
-- identifier that it sends to the object of its namespace and name, and to no other. A list, the
-- clock and a new identifier change none.
pub record Saves (p : Platform) (identifier : p.World → NamespacedName → String) : Type 0 where
  pub lists :
      (namespace : String) (labels : StringMap) (w : p.World)
      → (items : List Presto) × ((p.list_prestos namespace labels w).0 ≡ ok items)
        × AllOf namespace items
        × (identifier (p.list_prestos namespace labels w).1 ≡ identifier w)
  pub updates :
      (o : Presto) (w : p.World)
      → (o' : Presto) × ((p.update_presto_status o w).0 ≡ ok o')
        × (identifier (p.update_presto_status o w).1
            ≡ replaced (namespaced_name o) o.status.uuid (identifier w))
  pub now_keeps : (w : p.World) → identifier (p.now w).1 ≡ identifier w
  pub new_uuid_keeps : (w : p.World) → identifier (p.new_uuid w).1 ≡ identifier w

-- What `getPresto` finds has the name that it looks for, and the namespace of the list.
abbrev Found : NamespacedName → Option Presto → Type 0
Found name none = Unit {0}
Found name (some o) = namespaced_name o ≡ name

find_by_name-Found :
    (namespace name : String) (items : List Presto)
    → AllOf namespace items
    → Found (record { namespace = namespace; name = name }) (find_by_name name items)
unfolding find_by_name
find_by_name-Found namespace name [] all = tt
find_by_name-Found namespace name (o ∷ items) (same_namespace, all) =
    let ih = find_by_name-Found namespace name items all in
    elim (Bool-cases (o.name == name)) [
      | inl e ↦
          let same : o.name ≡ name = (eq_iff o.name name).0 e in rw (e, same_namespace, same) refl
      | inr e ↦ rw e ih
    ]

module _ (p : Platform) (identifier : p.World → NamespacedName → String)
    (saves : Saves p identifier) where
  -- The operation sends a status with the identifier, to the object of this name.
  record Sends (name : NamespacedName) (uuid : String) (m : Op p Bool) : Type 0 where
    sends :
        (s : Session p)
        → (s' : Session p) × (m s ≡ (done true, s'))
          × (identifier s'.world ≡ replaced name uuid (identifier s.world))

  Sends-send_status :
      (aliased : Bool) (copy : Presto)
      → Sends (namespaced_name copy) copy.status.uuid (send_status p aliased copy)
  unfolding send_status ask call set_presto pure ◌>>=◌
  Sends-send_status true copy = record {
    sends = λ s.
        let (time, w) = p.now s.world in
        let stamped : Presto = record copy {
          status = record copy.status { modification_time = time };
        } in
        let (o', e, saved) = saves.updates stamped w in
        (
          record s { world = (p.update_presto_status stamped w).1; presto = o' },
          rw e refl,
          saved ∙ ap (replaced (namespaced_name copy) copy.status.uuid) (saves.now_keeps s.world),
        );
  }
  Sends-send_status false copy = record {
    sends = λ s.
        let (time, w) = p.now s.world in
        let stamped : Presto = record copy {
          status = record copy.status { modification_time = time };
        } in
        let (o', e, saved) = saves.updates stamped w in
        (
          record s { world = (p.update_presto_status stamped w).1 },
          rw e refl,
          saved ∙ ap (replaced (namespaced_name copy) copy.status.uuid) (saves.now_keeps s.world),
        );
  }

  abbrev uuid_action : String → ClusterUpdateAction p.Quantity
  uuid_action uuid = record no_action { cluster_uuid = some uuid }

  Sends-update_with :
      (uuid : String) (aliased : Bool) (copy : Presto)
      → Sends (namespaced_name copy) uuid (update_with p (uuid_action uuid) aliased copy)
  unfolding update_with deref ◌>>=◌
  Sends-update_with uuid aliased copy =
      rw (apply_action-plain (uuid_action uuid) copy.status refl refl)
        (record { sends = λ s. (Sends-send_status aliased _).sends s })

  Sends-Found :
      (uuid : String) (presto : Presto) (found : Option Presto)
      → Found (namespaced_name presto) found
      → Sends (namespaced_name presto) uuid (elim found [
        | none ↦ update_with p (uuid_action uuid) true presto
        | some presto_copy ↦ update_with p (uuid_action uuid) false presto_copy
      ])
  Sends-Found uuid presto none same = Sends-update_with uuid true presto
  Sends-Found uuid presto (some presto_copy) same =
      rw (sym same) (Sends-update_with uuid false presto_copy)

  Sends-update_status :
      (uuid : String) (s : Session p)
      → (s' : Session p) × (update_status p (uuid_action uuid) s ≡ (done true, s'))
        × (identifier s'.world ≡ replaced (namespaced_name s.presto) uuid (identifier s.world))
  unfolding update_status get_presto call gets pure ◌>>=◌
  Sends-update_status uuid s =
      let (items, e, all, kept) = saves.lists s.presto.namespace s.presto.labels s.world in
      let listed = (p.list_prestos s.presto.namespace s.presto.labels s.world).1 in
      let found = find_by_name-Found s.presto.namespace s.presto.name items all in
      let (s', sent, saved) =
        (Sends-Found uuid s.presto (find_by_name s.presto.name items) found).sends
          (record s { world = listed }) in
      (s', rw e sent, saved ∙ ap (replaced (namespaced_name s.presto) uuid) kept)

  -- If the server answers when the Presto objects of a namespace are listed and when a status is
  -- updated, and keeps identifiers by namespace and name: a pass over an object without an identifier
  -- ends without an error, the server then has for this object the identifier that was newly made,
  -- and for every other object the one that it had.
  pub reconcile_presto-identifier :
      (presto : Presto) (w : p.World)
      → (presto.status.uuid == "") ≡ true
      → (s' : Session p) × (reconcile_presto p
            (record { world = w; presto = presto; base_labels = [] })
          ≡ (done no_requeue, s'))
        × (identifier s'.world ≡ replaced (namespaced_name presto) (p.new_uuid w).0 (identifier w))
  unfolding reconcile_presto assign_uuid ask gets pure ◌>>=◌
  reconcile_presto-identifier presto w h =
      let (uuid, w') = p.new_uuid w in
      let (s', e, saved) =
        Sends-update_status uuid (record { world = w'; presto = presto; base_labels = [] }) in
      (
        s',
        rw (h, e) refl,
        saved ∙ ap (replaced (namespaced_name presto) uuid) (saves.new_uuid_keeps w),
      )
