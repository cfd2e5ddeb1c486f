-- ===== src/Cluster/Reports.antt =====
-- Events and status updates leave the objects alone, and their errors stop nothing.
use steerd_presto_operator.Base.{
  String, ◌≡◌, refl, ◌∙◌, Bool, true, false, Option, some, List, if◌then◌else◌,
}
use steerd_presto_operator.Exec.{
  Result, done, ok, err, of_result, to_result, pure, attempt, deref, gets, continue, ◌>>=◌,
}
use steerd_presto_operator.Kube.{StringMap}
use steerd_presto_operator.Resource.{Presto}
use steerd_presto_operator.Platform.{Call, Platform}
use steerd_presto_operator.Session.{Op, Session, ask, call, eventf, ignore}
use steerd_presto_operator.Status.{
  ClusterUpdateAction, find_by_name, get_presto, send_status, update_status, update_with,
}
use steerd_presto_operator.Steps.{put_status}
use steerd_presto_operator.Cluster.{Keeper, Objects}
use steerd_presto_operator.Cluster.Runs.{At, Runs}
use steerd_presto_operator.Cluster.Safe.{is_safe, apply_action-is_safe}
use steerd_presto_operator.Steps.{config_created}
use steerd_presto_operator.Resource.ClusterState
use steerd_presto_operator.Cluster.Makes.{Makes-pure, Makes->>=_Runs}
use steerd_presto_operator.Cluster.Runs.{Makes}

module _ (p : Platform) (presto : Presto) (view : p.World → Objects p.Quantity) where
  -- The operation fails or succeeds, does not panic, and leaves labels and objects alone.
  record Calm {A : Type 0} (labels : StringMap) (objects : Objects p.Quantity) (m : Op p A)
      : Type 0 where
    calm :
        (s : Session p)
        → At p presto view labels objects s
        → (r : Result A) × (s' : Session p) × (m s ≡ (of_result r, s'))
          × At p presto view labels objects s'

module _ {p : Platform} {presto : Presto} {view : p.World → Objects p.Quantity} where
  module _ {l : StringMap} {o : Objects p.Quantity} where
    moved :
        {s : Session p} (w : p.World)
        → view w ≡ view s.world
        → At p presto view l o s
        → At p presto view l o (record s { world = w })
    moved w e h = record {
      same_presto = h.same_presto;
      same_labels = h.same_labels;
      same_objects = e ∙ h.same_objects;
    }

    module _ {A : Type 0} where
      Calm-pure : (a : A) → Calm p presto view l o (pure a)
      unfolding pure
      Calm-pure a = record { calm = λ s h. (ok a, s, refl, h) }

      Calm-if :
          (b : Bool) {m n : Op p A}
          → Calm p presto view l o m
          → Calm p presto view l o n
          → Calm p presto view l o (if b then m else n)
      Calm-if true h k = h
      Calm-if false h k = k

      Calm-deref : {a : A} (r : Option A) → r ≡ some a → Calm p presto view l o (deref r)
      unfolding deref
      Calm-deref {a} r e = record { calm = λ s h. (ok a, s, rw e refl, h) }

      Calm-call :
          (c : Call p.World A)
          → ((w : p.World) → view (c w).1 ≡ view w)
          → Calm p presto view l o (call p c)
      unfolding call
      Calm-call c same = record {
        calm = λ s h.
            ((c s.world).0, record s { world = (c s.world).1 }, refl, moved _ (same s.world) h);
      }

      Calm-ask :
          (c : p.World → A × p.World)
          → ((w : p.World) → view (c w).1 ≡ view w)
          → Calm p presto view l o (ask p c)
      unfolding ask pure
      Calm-ask c same = record {
        calm = λ s h.
            (ok (c s.world).0, record s { world = (c s.world).1 }, refl, moved _ (same s.world) h);
      }

      module _ {B : Type 0} (f : B → Op p A) where
        Calm-after :
            (r : Result B) (s : Session p)
            → At p presto view l o s
            → ((b : B) → Calm p presto view l o (f b))
            → (r' : Result A) × (s' : Session p) × (continue (of_result r, s) f
                ≡ (of_result r', s'))
              × At p presto view l o s'
        Calm-after (ok b) s h k = (k b).calm s h
        Calm-after (err e) s h k = (err e, s, refl, h)

        Calm->>= :
            {m : Op p B}
            → Calm p presto view l o m
            → ((b : B) → Calm p presto view l o (f b))
            → Calm p presto view l o (m >>= f)
        unfolding ◌>>=◌
        Calm->>= {m} c k = record {
          calm = λ s h. let (r, s', e, h') = c.calm s h in rw e (Calm-after r s' h' k);
        }

    calm_at :
        {A : Type 0} {v w : Presto} {s : Session p} (f : Presto → Op p A)
        → v ≡ w
        → (r : Result A) × (s' : Session p) × (f w s ≡ (of_result r, s')) × At p presto view l o s'
        → (r : Result A) × (s' : Session p) × (f v s ≡ (of_result r, s')) × At p presto view l o s'
    calm_at f e r = rw e r

    Calm-presto :
        {A : Type 0} (f : Presto → Op p A)
        → Calm p presto view l o (f presto)
        → Calm p presto view l o (gets (λ s. s.presto) >>= f)
    unfolding gets ◌>>=◌
    Calm-presto f c = record { calm = λ s h. calm_at f h.same_presto (c.calm s h) }

    -- A calm operation whose results are dropped.
    Runs-ignore :
        {A : Type 0} {m : Op p A}
        → Calm p presto view l o m
        → Runs p presto view l o (ignore p m) (done tt) l o
    unfolding ignore attempt ◌>>=◌ pure
    Runs-ignore {m} c = record {
      runs = λ s h. let (r, s', e, h') = c.calm s h in (s', rw e (dropped r s'), h');
    }
      where
        dropped :
            {A : Type 0} (r : Result A) (s : Session p)
            → continue (to_result (of_result r, s)) (λ _. pure tt) ≡ (done tt, s)
        dropped (ok a) s = refl
        dropped (err e) s = refl

module _ {p : Platform} {presto : Presto} {view : p.World → Objects p.Quantity} where
  module _ (keeper : Keeper p presto view) {l : StringMap} {o : Objects p.Quantity} where
    pub Runs-eventf :
        (event_type reason text : String)
        → Runs p presto view l o (eventf p event_type reason text) (done tt) l o
    unfolding eventf pure
    Runs-eventf event_type reason text = record {
      runs = λ s h. (
        record s { world = p.record_event s.presto event_type reason text s.world },
        refl,
        moved _ (keeper.record_event_view s.presto event_type reason text s.world) h,
      );
    }

    Calm-send_status : (copy : Presto) → Calm p presto view l o (send_status p false copy)
    unfolding send_status
    Calm-send_status copy = Calm->>= _ (Calm-ask p.now keeper.now_view) λ _.
        Calm->>= _ (Calm-pure tt) λ _.
          Calm->>= _ (Calm-call _ (keeper.update_presto_status_view _))
            λ _. Calm->>= _ (Calm-pure tt) λ _. Calm-pure true

    Calm-update_with :
        (action : ClusterUpdateAction p.Quantity) (copy : Presto)
        → is_safe action ≡ true
        → Calm p presto view l o (update_with p action false copy)
    unfolding update_with
    Calm-update_with action copy h =
        let (d, e) = apply_action-is_safe action copy.status h in
        Calm->>= _ (Calm-deref _ e)
          λ (_, update). Calm-if update (Calm-send_status _) (Calm-pure false)

    found :
        {A : Type 0} (f : Option Presto → Op p A)
        → ((copy : Presto) → Calm p presto view l o (f (some copy)))
        → {s' : Session p} (s : Session p) (r : Result (List Presto))
        → (p.list_prestos presto.namespace presto.labels s.world).0 ≡ r
        → At p presto view l o s'
        → (r' : Result A) × (t : Session p) × (continue
              (continue (of_result r, s') (λ items. pure (find_by_name presto.name items)))
              f
            ≡ (of_result r', t))
          × At p presto view l o t
    unfolding pure
    found f k {s'} s (err e) listed h = (err e, s', refl, h)
    found f k {s'} s (ok items) listed h =
        let (copy, e) = keeper.presto_is_listed items s.world listed in rw e ((k copy).calm s' h)

    Calm-get_presto :
        {A : Type 0} (f : Option Presto → Op p A)
        → ((copy : Presto) → Calm p presto view l o (f (some copy)))
        → Calm p presto view l o (get_presto p presto >>= f)
    unfolding get_presto ◌>>=◌ call pure
    Calm-get_presto f k = record {
      calm = λ s h.
          found f k s _ refl
            (moved _ (keeper.list_prestos_view presto.namespace presto.labels s.world) h);
    }

    Calm-update_status :
        (action : ClusterUpdateAction p.Quantity)
        → is_safe action ≡ true
        → Calm p presto view l o (update_status p action)
    unfolding update_status
    Calm-update_status action h =
        Calm-presto _ (Calm-get_presto _ λ copy. Calm-update_with action copy h)

    pub Runs-put_status :
        (action : ClusterUpdateAction p.Quantity)
        → is_safe action ≡ true
        → Runs p presto view l o (put_status p action) (done tt) l o
    unfolding put_status
    Runs-put_status action h = Runs-ignore (Calm-update_status action h)

-- The report of a new config map or of the coordinator's replica set.
module _ {p : Platform} {presto : Presto} {view : p.World → Objects p.Quantity}
    (keeper : Keeper p presto view) where
  pub Makes-config_created :
      {l : StringMap} {o : Objects p.Quantity} {P : Bool → Objects p.Quantity → Type 0}
      (action : ClusterUpdateAction p.Quantity) (text : String)
      → is_safe (record action { cluster_state = ClusterState.pending }) ≡ true
      → P true o
      → Makes p presto view l o (config_created p action text) l P
  unfolding config_created
  Makes-config_created action text safe q =
      Makes->>=_Runs _ (Runs-put_status keeper _ safe)
        (Makes->>=_Runs _ (Runs-eventf keeper _ _ _) (Makes-pure true q))
