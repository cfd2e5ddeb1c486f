-- ===== src/Autoscaling/Sending.antt =====
-- The calls about the autoscaler that creating, refreshing and deleting it send to the API.
use steerd_presto_operator.Base.{
  String, Option, ◌&&◌, ◌≡◌, refl, sym, ap, ◌∙◌, not, Bool, true, false, List, [], ◌∷◌, ◌++◌,
  if◌then◌else◌,
}
use steerd_presto_operator.Base.Int.{ℤ}
use steerd_presto_operator.Exec.{Error, Result, ok, err, pure, raise, ◌>>=◌}
use steerd_presto_operator.Exec.Fallible.{is_already_exists, is_not_found}
use steerd_presto_operator.Kube.{Hpa, ReplicaSet}
use steerd_presto_operator.Platform.{Call, Platform}
use steerd_presto_operator.Resource.{Presto}
use steerd_presto_operator.Session.{Op, call}
use steerd_presto_operator.Autoscaling.{
  HpaChange, autoscale_spec_changed, create_hpa, delete_hpa, desired_hpa, get_presto_hpa,
  hpa_listed, no_change, pointers_differ, refresh_hpa, unless_exists, update_hpa,
}
use steerd_presto_operator.Calls.{
  HpaCall, Sent, hpa_create, hpa_delete, hpa_update, note_hpa, noted, recorded, sent,
}
use steerd_presto_operator.Calls.Rules.{
  Keeps, Keeps->>=, Keeps-deref, Keeps-gets, Keeps-lift, Keeps-pure, Keeps-raise, Moves,
  Moves-attempt, Moves-state, Runs, Runs->>=, Runs-if, Runs-pure, Runs-raise,
}
use steerd_presto_operator.Calls.Kept.{Keeps-call, Keeps-need_short}

-- With autoscaling, the autoscaler may be created or updated; without, deleted.
abbrev pub allowed : Bool → HpaCall → Bool
allowed enabled hpa_create = enabled
allowed enabled hpa_update = enabled
allowed enabled hpa_delete = not enabled

-- At most one call, and one that is allowed.
abbrev pub fits : Bool → List HpaCall → Bool
fits enabled [] = true
fits enabled (c ∷ []) = allowed enabled c
fits enabled (c ∷ d ∷ calls) = false

-- The calls of which a change tells.
abbrev pub reported : HpaChange → List HpaCall
reported change =
    (if change.created then hpa_create ∷ [] else [])
    ++ (if change.updated then hpa_update ∷ [] else [])
    ++ (if change.deleted then hpa_delete ∷ [] else [])

-- A change creates the autoscaler exactly when autoscaling is enabled and none was found, and deletes
-- it exactly when autoscaling is not enabled and one was found.
abbrev pub Decision : (enabled found : Bool) → HpaChange → Type 0
Decision enabled found change =
    (change.created ≡ enabled && not found) × (change.deleted ≡ not enabled && found)

-- Whether a list of autoscalers was got that has one.
abbrev pub has_first : Result (List Hpa) → Bool
has_first (ok (hpa ∷ items)) = true
has_first (ok []) = false
has_first (err e) = false

module _ (p : Platform) where
  abbrev pub Calls : List HpaCall → Sent p.Quantity → Type 0
  Calls calls l = l.hpas ≡ calls

  abbrev pub Fits : Bool → Sent p.Quantity → Type 0
  Fits enabled l = fits enabled l.hpas ≡ true

  -- What has been sent when a change is returned.
  abbrev pub Told : (enabled found : Bool) → HpaChange → Sent p.Quantity → Type 0
  Told enabled found change l =
      (l.hpas ≡ reported change) × Decision enabled found change × Fits enabled l

  -- Begun with no call made, the part makes at most one, and the one that it reports.
  abbrev pub Decides : (enabled found : Bool) → Op (recorded p) HpaChange → Type 0
  Decides enabled found m = Runs (sent p) (Calls []) (Told enabled found) (Fits enabled) m

  Fits-Calls :
      (enabled : Bool) (calls : List HpaCall)
      → fits enabled calls ≡ true
      → (l : Sent p.Quantity) → Calls calls l
      → Fits enabled l
  Fits-Calls enabled calls h l e = rw e h

  module _ (enabled found : Bool) where
    -- Nothing is sent yet.
    Decides->>= :
        {A : Type 0} {m : Op (recorded p) A} {f : A → Op (recorded p) HpaChange}
        → Keeps (sent p) (Calls []) m
        → ((a : A) → Decides enabled found (f a))
        → Decides enabled found (m >>= f)
    Decides->>= k h = Runs->>= (sent p) k h (Fits-Calls _ [] refl)

    pub Decides-no_change :
        Decision enabled found no_change → Decides enabled found (pure no_change)
    Decides-no_change d = Runs-pure (sent p) no_change (λ l e. (e, d, Fits-Calls _ [] refl l e))

    pub Decides-raise : (e : Error) → Decides enabled found (raise e)
    Decides-raise e = Runs-raise (sent p) e (Fits-Calls _ [] refl)

    -- The one call has been made, and the change that tells of it is returned.
    Runs-unless_exists :
        (c : HpaCall) (written : Result Hpa) (change : HpaChange)
        → reported change ≡ c ∷ []
        → allowed enabled c ≡ true
        → Decision enabled found change
        → Runs
            (sent p)
            (Calls (c ∷ []))
            (Told enabled found)
            (Fits enabled)
            (unless_exists (recorded p) written change)
    Runs-unless_exists c (ok _) change e h d =
        Runs-pure (sent p) change (λ l i. (i ∙ sym e, d, Fits-Calls _ (c ∷ []) h l i))
    Runs-unless_exists c (err x) change e h d =
        Runs-if (sent p) (is_already_exists x)
          (Runs-pure (sent p) change (λ l i. (i ∙ sym e, d, Fits-Calls _ (c ∷ []) h l i)))
          (Runs-raise (sent p) x (Fits-Calls _ (c ∷ []) h))

  Moves-noted :
      {A : Type 0} (c : HpaCall) (act : Call p.World A)
      → Moves (sent p) (Calls []) (Calls (c ∷ [])) (call (recorded p) (noted (note_hpa c) act))
  unfolding call
  Moves-noted c act =
      Moves-state (sent p) (call (recorded p) (noted (note_hpa c) act)) λ s i. ap (λ l. c ∷ l) i

  module _ {I : Sent p.Quantity → Type 0} where
    Keeps-desired_hpa :
        (replica_set : ReplicaSet p.Quantity) (resource_version : String)
        → Keeps (sent p) I (desired_hpa (recorded p) replica_set resource_version)
    Keeps-desired_hpa replica_set resource_version = Keeps->>= _ (Keeps-gets _ _) λ presto.
        Keeps->>= _ (Keeps-gets _ _) λ lbls.
          Keeps->>= _ (Keeps-lift _ _)
            λ hpa. Keeps->>= _ (Keeps-need_short p presto.status.uuid) λ _. Keeps-pure _ hpa

    Keeps-pointers_differ : (a b : Option ℤ) → Keeps (sent p) I (pointers_differ (recorded p) a b)
    unfolding pointers_differ
    Keeps-pointers_differ a b =
        Keeps->>= _ (Keeps-deref _ a) λ x. Keeps->>= _ (Keeps-deref _ b) λ y. Keeps-pure _ _

    Keeps-autoscale_spec_changed :
        (hpa : Hpa) (presto : Presto)
        → Keeps (sent p) I (autoscale_spec_changed (recorded p) hpa presto)
    unfolding autoscale_spec_changed
    Keeps-autoscale_spec_changed hpa presto = Keeps->>= _ (Keeps-pointers_differ _ _) λ max_differs.
        Runs-if _ max_differs (Keeps-pure _ true) (
          Keeps->>= _ (Keeps-pointers_differ _ _)
            λ min_differs. Runs-if _ min_differs (Keeps-pure _ true) (Keeps-pointers_differ _ _))

    Keeps-hpa_listed :
        (listed : Result (List Hpa)) → Keeps (sent p) I (hpa_listed (recorded p) listed)
    unfolding hpa_listed
    Keeps-hpa_listed (ok []) = Keeps-raise _ _
    Keeps-hpa_listed (ok (hpa ∷ items)) = Keeps-pure _ hpa
    Keeps-hpa_listed (err e) = Runs-if _ (is_not_found e) (Keeps-raise _ _) (Keeps-raise _ e)

    Keeps-get_presto_hpa : Keeps (sent p) I (get_presto_hpa (recorded p))
    unfolding get_presto_hpa
    Keeps-get_presto_hpa = Keeps->>= _ (Keeps-gets _ _) λ presto.
        Keeps->>= _ (Keeps-gets _ _) λ lbls.
          Keeps->>= _ (Moves-attempt _ (Keeps-call p (p.hpas.list _ _)))
            λ listed. Keeps-hpa_listed listed

  pub Decides-create_hpa :
      (replica_set : ReplicaSet p.Quantity)
      → Decides true false (create_hpa (recorded p) replica_set)
  unfolding create_hpa
  Decides-create_hpa replica_set = Decides->>= true false (Keeps-desired_hpa replica_set "") λ hpa.
      Runs->>= (sent p) (Moves-attempt _ (Moves-noted hpa_create (p.hpas.create hpa)))
        (λ written.
          Runs-unless_exists true false hpa_create written (record no_change { created = true })
            refl refl (refl, refl))
        (Fits-Calls _ (hpa_create ∷ []) refl)

  Decides-update_hpa :
      (replica_set : ReplicaSet p.Quantity) (old : Hpa)
      → Decides true true (update_hpa (recorded p) replica_set old)
  unfolding update_hpa
  Decides-update_hpa replica_set old =
      Decides->>= true true (Keeps-desired_hpa replica_set old.meta.resource_version) λ hpa.
        Runs->>= (sent p) (Moves-attempt _ (Moves-noted hpa_update (p.hpas.update hpa)))
          (λ written.
            Runs-unless_exists true true hpa_update written (record no_change { updated = true })
              refl refl (refl, refl))
          (Fits-Calls _ (hpa_update ∷ []) refl)

  pub Decides-refresh_hpa :
      (replica_set : ReplicaSet p.Quantity) (hpa : Hpa)
      → Decides true true (refresh_hpa (recorded p) replica_set hpa)
  unfolding refresh_hpa
  Decides-refresh_hpa replica_set hpa = Decides->>= true true (Keeps-gets _ _) λ presto.
      Decides->>= true true (Keeps-autoscale_spec_changed hpa presto) λ changed.
        Runs-if _ changed (Decides-update_hpa replica_set hpa)
          (Decides-no_change true true (refl, refl))

  pub Decides-delete_hpa : (hpa : Hpa) → Decides false true (delete_hpa (recorded p) hpa)
  unfolding delete_hpa
  Decides-delete_hpa hpa =
      Runs->>= (sent p) (Moves-noted hpa_delete (p.hpas.delete hpa))
        (λ _.
          Runs-pure (sent p) _
            (λ l i. (i, (refl, refl), Fits-Calls false (hpa_delete ∷ []) refl l i)))
        (Fits-Calls _ (hpa_delete ∷ []) refl)
