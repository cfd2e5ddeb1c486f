-- ===== src/Cluster/Runs.antt =====
-- What an operation does, from a known view of the cluster and known base labels.
use steerd_presto_operator.Base.{
  String, ◌≡◌, refl, ap, ◌∙◌, Bool, true, false, Option, some, List, if◌then◌else◌,
}
use steerd_presto_operator.Base.Dict.{insert}
use steerd_presto_operator.Exec.{
  Error, Outcome, Result, done, failed, ok, err, to_result, of_result, pure, raise, attempt, lift,
  deref, gets, ◌>>=◌,
}
use steerd_presto_operator.Kube.{ObjectMeta, StringMap}
use steerd_presto_operator.Names.{has_short}
use steerd_presto_operator.Resource.{Presto}
use steerd_presto_operator.Platform.{Api, Call, Platform}
use steerd_presto_operator.Session.{Op, Session, call, need_short, put_label}
use steerd_presto_operator.Cluster.{Keeps, Objects, keep, selects}

module _ (p : Platform) (presto : Presto) (view : p.World → Objects p.Quantity) where
  pub record At (labels : StringMap) (objects : Objects p.Quantity) (s : Session p) : Type 0 where
    pub same_presto : s.presto ≡ presto
    pub same_labels : s.base_labels ≡ labels
    pub same_objects : view s.world ≡ objects

  -- From these labels and objects the operation ends so, with those.
  pub record Runs {A : Type 0} (labels : StringMap) (objects : Objects p.Quantity) (m : Op p A)
      (out : Outcome A) (labels' : StringMap) (objects' : Objects p.Quantity) : Type 0 where
    pub runs :
        (s : Session p)
        → At labels objects s
        → (s' : Session p) × (m s ≡ (out, s')) × At labels' objects' s'

  -- The operation succeeds and changes neither labels nor objects.
  pub record Reads {A : Type 0} (labels : StringMap) (objects : Objects p.Quantity) (m : Op p A)
      : Type 0 where
    pub reads :
        (s : Session p)
        → At labels objects s
        → (a : A) × (s' : Session p) × (m s ≡ (done a, s')) × At labels objects s'

  -- The operation succeeds with some value and some objects of which `Post` holds.
  pub record Makes {A : Type 0} (labels : StringMap) (objects : Objects p.Quantity) (m : Op p A)
      (labels' : StringMap) (Post : A → Objects p.Quantity → Type 0) : Type 0 where
    pub makes :
        (s : Session p)
        → At labels objects s
        → (a : A) × (objects' : Objects p.Quantity) × (s' : Session p) × (m s ≡ (done a, s'))
          × At labels' objects' s'
          × Post a objects'

module _ {p : Platform} {presto : Presto} {view : p.World → Objects p.Quantity} where
  -- What was read is what is known.
  read_at :
      {A V : Type 0} {v w : V} {s : Session p} {out : Outcome A} {l' : StringMap}
      {o' : Objects p.Quantity} (f : V → Op p A)
      → v ≡ w
      → (s' : Session p) × (f w s ≡ (out, s')) × At p presto view l' o' s'
      → (s' : Session p) × (f v s ≡ (out, s')) × At p presto view l' o' s'
  read_at f e r = rw e r

  module _ {l : StringMap} {o : Objects p.Quantity} where
    module _ {A : Type 0} where
      pub Runs-pure : (a : A) → Runs p presto view l o (pure a) (done a) l o
      unfolding pure
      Runs-pure a = record { runs = λ s h. (s, refl, h) }

      pub Runs-raise : (e : Error) → Runs p presto view l o (raise {A = A} e) (failed e) l o
      unfolding raise
      Runs-raise e = record { runs = λ s h. (s, refl, h) }

      pub Runs-lift :
          {a : A} (r : Result A) → r ≡ ok a → Runs p presto view l o (lift r) (done a) l o
      unfolding lift
      Runs-lift r e = record { runs = λ s h. (s, rw e refl, h) }

      pub Runs-deref :
          {a : A} (r : Option A) → r ≡ some a → Runs p presto view l o (deref r) (done a) l o
      unfolding deref
      Runs-deref r e = record { runs = λ s h. (s, rw e refl, h) }

      pub Runs-attempt :
          {m : Op p A} {a : A} {l' : StringMap} {o' : Objects p.Quantity}
          → Runs p presto view l o m (done a) l' o'
          → Runs p presto view l o (attempt m) (done (ok a)) l' o'
      unfolding attempt
      Runs-attempt {m} r = record {
        runs = λ s h. let (s', e, h') = r.runs s h in (s', rw e refl, h');
      }

      pub Runs-attempt-failed :
          {m : Op p A} {e : Error} {l' : StringMap} {o' : Objects p.Quantity}
          → Runs p presto view l o m (failed e) l' o'
          → Runs p presto view l o (attempt m) (done (err e)) l' o'
      unfolding attempt
      Runs-attempt-failed {m} r = record {
        runs = λ s h. let (s', e, h') = r.runs s h in (s', rw e refl, h');
      }

      pub Runs-labels :
          (f : StringMap → Op p A) {out : Outcome A} {l' : StringMap} {o' : Objects p.Quantity}
          → Runs p presto view l o (f l) out l' o'
          → Runs p presto view l o (gets (λ s. s.base_labels) >>= f) out l' o'
      unfolding gets ◌>>=◌
      Runs-labels f r = record { runs = λ s h. read_at f h.same_labels (r.runs s h) }

      pub Runs-presto :
          (f : Presto → Op p A) {out : Outcome A} {l' : StringMap} {o' : Objects p.Quantity}
          → Runs p presto view l o (f presto) out l' o'
          → Runs p presto view l o (gets (λ s. s.presto) >>= f) out l' o'
      unfolding gets ◌>>=◌
      Runs-presto f r = record { runs = λ s h. read_at f h.same_presto (r.runs s h) }

      of_call :
          (c : Call p.World A) (s s' : Session p) (r : Result A)
          → At p presto view l o s'
          → to_result (of_result r, s') ≡ (done r, s')
      of_call c s s' (ok a) h = refl
      of_call c s s' (err e) h = refl

      -- A call whose error the caller looks at, and which leaves the objects alone.
      pub Reads-attempt :
          (c : Call p.World A)
          → ((w : p.World) → view (c w).1 ≡ view w)
          → Reads p presto view l o (attempt (call p c))
      unfolding attempt call
      Reads-attempt c same = record {
        reads = λ s h.
            let s' : Session p = record s { world = (c s.world).1 } in
            let h' : At p presto view l o s' = record {
              same_presto = h.same_presto;
              same_labels = h.same_labels;
              same_objects = same s.world ∙ h.same_objects;
            } in
            ((c s.world).0, s', of_call c s s' (c s.world).0 h', h');
      }

    module _ {A B : Type 0} {m : Op p A} (f : A → Op p B) where
      pub Runs->>= :
          {a : A} {out : Outcome B} {l' l'' : StringMap} {o' o'' : Objects p.Quantity}
          → Runs p presto view l o m (done a) l' o'
          → Runs p presto view l' o' (f a) out l'' o''
          → Runs p presto view l o (m >>= f) out l'' o''
      unfolding ◌>>=◌
      Runs->>= r k = record {
        runs = λ s h.
            let (s', e, h') = r.runs s h in
            let (s'', e', h'') = k.runs s' h' in (s'', rw e e', h'');
      }

      pub Runs->>=_Reads :
          {out : Outcome B} {l' : StringMap} {o' : Objects p.Quantity}
          → Reads p presto view l o m
          → ((a : A) → Runs p presto view l o (f a) out l' o')
          → Runs p presto view l o (m >>= f) out l' o'
      unfolding ◌>>=◌
      Runs->>=_Reads r k = record {
        runs = λ s h.
            let (a, s', e, h') = r.reads s h in
            let (s'', e', h'') = (k a).runs s' h' in (s'', rw e e', h'');
      }

    -- A statement that is left out under some conditions.
    pub Runs-if :
        (b : Bool) (m : Op p (Unit {0}))
        → Runs p presto view l o m (done tt) l o
        → Runs p presto view l o (if b then m else pure tt) (done tt) l o
    Runs-if true m h = h
    Runs-if false m h = Runs-pure tt

    pub Runs-need_short :
        (cluster_uuid : String)
        → has_short cluster_uuid ≡ true
        → Runs p presto view l o (need_short p cluster_uuid) (done tt) l o
    unfolding need_short pure
    Runs-need_short cluster_uuid e = record { runs = λ s h. (s, rw e refl, h) }

    pub Runs-put_label :
        (k v : String) → Runs p presto view l o (put_label p (k, v)) (done tt) (insert k v l) o
    unfolding put_label pure
    Runs-put_label k v = record {
      runs = λ s h. (
        record s { base_labels = insert k v s.base_labels },
        refl,
        record {
          same_presto = h.same_presto;
          same_labels = ap (insert k v) h.same_labels;
          same_objects = h.same_objects;
        },
      );
    }

    module _ {Object : Type 0} {get : Objects p.Quantity → List Object}
        {put : List Object → Objects p.Quantity → Objects p.Quantity} {meta : Object → ObjectMeta}
        {Like : Object → Object → Type 0} {api : Api p.World Object}
        (keeps : Keeps view get put meta Like api) where
      pub Runs-list :
          (namespace : String) (selector : StringMap)
          → Runs p presto view l o
              (call p (api.list namespace selector))
              (done (keep (λ x. selects namespace selector (meta x)) (get o)))
              l
              o
      unfolding call
      Runs-list namespace selector = record {
        runs = λ s h.
            let (e, same) = keeps.listed namespace selector s.world in
            (
              record s { world = (api.list namespace selector s.world).1 },
              rw (e, h.same_objects) refl,
              record {
                same_presto = h.same_presto;
                same_labels = h.same_labels;
                same_objects = same ∙ h.same_objects;
              },
            );
      }
