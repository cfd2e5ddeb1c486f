-- ===== src/Cluster/Makes.antt =====
-- Operations that create an object: what they return and leave is known in part.
use steerd_presto_operator.Base.{◌≡◌, refl, true, List, [], ◌∷◌, ◌++◌}
use steerd_presto_operator.Exec.{done, ok, pure, attempt, gets, ◌>>=◌}
use steerd_presto_operator.Kube.{ObjectMeta, StringMap}
use steerd_presto_operator.Resource.{Presto}
use steerd_presto_operator.Platform.{Api, Platform}
use steerd_presto_operator.Session.{Op, Session, call}
use steerd_presto_operator.Cluster.{Keeps, Objects, SameMeta, name_is_free}
use steerd_presto_operator.Cluster.Runs.{At, Makes, Runs}

module _ {p : Platform} {presto : Presto} {view : p.World → Objects p.Quantity} where
  made_at :
      {A V : Type 0} {v w : V} {s : Session p} {l' : StringMap}
      {P : A → Objects p.Quantity → Type 0} (f : V → Op p A)
      → v ≡ w
      → (a : A) × (o' : Objects p.Quantity) × (s' : Session p) × (f w s ≡ (done a, s'))
        × At p presto view l' o' s'
        × P a o'
      → (a : A) × (o' : Objects p.Quantity) × (s' : Session p) × (f v s ≡ (done a, s'))
        × At p presto view l' o' s'
        × P a o'
  made_at f e r = rw e r

  module _ {l : StringMap} {o : Objects p.Quantity} where
    module _ {Object : Type 0} {get : Objects p.Quantity → List Object}
        {put : List Object → Objects p.Quantity → Objects p.Quantity} {meta : Object → ObjectMeta}
        {Like : Object → Object → Type 0} {api : Api p.World Object}
        (keeps : Keeps view get put meta Like api) where
      -- A creation, with what is done with the created object.
      pub Makes-create :
          (x : Object)
          → name_is_free meta x (get o) ≡ true
          → Makes p presto view l o
              (call p (api.create x))
              l
              (λ x' o'. SameMeta (meta x) (meta x') × Like x x' × (o' ≡ put (get o ++ x' ∷ []) o))
      unfolding call
      Makes-create x free = record {
        makes = λ s h.
            let (x', e, same, like, e') = keeps.created x s.world (rw h.same_objects free) in
            (
              x',
              put (get o ++ x' ∷ []) o,
              record s { world = (api.create x s.world).1 },
              rw e refl,
              record {
                same_presto = h.same_presto;
                same_labels = h.same_labels;
                same_objects = rw (e', h.same_objects) refl;
              },
              (same, like, refl),
            );
      }

    pub Makes-pure :
        {A : Type 0} {P : A → Objects p.Quantity → Type 0} (a : A)
        → P a o
        → Makes p presto view l o (pure a) l P
    unfolding pure
    Makes-pure a q = record { makes = λ s h. (a, o, s, refl, h, q) }

    module _ {A : Type 0} {l' : StringMap} {P : A → Objects p.Quantity → Type 0} where
      pub Makes-attempt :
          {m : Op p A}
          → Makes p presto view l o m l' P
          → Makes p presto view l o (attempt m) l' (λ r o'. (a : A) × (r ≡ ok a) × P a o')
      unfolding attempt
      Makes-attempt {m} r = record {
        makes = λ s h.
            let (a, o', s', e, h', q) = r.makes s h in (ok a, o', s', rw e refl, h', (a, refl, q));
      }

      pub Makes-labels :
          (f : StringMap → Op p A)
          → Makes p presto view l o (f l) l' P
          → Makes p presto view l o (gets (λ s. s.base_labels) >>= f) l' P
      unfolding gets ◌>>=◌
      Makes-labels f r = record { makes = λ s h. made_at f h.same_labels (r.makes s h) }

      pub Makes-presto :
          (f : Presto → Op p A)
          → Makes p presto view l o (f presto) l' P
          → Makes p presto view l o (gets (λ s. s.presto) >>= f) l' P
      unfolding gets ◌>>=◌
      Makes-presto f r = record { makes = λ s h. made_at f h.same_presto (r.makes s h) }

    module _ {A B : Type 0} {m : Op p A} (f : A → Op p B) {l' l'' : StringMap}
        {Q : B → Objects p.Quantity → Type 0} where
      pub Makes->>= :
          {P : A → Objects p.Quantity → Type 0}
          → Makes p presto view l o m l' P
          → ((a : A) (o' : Objects p.Quantity) → P a o' → Makes p presto view l' o' (f a) l'' Q)
          → Makes p presto view l o (m >>= f) l'' Q
      unfolding ◌>>=◌
      Makes->>= r k = record {
        makes = λ s h.
            let (a, o', s', e, h', q) = r.makes s h in
            let (b, o'', s'', e', h'', q') = (k a o' q).makes s' h' in
            (b, o'', s'', rw e e', h'', q');
      }

      -- A first part that is known exactly.
      pub Makes->>=_Runs :
          {a : A} {o' : Objects p.Quantity}
          → Runs p presto view l o m (done a) l' o'
          → Makes p presto view l' o' (f a) l'' Q
          → Makes p presto view l o (m >>= f) l'' Q
      unfolding ◌>>=◌
      Makes->>=_Runs r k = record {
        makes = λ s h.
            let (s', e, h') = r.runs s h in
            let (b, o'', s'', e', h'', q') = k.makes s' h' in (b, o'', s'', rw e e', h'', q');
      }
