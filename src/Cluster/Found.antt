-- ===== src/Cluster/Found.antt =====
-- What list calls find: lemmas on the tests `any`, `all` and `keep`.
use steerd_presto_operator.Base.{
  ◌≡◌, refl, Bool, true, false, not, ◌&&◌, ◌||◌, List, [], ◌∷◌, ◌++◌, arith, Bool-cases, inl, inr,
}
use steerd_presto_operator.Cluster.{all, any, keep}

abbrev pub follows : Bool → Bool → Bool
follows a b = not a || b

module _ {A : Type 0} where
  pub any-append : (f : A → Bool) (xs : List A) (y : A) → any f (xs ++ y ∷ []) ≡ (any f xs || f y)
  any-append f [] y = ground arith
  any-append f (x ∷ xs) y = let ih = any-append f xs y in ground (arith, ih)

  pub all-append : (f : A → Bool) (xs : List A) (y : A) → all f (xs ++ y ∷ []) ≡ (all f xs && f y)
  all-append f [] y = ground arith
  all-append f (x ∷ xs) y = let ih = all-append f xs y in ground (arith, ih)

  -- What has the name would be found.
  pub any-false :
      (f g : A → Bool) (xs : List A)
      → all (λ x. follows (f x) (g x)) xs ≡ true
      → any g xs ≡ false
      → any f xs ≡ false
  any-false f g [] h k = refl
  any-false f g (x ∷ xs) h k = let ih = any-false f g xs in ground (arith, h, k, ih)

  -- The first element that is found has what follows from being found.
  pub keep_first :
      (f g : A → Bool) (xs : List A)
      → all (λ x. follows (f x) (g x)) xs ≡ true
      → any f xs ≡ true
      → (y : A) × (rest : List A) × (keep f xs ≡ y ∷ rest) × (g y ≡ true)
  keep_first f g [] h k = cc
  keep_first f g (x ∷ xs) h k = elim (Bool-cases (f x)) [
    | inl e ↦ (x, keep f xs, rw e refl, ground (arith, e, h))
    | inr e ↦
        let (y, rest, e', e'') = keep_first f g xs (ground (arith, e, h)) (ground (arith, e, k)) in
        (y, rest, rw (e, e') refl, e'')
  ]

  pub keep_some :
      (f : A → Bool) (xs : List A)
      → any f xs ≡ true
      → (y : A) × (rest : List A) × (keep f xs ≡ y ∷ rest)
  keep_some f [] k = cc
  keep_some f (x ∷ xs) k = elim (Bool-cases (f x)) [
    | inl e ↦ (x, keep f xs, rw e refl)
    | inr e ↦
        let (y, rest, e') = keep_some f xs (ground (arith, e, k)) in (y, rest, rw (e, e') refl)
  ]

  pub all-grows :
      (f : A → Bool) (xs : List A) (y : A)
      → all f xs ≡ true
      → f y ≡ true
      → all f (xs ++ y ∷ []) ≡ true
  all-grows f xs y h k = rw (all-append f xs y, h) k

  pub any-found : (f : A → Bool) (xs : List A) (y : A) → f y ≡ true → any f (xs ++ y ∷ []) ≡ true
  any-found f xs y k = rw (any-append f xs y, k) (ground arith)

  pub any-same :
      (f : A → Bool) (xs : List A) (y : A) → f y ≡ false → any f (xs ++ y ∷ []) ≡ any f xs
  any-same f xs y k = rw (any-append f xs y, k) (ground arith)

  pub keep_none : (f : A → Bool) (xs : List A) → any f xs ≡ false → keep f xs ≡ []
  keep_none f [] h = refl
  keep_none f (x ∷ xs) h = let ih = keep_none f xs in ground (arith, h, ih)

-- What follows from one test follows from a stronger one.
pub all-follows :
    {A : Type 0} (f g h : A → Bool) (xs : List A)
    → ((x : A) → g x ≡ true → f x ≡ true)
    → all (λ x. follows (f x) (h x)) xs ≡ true
    → all (λ x. follows (g x) (h x)) xs ≡ true
all-follows f g h [] k e = refl
all-follows f g h (x ∷ xs) k e =
    let ih = all-follows f g h xs k in let kx = k x in ground (arith, e, ih, kx)
