-- ===== src/Cluster/Settle.antt =====
-- The abstract pass: of a row of objects the first one that is missing is built.
use steerd_presto_operator.Base.{
  ℕ, zero, suc, ◌+◌, ◌-◌, ◌≤◌, ◌≡◌, refl, Bool, true, false, ◌&&◌, List, [], ◌∷◌, arith,
}

unfoldable pub settle : List Bool → List Bool
settle [] = []
settle (true ∷ built) = true ∷ settle built
settle (false ∷ built) = true ∷ built

-- How many objects are missing.
unfoldable pub missing : List Bool → ℕ
missing [] = 0
missing (true ∷ built) = missing built
missing (false ∷ built) = 1 + missing built

-- One object more is built.
unfoldable pub mark : ℕ → List Bool → List Bool
mark n [] = []
mark zero (b ∷ built) = true ∷ built
mark (suc n) (b ∷ built) = b ∷ mark n built

-- The objects before one are there.
abbrev pub before : ℕ → List Bool → Bool
before zero built = true
before (suc n) [] = true
before (suc n) (b ∷ built) = b && before n built

abbrev pub is_built : ℕ → List Bool → Bool
is_built n [] = true
is_built zero (b ∷ built) = b
is_built (suc n) (b ∷ built) = is_built n built

pub before-suc :
    (n : ℕ) (built : List Bool)
    → before n built ≡ true
    → is_built n built ≡ true
    → before (suc n) built ≡ true
before-suc zero [] h k = refl
before-suc (suc n) [] h k = refl
before-suc zero (b ∷ built) h k = ground (arith, k)
before-suc (suc n) (b ∷ built) h k = let ih = before-suc n built in ground (arith, h, k, ih)

-- The pass builds the object before which all are there.
pub mark-settle :
    (n : ℕ) (built : List Bool)
    → before n built ≡ true
    → is_built n built ≡ false
    → mark n built ≡ settle built
unfolding mark settle
mark-settle n [] h k = refl
mark-settle zero (true ∷ built) h k = cc
mark-settle zero (false ∷ built) h k = refl
mark-settle (suc n) (true ∷ built) h k = rw (mark-settle n built h k) refl
mark-settle (suc n) (false ∷ built) h k = cc

abbrev is_at_most : ℕ → List Bool → Bool
is_at_most n [] = true
is_at_most zero (b ∷ built) = false
is_at_most (suc n) (b ∷ built) = is_at_most n built

-- Nothing is missing.
pub settle-before :
    (n : ℕ) (built : List Bool)
    → is_at_most n built ≡ true
    → before n built ≡ true
    → settle built ≡ built
unfolding settle
settle-before n [] h k = refl
settle-before zero (b ∷ built) h k = cc
settle-before (suc n) (true ∷ built) h k = rw (settle-before n built h k) refl
settle-before (suc n) (false ∷ built) h k = cc

-- A pass leaves one missing object less, until there is none.
pub missing-settle : (built : List Bool) → missing (settle built) ≡ missing built - 1
unfolding missing settle
missing-settle [] = omega arith
missing-settle (true ∷ built) = missing-settle built
missing-settle (false ∷ built) = omega arith

pub settle-missing : (built : List Bool) → missing built ≡ 0 → settle built ≡ built
unfolding missing settle
settle-missing [] h = refl
settle-missing (true ∷ built) h = rw (settle-missing built h) refl
settle-missing (false ∷ built) h = absurd (omega (arith, h))

pub missing-is_at_most : (n : ℕ) (built : List Bool) → is_at_most n built ≡ true → missing built ≤ n
unfolding missing
missing-is_at_most n [] h = omega arith
missing-is_at_most zero (b ∷ built) h = cc
missing-is_at_most (suc n) (true ∷ built) h =
    let ih = missing-is_at_most n built h in omega (arith, ih)
missing-is_at_most (suc n) (false ∷ built) h =
    let ih = missing-is_at_most n built h in omega (arith, ih)

-- What is missing counts.
pub missing-is_built :
    (n : ℕ) (built : List Bool) → is_built n built ≡ false → ¬ (missing built ≡ 0)
unfolding missing
missing-is_built n [] h k = cc
missing-is_built zero (true ∷ built) h k = cc
missing-is_built n (false ∷ built) h k = omega (arith, k)
missing-is_built (suc n) (true ∷ built) h k = missing-is_built n built h k
