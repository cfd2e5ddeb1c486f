-- ===== src/Cpu/Laws.antt =====
-- The CPU usage as a percentage.
use steerd_presto_operator.Base.{
  ℕ, zero, suc, ◌+◌, ◌*◌, ◌/◌, ◌%◌, ◌^◌, ◌≤◌, ◌<◌, String, ◌≡◌, refl, ap, ◌∙◌, ◌&&◌, List, [], ◌∷◌,
  ◌++◌, arith, ◌==◌, Bool-cases, inl, inr, if◌then◌else◌,
}
use steerd_presto_operator.Base.Int.{ℤ, pos, negsuc, add64, mul64, div64}
use steerd_presto_operator.Base.Dict.{Dict}
use steerd_presto_operator.Exec.{ok}
use steerd_presto_operator.Kube.Pod.{PodMetrics}
use steerd_presto_operator.Platform.{Platform}
use steerd_presto_operator.Cpu.{
  add_containers, add_pods, add_usage, add_use, no_totals, percentage, Totals, quantity_or_zero,
  usage_of,
}

-- One round of the loop for each measured use.
abbrev pub add_all : ℤ → List ℤ → Totals → Totals
add_all allotted [] t = t
add_all allotted (used ∷ more) t = add_all allotted more (add_use allotted used t)

add_all-append :
    (allotted : ℤ) (us vs : List ℤ) (t : Totals)
    → add_all allotted (us ++ vs) t ≡ add_all allotted vs (add_all allotted us t)
add_all-append allotted [] vs t = refl
add_all-append allotted (u ∷ us) vs t = add_all-append allotted us vs _

module _ (p : Platform) (container_prefix : String) where
  -- The CPU uses of the containers with this name.
  abbrev pub cpu_uses : String → Dict p.Quantity → List ℤ
  cpu_uses name [] = []
  cpu_uses name ((k, used) ∷ usage) =
      if k == "cpu" && name == container_prefix
      then p.milli_value used ∷ cpu_uses name usage
      else cpu_uses name usage

  abbrev pub container_uses : PodMetrics p.Quantity → List ℤ
  container_uses [] = []
  container_uses (cm ∷ containers) = cpu_uses cm.name cm.usage ++ container_uses containers

  abbrev pub pod_uses : List (PodMetrics p.Quantity) → List ℤ
  pod_uses [] = []
  pod_uses (pm ∷ items) = container_uses pm ++ pod_uses items

  module _ (allotted : ℤ) where
    add_usage-eq :
        (name : String) (usage : Dict p.Quantity) (t : Totals)
        → add_usage p container_prefix allotted name usage t
          ≡ add_all allotted (cpu_uses name usage) t
    unfolding add_usage
    add_usage-eq name [] t = refl
    add_usage-eq name ((k, used) ∷ usage) t =
        elim (Bool-cases (k == "cpu" && name == container_prefix)) [
          | inl e ↦ rw e (add_usage-eq name usage (add_use allotted (p.milli_value used) t))
          | inr e ↦ rw e (add_usage-eq name usage t)
        ]

    add_containers-eq :
        (pm : PodMetrics p.Quantity) (t : Totals)
        → add_containers p container_prefix allotted pm t ≡ add_all allotted (container_uses pm) t
    unfolding add_containers
    add_containers-eq [] t = refl
    add_containers-eq (cm ∷ containers) t =
        add_containers-eq containers _ ∙ rw (add_usage-eq, add_all-append)

    add_pods-eq :
        (items : List (PodMetrics p.Quantity)) (t : Totals)
        → add_pods p container_prefix allotted items t ≡ add_all allotted (pod_uses items) t
    unfolding add_pods
    add_pods-eq [] t = refl
    add_pods-eq (pm ∷ items) t = add_pods-eq items _ ∙ rw (add_containers-eq, add_all-append)

-- A container used at most what it was allotted.
abbrev pub AllWithin : ℕ → List ℤ → Type 0
AllWithin c [] = Unit
AllWithin c (used ∷ more) = ((n : ℕ) × (used ≡ pos n) × (n ≤ c)) × AllWithin c more

abbrev pub total : ℕ → List ℤ → ℕ
total c [] = 0
total c (used ∷ more) = c + total c more

-- The sum of the uses.
abbrev pub used_in_all : List ℤ → ℕ
used_in_all [] = 0
used_in_all (pos n ∷ more) = n + used_in_all more
used_in_all (negsuc n ∷ more) = used_in_all more

-- The percentage, rounded down.
abbrev pub share : (used allotted : ℕ) → ℕ
share used zero = 0
share used (suc a) = used * 100 / suc a

record Sums (t : Totals) (allotted_sum used_sum : ℕ) : Type 0 where
  allotted_eq : t.allotted ≡ pos allotted_sum
  used_eq : t.used ≡ pos used_sum

used-≤-total : (c : ℕ) (us : List ℤ) → AllWithin c us → used_in_all us ≤ total c us
used-≤-total c [] w = omega arith
used-≤-total c (pos n ∷ us) ((m, e, le), w) =
    let ih = used-≤-total c us w in let same : n ≡ m = cc in omega (arith, ih, le, same)
used-≤-total c (negsuc n ∷ us) (_, w) = let ih = used-≤-total c us w in omega (arith, ih)

add64-pos : (a b : ℕ) → a + b < 2 ^ 63 → add64 (pos a) (pos b) ≡ pos (a + b)
unfolding add64
add64-pos a b h = ground arith

small_mod : (n : ℕ) → n < 2 ^ 63 → n % 2 ^ 64 ≡ n
small_mod n h = omega arith

mul64-pos :
    (a b : ℕ) → a < 2 ^ 63 → b < 2 ^ 63 → a * b < 2 ^ 63 → mul64 (pos a) (pos b) ≡ pos (a * b)
unfolding mul64
mul64-pos a b g h k = rw (small_mod a g, small_mod b h, small_mod (a * b) k) (ground arith)

zero_plus : (n : ℕ) → 0 + n ≡ n
zero_plus n = omega arith

plus_zero : (n : ℕ) → n + 0 ≡ n
plus_zero n = omega arith

plus_assoc : (a b c : ℕ) → a + (b + c) ≡ (a + b) + c
plus_assoc a b c = omega arith

add_use-Sums :
    (c n : ℕ) (t : Totals) (a u : ℕ)
    → a + c < 2 ^ 63
    → u + n < 2 ^ 63
    → Sums t a u
    → Sums (add_use (pos c) (pos n) t) (a + c) (u + n)
unfolding add_use
add_use-Sums c n t a u h k s = record {
  allotted_eq = simp s.allotted_eq (add64-pos a c h);
  used_eq = simp s.used_eq (add64-pos u n k);
}

add_all-Sums :
    (c : ℕ) (us : List ℤ) (t : Totals) (a u : ℕ)
    → AllWithin c us
    → u ≤ a
    → a + total c us < 2 ^ 63
    → Sums t a u
    → Sums (add_all (pos c) us t) (a + total c us) (u + used_in_all us)
add_all-Sums c [] t a u _ le h s = rw (plus_zero a, plus_zero u) s
add_all-Sums c (pos n ∷ us) t a u ((m, e, le'), w) le h s =
    let same : n ≡ m = cc in
    let r =
      add_all-Sums c us (add_use (pos c) (pos n) t) (a + c) (u + n) w (omega (arith, le', same))
        (omega (arith, h))
        (add_use-Sums c n t a u (omega (arith, h)) (omega (arith, h, le', same)) s) in
    rw (plus_assoc a c (total c us), plus_assoc u n (used_in_all us)) r
add_all-Sums c (negsuc n ∷ us) t a u ((m, e, le'), w) le h s = cc

percentage-eq :
    (allotted used : ℕ)
    → used ≤ allotted
    → allotted * 100 < 2 ^ 63
    → percentage (record { allotted = pos allotted; used = pos used }) ≡ pos (share used allotted)
unfolding percentage div64
percentage-eq zero used le h = refl
percentage-eq (suc a) used le h =
    rw (mul64-pos used 100 (omega arith) (omega arith) (omega arith)) (ground arith)

share_bounds : (used allotted : ℕ) → used ≤ allotted → share used allotted ≤ 100
share_bounds used zero le = omega arith
share_bounds used (suc a) le = grind arith

percentage-Sums :
    (t : Totals) (allotted used : ℕ)
    → Sums t allotted used
    → used ≤ allotted
    → allotted * 100 < 2 ^ 63
    → percentage t ≡ pos (share used allotted)
unfolding percentage
percentage-Sums t allotted used s le h =
    rw (s.allotted_eq, s.used_eq) (percentage-eq allotted used le h)

percentage-add_all :
    (c : ℕ) (us : List ℤ)
    → AllWithin c us
    → total c us * 100 < 2 ^ 63
    → percentage (add_all (pos c) us no_totals) ≡ pos (share (used_in_all us) (total c us))
percentage-add_all c us w h =
    let s =
      add_all-Sums c us no_totals 0 0 w (omega arith) (omega arith)
        (record { allotted_eq = refl; used_eq = refl }) in
    percentage-Sums (add_all (pos c) us no_totals) (total c us) (used_in_all us)
      (record {
        allotted_eq = s.allotted_eq ∙ ap pos (zero_plus (total c us));
        used_eq = s.used_eq ∙ ap pos (zero_plus (used_in_all us));
      })
      (used-≤-total c us w) h

-- If every container of the measured name used at most the limit, which is not negative, and 100 times
-- the limits' sum fits in 63 bits: the reported usage is the share of the sum of the uses in the sum of
-- the limits, in percent and rounded down, or 0 if the latter sum is 0, and is at most 100.
pub usage_of_bounds :
    (p : Platform) (container_prefix cpu_limit : String) (items : List (PodMetrics p.Quantity))
    (c : ℕ)
    → p.milli_value (quantity_or_zero p cpu_limit) ≡ pos c
    → AllWithin c (pod_uses p container_prefix items)
    → total c (pod_uses p container_prefix items) * 100 < 2 ^ 63
    → let uses = pod_uses p container_prefix items in
      (usage_of p container_prefix cpu_limit (ok items)
        ≡ pos (share (used_in_all uses) (total c uses)))
      × (share (used_in_all uses) (total c uses) ≤ 100)
unfolding usage_of
usage_of_bounds p container_prefix cpu_limit items c e w h =
    let uses = pod_uses p container_prefix items in
    (
      rw (e, add_pods-eq) (percentage-add_all c uses w h),
      share_bounds (used_in_all uses) (total c uses) (used-≤-total c uses w),
    )
