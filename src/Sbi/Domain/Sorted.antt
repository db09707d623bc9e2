-- ===== src/Sbi/Domain/Sorted.antt =====
-- What the two loops of `sanitize_domain` make of the regions.
use mathlib.Core.List.{Mem, Perm, Pairwise, forall_mem-cons, not-mem-nil}
use mathlib.Core.List.Perm
use inside_system.Prelude.{
  ℕ, zero, suc, ◌+◌, ◌-◌, ◌^◌, ◌%◌, ◌≤◌, ◌≡◌, refl, sym, ap, ◌∙◌, true, false, List, [], ◌∷◌, arith,
  if◌then◌else◌, inl, inr, Bool-cases, length,
}
use inside_system.Sbi.Domain.{Region, is_region_before}
use inside_system.Sbi.Domain.Order.{
  sweep, sort_from, sort_regions, last_index, remove_from, order_regions,
}

-- `b` does not come before `a`.
abbrev pub Leads : Region → Region → Type 0
Leads a b = is_region_before b a ≡ false

-- Each region leads all that stand behind it.
abbrev pub IsOrdered : List Region → Type 0
IsOrdered = Pairwise Leads

Leads-refl : (a : Region) → Leads a a
unfolding is_region_before
Leads-refl a = ground arith

Leads-trans : (a b c : Region) → Leads a b → Leads b c → Leads a c
unfolding is_region_before
Leads-trans a b c p q = ground (arith, p, q)

swap-Leads : (a b : Region) → is_region_before b a ≡ true → Leads b a
unfolding is_region_before
swap-Leads a b h = ground (arith, h)

sweep-Perm :
    (reg : Region) (rest : List Region)
    → Perm ((sweep reg rest).0 ∷ (sweep reg rest).1) (reg ∷ rest)
unfolding sweep
sweep-Perm reg [] = Perm.rfl
sweep-Perm reg (reg1 ∷ rest) = elim (Bool-cases (is_region_before reg1 reg)) [
  | inl swap ↦
      rw swap
        (Perm.trans (Perm.swap _ _ _) (Perm.trans (Perm.cons _ (sweep-Perm reg1 rest)) Perm.rfl))
  | inr stay ↦ rw stay (
      Perm.trans (Perm.swap _ _ _)
        (Perm.trans (Perm.cons _ (sweep-Perm reg rest)) (Perm.swap _ _ _)))
]

sweep-Leads : (reg : Region) (rest : List Region) → Leads (sweep reg rest).0 reg
unfolding sweep
sweep-Leads reg [] = Leads-refl reg
sweep-Leads reg (reg1 ∷ rest) = elim (Bool-cases (is_region_before reg1 reg)) [
  | inl swap ↦ rw swap (Leads-trans _ reg1 reg (sweep-Leads reg1 rest) (swap-Leads reg reg1 swap))
  | inr stay ↦ rw stay (sweep-Leads reg rest)
]

-- `a` leads the whole list.
abbrev LeadsAll : Region → List Region → Type 0
LeadsAll a l = (x : Region) → Mem x l → Leads a x

Leads-IsProp : (a b : Region) → IsProp (Leads a b)
Leads-IsProp a b = hlevel

LeadsAll-cons : (a b : Region) (l : List Region) → Leads a b → LeadsAll a l → LeadsAll a (b ∷ l)
LeadsAll-cons a b l p h = (forall_mem-cons (Leads-IsProp a)).1 (p, h)

sweep-LeadsAll :
    (reg : Region) (rest : List Region) → LeadsAll (sweep reg rest).0 (sweep reg rest).1
unfolding sweep
sweep-LeadsAll reg [] = λ x m. absurd (not-mem-nil m)
sweep-LeadsAll reg (reg1 ∷ rest) = elim (Bool-cases (is_region_before reg1 reg)) [
  | inl swap ↦ rw swap (
      LeadsAll-cons _ reg _
        (Leads-trans _ reg1 reg (sweep-Leads reg1 rest) (swap-Leads reg reg1 swap))
        (sweep-LeadsAll reg1 rest))
  | inr stay ↦ rw stay (
      LeadsAll-cons _ reg1 _ (Leads-trans _ reg reg1 (sweep-Leads reg rest) stay)
        (sweep-LeadsAll reg rest))
]

LeadsAll-perm : (a : Region) (l r : List Region) → Perm l r → LeadsAll a r → LeadsAll a l
LeadsAll-perm a l r p h x m = h x ((Perm.mem_iff p).0 m)

length-sweep : (reg : Region) (rest : List Region) → length (sweep reg rest).1 ≡ length rest
unfolding sweep
length-sweep reg [] = refl
length-sweep reg (reg1 ∷ rest) =
    ap suc (length-sweep (if is_region_before reg1 reg then reg1 else reg) rest)

sort_from-Perm : (rounds : ℕ) (rs : List Region) → Perm (sort_from rounds rs) rs
unfolding sort_from
sort_from-Perm zero rs = Perm.rfl
sort_from-Perm (suc rounds) [] = Perm.rfl
sort_from-Perm (suc rounds) (reg ∷ rest) =
    Perm.trans (Perm.cons _ (sort_from-Perm rounds _)) (sweep-Perm reg rest)

sort_from-IsOrdered :
    (rounds : ℕ) (rs : List Region) → length rs ≤ rounds → IsOrdered (sort_from rounds rs)
unfolding sort_from
sort_from-IsOrdered zero [] h = Pairwise.nil
sort_from-IsOrdered zero (r ∷ rs) h = absurd (omega (arith, h))
sort_from-IsOrdered (suc rounds) [] h = Pairwise.nil
sort_from-IsOrdered (suc rounds) (reg ∷ rest) h =
    Pairwise.cons (LeadsAll-perm _ _ _ (sort_from-Perm rounds _) (sweep-LeadsAll reg rest))
      (sort_from-IsOrdered rounds _ (omega (arith, h, length-sweep reg rest)))

-- The second loop starts where it ends.
remove_from-stop : (fuel : ℕ) (rs : List Region) → remove_from fuel (last_index rs) rs ≡ rs
unfolding remove_from
remove_from-stop zero rs = refl
remove_from-stop (suc fuel) rs = ground arith

length-sort_from : (rounds : ℕ) (rs : List Region) → length (sort_from rounds rs) ≡ length rs
unfolding sort_from
length-sort_from zero rs = refl
length-sort_from (suc rounds) [] = refl
length-sort_from (suc rounds) (reg ∷ rest) =
    ap suc (length-sort_from rounds (sweep reg rest).1 ∙ length-sweep reg rest)

-- The loop that removes covered regions removes none: the two loops leave a sorted list of the same
-- regions, the covered ones too.
pub order_regions-sorts : (rs : List Region) → order_regions rs ≡ sort_regions rs
unfolding order_regions
order_regions-sorts rs =
    let n : last_index rs ≡ last_index (sort_regions rs) =
      ap (λ c. (c + (2 ^ 32 - 1)) % 2 ^ 32) (sym (length-sort_from (length rs) rs)) in
    rw n (remove_from-stop (length rs) (sort_regions rs))

pub order_regions-Perm : (rs : List Region) → Perm (order_regions rs) rs
order_regions-Perm rs = rw (order_regions-sorts rs) (sort_from-Perm (length rs) rs)

pub order_regions-IsOrdered : (rs : List Region) → IsOrdered (order_regions rs)
order_regions-IsOrdered rs =
    rw (order_regions-sorts rs) (sort_from-IsOrdered (length rs) rs (omega arith))
