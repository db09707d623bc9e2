-- ===== src/Sbi/Domain/Order.antt =====
-- The sort of `sanitize_domain` in sbi_domain.c, and the removal that follows it.
use inside_system.Prelude.{
  ℕ, zero, suc, ◌+◌, ◌-◌, ◌^◌, ◌%◌, Bool, false, List, [], ◌∷◌, ltb, ◌||◌, if◌then◌else◌, length,
}
use inside_system.Sbi.Domain.{Region, is_region_before, is_region_compatible}

-- The inner loop: `reg` against each later region, which takes its place where it comes before it.
-- The result is the region left at the place of `reg`, and those behind it.
unfoldable pub sweep : Region → List Region → Region × List Region
sweep reg [] = (reg, [])
sweep reg (reg1 ∷ rest) =
    let swap = is_region_before reg1 reg in
    let (first, behind) = sweep (if swap then reg1 else reg) rest in
    (first, (if swap then reg else reg1) ∷ behind)

-- The outer loop, with `rounds` regions left.
unfoldable pub sort_from : ℕ → List Region → List Region
sort_from zero rs = rs
sort_from (suc rounds) [] = []
sort_from (suc rounds) (reg ∷ rest) =
    let (first, behind) = sweep reg rest in first ∷ sort_from rounds behind

abbrev pub sort_regions : List Region → List Region
sort_regions rs = sort_from (length rs) rs

-- `count - 1`, in 32 bits: the index at which both loops end.
abbrev pub last_index : List Region → ℕ
last_index rs = (length rs + (2 ^ 32 - 1)) % 2 ^ 32

-- Whether one of the regions is compatible with `reg`.
unfoldable pub is_any_compatible : Region → List Region → Bool
is_any_compatible reg [] = false
is_any_compatible reg (reg1 ∷ rest) = is_region_compatible reg reg1 || is_any_compatible reg rest

-- `is_covered` for the region at the index `i`.
unfoldable pub is_covered_at : ℕ → List Region → Bool
is_covered_at i [] = false
is_covered_at zero (reg ∷ rest) = is_any_compatible reg rest
is_covered_at (suc i) (reg ∷ rest) = is_covered_at i rest

-- The swaps that bring the region at the index `i` to the end, which is then cut off.
unfoldable pub remove_at : ℕ → List Region → List Region
remove_at i [] = []
remove_at zero (reg ∷ rest) = rest
remove_at (suc i) (reg ∷ rest) = reg ∷ remove_at i rest

-- The loop that removes covered regions, for at most `fuel` rounds.
unfoldable pub remove_from : ℕ → ℕ → List Region → List Region
remove_from zero i rs = rs
remove_from (suc fuel) i rs =
    let less = remove_from fuel i (remove_at i rs) in
    let next = remove_from fuel (i + 1) rs in
    if ltb i (last_index rs) then if is_covered_at i rs then less else next else rs

-- Both loops, as they stand: the second one goes on with the `i` of the first.
unfoldable pub order_regions : List Region → List Region
order_regions rs = remove_from (length rs) (last_index rs) (sort_regions rs)
