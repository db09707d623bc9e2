-- ===== src/Sbi/Domain/Whole.antt =====
-- A range that starts in the region of the whole address space.
use native.Mathlib.Nat.{mod-eq_of_lt}
use inside_system.Prelude.{
  ℕ, suc, ◌+◌, ◌^◌, ◌<◌, ◌≡◌, refl, true, false, List, [], ◌∷◌, none, some, arith, ltb, leb, ◌==◌,
  ◌||◌, if◌then◌else◌, inl, inr, Bool-cases,
}
use inside_system.Sbi.Domain.{Region, check_addr, subset_end, is_region_subset}
use inside_system.Sbi.Domain.Range.{
  find_region, find_next_subset_region, range_from, check_addr_range,
}

-- `BIT(64) - 1` is 0, so that no region is a subset.
not_subset : (s r : Region) → r.order ≡ 64 → r.base ≡ 0 → is_region_subset s r ≡ false
unfolding is_region_subset
not_subset s r ho hb = let end : subset_end r ≡ 0 = rw (ho, hb) refl in ground (arith, end)

find_next-whole :
    (i k : ℕ) (r : Region) (addr : ℕ) (ss : List Region)
    → r.order ≡ 64
    → r.base ≡ 0
    → find_next_subset_region i r addr k ss none ≡ none
unfolding find_next_subset_region
find_next-whole i k r addr [] ho hb = refl
find_next-whole i k r addr (s ∷ ss) ho hb =
    let n = not_subset s r ho hb in
    let skip : (k == i || leb s.base addr || (if is_region_subset s r then false else true))
        ≡ true =
      ground (arith, n) in
    rw skip (find_next-whole i (k + 1) r addr ss ho hb)

-- For a range that is not empty and ends at 2 ^ 64 - 1 or before, where the first region that
-- covers its start has order 64 and base 0: the answer for the range is the answer for its first
-- address, whatever the later ones are.
pub check_addr_range-whole :
    (fuel i : ℕ) (rs : List Region) (addr size mode access : ℕ) (w : Region)
    → find_region addr 0 rs ≡ some (i, w)
    → w.order ≡ 64
    → w.base ≡ 0
    → 0 < size
    → addr + size < 2 ^ 64
    → check_addr_range (suc fuel) rs addr size mode access ≡ some (check_addr rs addr mode access)
unfolding check_addr_range range_from
check_addr_range-whole fuel i rs addr size mode access w e ho hb some_size fits =
    let n = find_next-whole i 0 w addr rs ho hb in
    let last : ltb w.order 64 ≡ false = ground (arith, ho) in
    let going : ltb addr (addr + size) ≡ true = ground (arith, some_size) in
    rw (mod-eq_of_lt fits, going, e)
      (elim (Bool-cases (check_addr rs addr mode access)) [
        | inl yes_all ↦ rw (yes_all, n, last) refl
        | inr no_one ↦ rw no_one refl
      ])
