-- ===== src/Sbi/Domain.antt =====
-- OS_Spring_2026/course_3/opensbi/lib/sbi/sbi_domain.c: the memory regions of a domain. unsigned long
-- has 64 bits.
pub mod Range
pub mod Laminar
pub mod Search
pub mod Sound
pub mod Whole
pub mod Order
pub mod Sorted
pub mod Sanitize
pub mod Sanitized
pub mod Init
pub mod Assign
pub mod Assigned
pub mod Enlist
pub mod Registered
pub mod Unlisted
mod Tests
use Prim.Native.Nat.{bit_and}
use inside_system.Prelude.{
  ℕ, zero, suc, ◌+◌, ◌-◌, ◌*◌, ◌/◌, ◌%◌, ◌^◌, Bool, true, false, List, [], ◌∷◌, Option, none, some,
  ltb, leb, ◌==◌, ◌&&◌, ◌||◌, if◌then◌else◌,
}
use inside_system.Rv32.Words.{bit}
use inside_system.Sbi.Word64.{add64}

-- `struct sbi_domain_memregion`
pub record Region : Type 0 where
  pub order : ℕ
  pub base : ℕ
  pub flags : ℕ

-- `PRV_M`
abbrev pub prv_m : ℕ
prv_m = 3

-- `BIT(order)`, which is 1UL << order. For order = 64 C leaves it open; the shift of RISC-V takes the
-- low six bits.
abbrev pub bit_of : ℕ → ℕ
bit_of order = 2 ^ (order % 64)

-- `rend`
abbrev pub region_end : Region → ℕ
region_end r = if ltb r.order 64 then add64 r.base (2 ^ r.order - 1) else 2 ^ 64 - 1

-- `rstart <= addr && addr <= rend`
abbrev pub covers : Region → ℕ → Bool
covers r addr = leb r.base addr && leb addr (region_end r)

-- `rwx`: the bits that the access asks for.
abbrev pub asked : ℕ → ℕ
asked access =
    (if bit access 0 then 1 else 0)
    + (if bit access 1 then 2 else 0)
    + (if bit access 2 then 4 else 0)

-- `rrwx`: the bits that the region gives to the mode.
abbrev pub given : Region → ℕ → ℕ
given r mode = if mode == prv_m then r.flags % 8 else r.flags / 8 % 8

abbrev pub same : Bool → Bool → Bool
same true b = b
same false b = if b then false else true

-- What the first region that covers the address answers.
unfoldable pub permits : Region → ℕ → ℕ → Bool
permits r mode access =
    same (bit access 3) (bit r.flags 31) && bit_and (given r mode) (asked access) == asked access

-- `sbi_domain_check_addr`, for the regions of a domain.
unfoldable pub check_addr : List Region → ℕ → ℕ → ℕ → Bool
check_addr [] addr mode access = mode == prv_m
check_addr (r ∷ rs) addr mode access =
    let rest = check_addr rs addr mode access in
    if covers r addr then permits r mode access else rest

-- `is_region_valid`
unfoldable pub is_region_valid : Region → Bool
is_region_valid r =
    if ltb r.order 3 || ltb 64 r.order
    then false
    else if r.order == 64 && ltb 0 r.base
    then false
    else if ltb r.order 64 && ltb 0 (r.base % 2 ^ r.order)
    then false
    else true

abbrev pub subset_end : Region → ℕ
subset_end r = add64 r.base (bit_of r.order - 1)

-- `is_region_subset`
unfoldable pub is_region_subset : Region → Region → Bool
is_region_subset a b =
    leb b.base a.base
    && ltb a.base (subset_end b)
    && ltb b.base (subset_end a)
    && leb (subset_end a) (subset_end b)

-- `is_region_compatible`
unfoldable pub is_region_compatible : Region → Region → Bool
is_region_compatible a b = is_region_subset a b && a.flags == b.flags

-- `is_region_before`
unfoldable pub is_region_before : Region → Region → Bool
is_region_before a b = ltb a.order b.order || (a.order == b.order && ltb a.base b.base)

-- `log2roundup`, from `ret` with `k` values left.
unfoldable pub log2roundup_from : ℕ → ℕ → ℕ → ℕ
log2roundup_from zero ret x = ret
log2roundup_from (suc k) ret x =
    let rest = log2roundup_from k (ret + 1) x in if leb x (2 ^ ret) then ret else rest

abbrev pub log2roundup : ℕ → ℕ
log2roundup x = log2roundup_from 64 0 x

-- `base` for an order below 64.
abbrev pub aligned_base : ℕ → ℕ → ℕ
aligned_base addr order = addr / 2 ^ order * 2 ^ order

-- The test of the loop of `sbi_domain_memregion_init`.
abbrev pub fits : ℕ → ℕ → ℕ → Bool
fits addr size order =
    let base = aligned_base addr order in
    let last = add64 addr (size + (2 ^ 64 - 1)) in
    let end = add64 base (2 ^ order) in
    leb base addr && ltb addr end && leb base last && ltb last end

-- That loop, from `order` with `k` values left below 64: the order and the base.
unfoldable pub init_from : ℕ → ℕ → ℕ → ℕ → ℕ × ℕ
init_from zero order addr size = (64, 0)
init_from (suc k) order addr size =
    let rest = init_from k (order + 1) addr size in
    if fits addr size order then (order, aligned_base addr order) else rest

-- `sbi_domain_memregion_init`
unfoldable pub sbi_domain_memregion_init : ℕ → ℕ → ℕ → Region
sbi_domain_memregion_init addr size flags =
    let (order, base) = init_from (64 - log2roundup size) (log2roundup size) addr size in
    record { order = order; base = base; flags = flags }
