-- ===== src/Sbi/Domain/Range.antt =====
-- `sbi_domain_check_addr_range` of sbi_domain.c.
use inside_system.Prelude.{
  ℕ, zero, suc, ◌+◌, ◌^◌, Bool, true, false, List, [], ◌∷◌, Option, none, some, ltb, leb, ◌==◌,
  ◌&&◌, ◌||◌, if◌then◌else◌,
}
use inside_system.Sbi.Word64.{add64}
use inside_system.Sbi.Domain.{Region, covers, check_addr, is_region_subset}

-- `find_region`; a region is given with its place, which its address stands for. `i` is the place of
-- the first one.
unfoldable pub find_region : ℕ → ℕ → List Region → Option (ℕ × Region)
find_region addr i [] = none
find_region addr i (r ∷ rs) =
    let rest = find_region addr (i + 1) rs in if covers r addr then some (i, r) else rest

-- Whether `sreg` takes the place of `ret`.
abbrev pub is_nearer : Region → Option Region → Bool
is_nearer s none = true
is_nearer s (some ret) = ltb s.base ret.base || (s.base == ret.base && ltb s.order ret.order)

-- `find_next_subset_region` for the region `reg` at the place `at_reg`, from the place `k` on.
unfoldable pub find_next_subset_region :
    ℕ → Region → ℕ → ℕ → List Region → Option Region → Option Region
find_next_subset_region at_reg reg addr k [] ret = ret
find_next_subset_region at_reg reg addr k (s ∷ ss) ret =
    let skip = k == at_reg || leb s.base addr || (if is_region_subset s reg then false else true) in
    find_next_subset_region at_reg reg addr (k + 1) ss
      (if skip then ret else if is_nearer s ret then some s else ret)

-- Where the loop goes on; `none` ends it.
abbrev pub past_region : Region → Option Region → Option ℕ
past_region reg (some s) = some s.base
past_region reg none = if ltb reg.order 64 then some (add64 reg.base (2 ^ reg.order)) else none

abbrev pub next_stop : List Region → ℕ → ℕ × Region → Option ℕ
next_stop rs addr (i, reg) = past_region reg (find_next_subset_region i reg addr 0 rs none)

abbrev pub go_on : (ℕ → Option Bool) → Option ℕ → Option Bool
go_on loop none = some true
go_on loop (some addr) = loop addr

-- One round of the loop, once its region is looked for.
abbrev pub range_round :
    (ℕ → Option Bool) → Bool → List Region → ℕ → Option (ℕ × Region) → Option Bool
range_round loop allowed rs addr none = some false
range_round loop allowed rs addr (some found) =
    if allowed then go_on loop (next_stop rs addr found) else some false

-- The loop, for at most `fuel` rounds; `none` is one that needs more.
unfoldable pub range_from : ℕ → List Region → ℕ → ℕ → ℕ → ℕ → Option Bool
range_from zero rs max mode access addr = none
range_from (suc fuel) rs max mode access addr =
    if ltb addr max
    then range_round (range_from fuel rs max mode access) (check_addr rs addr mode access) rs addr
        (find_region addr 0 rs)
    else some true

unfoldable pub check_addr_range : ℕ → List Region → ℕ → ℕ → ℕ → ℕ → Option Bool
check_addr_range fuel rs addr size mode access =
    range_from fuel rs (add64 addr size) mode access addr
