-- ===== src/Sbi/Domain/Sanitize.antt =====
-- `sanitize_domain` of sbi_domain.c.
use inside_system.Prelude.{
  ℕ, Bool, true, List, [], ◌∷◌, Option, none, some, leb, ◌==◌, ◌&&◌, ◌||◌, if◌then◌else◌,
}
use inside_system.Sbi.Status.{Status, Status.einval, ok}
use inside_system.Sbi.Domain.{Region, check_addr, is_region_valid}
use inside_system.Sbi.Domain.Order.{order_regions}

-- `struct sbi_domain`, the fields that the check reads; `none` is a null pointer. A hart mask is the
-- list of its hart indices.
pub record Domain : Type 0 where
  pub possible_harts : Option (List ℕ)
  pub regions : Option (List Region)
  pub fw_region_inited : Bool
  pub next_addr : ℕ
  pub next_mode : ℕ

-- `PRV_S`, `PRV_U`, `SBI_DOMAIN_EXECUTE`
abbrev pub prv_s : ℕ
prv_s = 1

abbrev pub prv_u : ℕ
prv_u = 0

abbrev pub execute : ℕ
execute = 4

-- `sbi_hartindex_valid` for each hart of the mask; `last` is `sbi_scratch_last_hartindex()`.
unfoldable pub are_harts_valid : ℕ → List ℕ → Bool
are_harts_valid last [] = true
are_harts_valid last (i ∷ is) = leb i last && are_harts_valid last is

unfoldable pub are_regions_valid : List Region → Bool
are_regions_valid [] = true
are_regions_valid (r ∷ rs) = is_region_valid r && are_regions_valid rs

-- From the sort on: the domain is changed whatever the last two tests say.
unfoldable pub check_next : Domain → List Region → Domain × Status
check_next dom rs =
    let sorted = order_regions rs in
    let dom' = record dom { regions = some sorted } in
    if dom.next_mode == prv_s || dom.next_mode == prv_u
    then if check_addr sorted dom.next_addr dom.next_mode execute
      then (dom', ok)
      else (dom', einval)
    else (dom', einval)

unfoldable pub check_regions : Domain → Option (List Region) → Domain × Status
unfolding check_next
check_regions dom none = (dom, einval)
check_regions dom (some rs) =
    if are_regions_valid rs
    then if dom.fw_region_inited then check_next dom rs else (dom, einval)
    else (dom, einval)

unfoldable pub check_harts : ℕ → Domain → Option (List ℕ) → Domain × Status
unfolding check_regions
check_harts last dom none = (dom, einval)
check_harts last dom (some harts) =
    if are_harts_valid last harts then check_regions dom dom.regions else (dom, einval)

unfoldable pub sanitize_domain : ℕ → Domain → Domain × Status
unfolding check_harts
sanitize_domain last dom = check_harts last dom dom.possible_harts
