-- ===== src/Sbi/Domain/Tests.antt =====
-- Runs of the domain's functions, and their theorems at concrete inputs.
use mathlib.Core.List.{Mem, Perm}
use inside_system.Prelude.{
  ◌+◌, ◌-◌, ◌^◌, ◌≤◌, ◌≡◌, ◌↔◌, refl, true, false, List, [], ◌∷◌, none, some, arith,
}
use inside_system.Sbi.Status.{Status, Status.enomem, ok}
use inside_system.Sbi.Domain.{
  Region, covers, permits, check_addr, is_region_valid, is_region_subset, is_region_compatible,
  is_region_before, log2roundup_from, init_from, sbi_domain_memregion_init,
}
use inside_system.Sbi.Domain.Range.{
  find_region, find_next_subset_region, range_from, check_addr_range,
}
use inside_system.Sbi.Domain.Laminar.{IsProper}
use inside_system.Sbi.Domain.Search.{AllProper, AllProper.none_left, AllProper.one_more}
use inside_system.Sbi.Domain.Sound.{Decides, check_addr_range-Decides}
use inside_system.Sbi.Domain.Whole.{check_addr_range-whole}
use inside_system.Sbi.Domain.Order.{
  sweep, sort_from, is_any_compatible, is_covered_at, remove_at, remove_from, order_regions,
}
use inside_system.Sbi.Domain.Sorted.{IsOrdered}
use inside_system.Sbi.Domain.Sanitize.{
  Domain, are_harts_valid, are_regions_valid, check_next, check_regions, check_harts,
  sanitize_domain,
}
use inside_system.Sbi.Domain.Sanitized.{IsSane, sanitize_domain-IsSane, find_region-least}
use inside_system.Sbi.Domain.Init.{Promises, memregion_init-Promises}
use inside_system.Sbi.Domain.Assign.{Registry, Platform, sbi_domain_register}
use inside_system.Sbi.Domain.Assigned.{IsConsistent}
use inside_system.Sbi.Domain.Registered.{Moves, sbi_domain_register-Moves}
use inside_system.Sbi.Domain.Unlisted.{setup-failed}

-- 256 KB of firmware for M, in 2 MB for S and U.
abbrev firmware : Region
firmware = record { order = 18; base = 2147483648; flags = 7 }

abbrev memory : Region
memory = record { order = 21; base = 2147483648; flags = 56 }

abbrev whole : Region
whole = record { order = 64; base = 0; flags = 56 }

abbrev two_regions : List Region
two_regions = firmware ∷ memory ∷ []

firmware-IsProper : IsProper firmware
firmware-IsProper = record {
  place = 8192;
  multiple = refl;
  not_small = omega arith;
  not_whole = omega arith;
  ends = omega arith;
}

memory-IsProper : IsProper memory
memory-IsProper = record {
  place = 1024;
  multiple = refl;
  not_small = omega arith;
  not_whole = omega arith;
  ends = omega arith;
}

two_regions-AllProper : AllProper two_regions
two_regions-AllProper =
    one_more firmware (memory ∷ []) firmware-IsProper (one_more memory [] memory-IsProper none_left)

-- A read by S behind the firmware, and one that runs into it from memory before.
read_behind : check_addr_range 3 two_regions 2147745792 4096 1 1 ≡ some true
unfolding check_addr_range range_from check_addr find_region find_next_subset_region
    is_region_subset permits
read_behind = refl

read_firmware : check_addr_range 3 two_regions 2147745791 4096 1 1 ≡ some false
unfolding check_addr_range range_from check_addr find_region find_next_subset_region
    is_region_subset permits
read_firmware = refl

check_addr_range-Decides_example :
    Decides two_regions 1 1 2147745792
      (2147745792 + 4096)
      (check_addr_range 4097 two_regions 2147745792 4096 1 1)
check_addr_range-Decides_example =
    check_addr_range-Decides 4097 two_regions 2147745792 4096 1 1 two_regions-AllProper
      (omega arith) (omega arith)

in_whole : find_region 2147479552 0 (firmware ∷ whole ∷ []) ≡ some (1, whole)
unfolding find_region
in_whole = refl

-- The root domain: a read by S from the page before the firmware on is allowed.
check_addr_range-whole_example :
    check_addr_range 2 (firmware ∷ whole ∷ []) 2147479552 8192 1 1
    ≡ some (check_addr (firmware ∷ whole ∷ []) 2147479552 1 1)
check_addr_range-whole_example =
    check_addr_range-whole 1 1 (firmware ∷ whole ∷ []) 2147479552 8192 1 1 whole in_whole refl refl
      (omega arith) (omega arith)

read_page_before : check_addr (firmware ∷ whole ∷ []) 2147479552 1 1 ≡ true
unfolding check_addr permits
read_page_before = refl

not_read_firmware : check_addr (firmware ∷ whole ∷ []) 2147483648 1 1 ≡ false
unfolding check_addr permits
not_read_firmware = refl

memregion_init-Promises_example :
    Promises 2147483648 262144 7 (sbi_domain_memregion_init 2147483648 262144 7)
memregion_init-Promises_example =
    memregion_init-Promises 2147483648 262144 7 (omega arith) (omega arith)

firmware_region : sbi_domain_memregion_init 2147483648 262144 7 ≡ firmware
unfolding sbi_domain_memregion_init init_from log2roundup_from
firmware_region = refl

-- At the top of the address space only the whole space is found.
top_region :
    sbi_domain_memregion_init (2 ^ 64 - 4096) 4096 7 ≡ record { order = 64; base = 0; flags = 7 }
unfolding sbi_domain_memregion_init init_from log2roundup_from
top_region = refl

-- A region inside one of the same flags stays.
covered_stays :
    order_regions (memory ∷ record { order = 12; base = 2147483648; flags = 56 } ∷ [])
    ≡ record { order = 12; base = 2147483648; flags = 56 } ∷ memory ∷ []
unfolding order_regions sort_from sweep is_region_before remove_from is_covered_at is_any_compatible
    is_region_compatible is_region_subset remove_at
covered_stays = refl

first_found : find_region 2147483648 0 (order_regions (memory ∷ firmware ∷ [])) ≡ some (0, firmware)
unfolding find_region order_regions sort_from sweep is_region_before remove_from is_covered_at
    is_any_compatible is_region_compatible is_region_subset remove_at
first_found = refl

find_region-least_example :
    (check_addr (order_regions (memory ∷ firmware ∷ [])) 2147483648 1 1 ≡ permits firmware 1 1)
    × ((r : Region) → Mem r (memory ∷ firmware ∷ []) → covers r 2147483648 ≡ true → 18 ≤ r.order)
find_region-least_example =
    find_region-least (memory ∷ firmware ∷ []) 2147483648 1 1 0 firmware first_found

abbrev domain : Domain
domain = record {
  possible_harts = some (0 ∷ 1 ∷ []);
  regions = some (memory ∷ firmware ∷ []);
  fw_region_inited = true;
  next_addr = 2147745792;
  next_mode = 1;
}

sanitize_domain-IsSane_example :
    (((sanitize_domain 3 domain).1 ≡ ok) ↔ IsSane 3 domain)
    × ((s : IsSane 3 domain)
        → ((sanitize_domain 3 domain).0.regions ≡ some (order_regions s.rs))
          × Perm (order_regions s.rs) s.rs
          × IsOrdered (order_regions s.rs))
sanitize_domain-IsSane_example = sanitize_domain-IsSane 3 domain

sane : (sanitize_domain 3 domain).1 ≡ ok
unfolding sanitize_domain check_harts check_regions check_next are_harts_valid are_regions_valid
    is_region_valid order_regions sort_from sweep is_region_before remove_from is_covered_at
    is_any_compatible is_region_compatible is_region_subset remove_at check_addr permits
sane = refl

-- Four harts, which no domain has yet.
abbrev platform : Status → Platform
platform rc = record {
  last_hartindex = 3;
  has_scratch = λ _. true;
  hartid = λ i. i;
  cold_hartid = 0;
  setup_data = λ _. rc;
}

abbrev no_domains : Registry
no_domains = record {
  domains = [];
  count = 0;
  finalized = false;
  owner = λ _. none;
  domain = λ _. domain;
  index = λ _. 0;
  assigned = λ _ _. false;
  boot_hartid = λ _. 0;
}

no_domains-IsConsistent : IsConsistent no_domains
no_domains-IsConsistent = record { agrees = λ d i h. refl; listed = λ d i h. cc }

sbi_domain_register-Moves_example :
    Moves
      (platform ok)
      7
      (0 ∷ 2 ∷ [])
      no_domains
      (sbi_domain_register (platform ok) 7 (some (0 ∷ 2 ∷ [])) no_domains)
sbi_domain_register-Moves_example =
    sbi_domain_register-Moves (platform ok) 7 (0 ∷ 2 ∷ []) no_domains no_domains-IsConsistent
      (λ i h. refl) refl

setup-failed_example :
    ¬ IsConsistent (sbi_domain_register (platform enomem) 7 (some (0 ∷ 2 ∷ [])) no_domains).0
setup-failed_example =
    setup-failed (platform enomem) 7 (0 ∷ 2 ∷ []) no_domains 0 no_domains-IsConsistent (λ i h. refl)
      (record { open_yet = refl; fresh = refl }) sane (λ e. cc) refl refl
