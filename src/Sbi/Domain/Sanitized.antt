-- ===== src/Sbi/Domain/Sanitized.antt =====
-- What `sanitize_domain` accepts, and what it leaves.
use mathlib.Core.List.{Mem, Perm, Pairwise, forall_mem-cons}
use mathlib.Core.List.Perm
use mathlib.Core.HLevel.{Π_prop}
use native.Mathlib.Bridge.{le_prop}
use inside_system.Prelude.{
  ℕ, ◌≤◌, ◌≡◌, ◌⊎◌, ◌↔◌, refl, ap, ◌∙◌, true, List, Option, none, some, arith, inl, inr, Bool-cases,
}
use inside_system.Sbi.Status.{ok}
use inside_system.Sbi.Domain.{Region, covers, permits, check_addr, is_region_before}
use inside_system.Sbi.Domain.Range.{find_region}
use inside_system.Sbi.Domain.Search.{
  First, First.at_head, First.further, find_region-First, check_addr-First,
}
use inside_system.Sbi.Domain.Order.{order_regions}
use inside_system.Sbi.Domain.Sanitize.{
  Domain, prv_s, prv_u, execute, are_harts_valid, are_regions_valid, check_next, check_regions,
  check_harts, sanitize_domain,
}
use inside_system.Sbi.Domain.Sorted.{Leads, IsOrdered, order_regions-Perm, order_regions-IsOrdered}

-- A domain that passes.
pub record IsSane (last : ℕ) (dom : Domain) : Type 0 where
  pub harts : List ℕ
  pub rs : List Region
  pub harts_set : dom.possible_harts ≡ some harts
  pub regions_set : dom.regions ≡ some rs
  pub harts_valid : are_harts_valid last harts ≡ true
  pub regions_valid : are_regions_valid rs ≡ true
  pub firmware : dom.fw_region_inited ≡ true
  pub mode : (dom.next_mode ≡ prv_s) ⊎ (dom.next_mode ≡ prv_u)
  pub executable : check_addr (order_regions rs) dom.next_addr dom.next_mode execute ≡ true

-- The last two tests, for the regions that are left.
abbrev NextAllowed : Domain → List Region → Type 0
NextAllowed dom rs =
    ((dom.next_mode ≡ prv_s) ⊎ (dom.next_mode ≡ prv_u))
    × (check_addr (order_regions rs) dom.next_addr dom.next_mode execute ≡ true)

check_next-ok : (dom : Domain) (rs : List Region) → (check_next dom rs).1 ≡ ok → NextAllowed dom rs
unfolding check_next
check_next-ok dom rs h = (ground (arith, h), ground (arith, h))

NextAllowed-check_next :
    (dom : Domain) (rs : List Region)
    → NextAllowed dom rs
    → check_next dom rs ≡ (record dom { regions = some (order_regions rs) }, ok)
unfolding check_next
NextAllowed-check_next dom rs (m, e) = ground (arith, m, e)

check_regions-ok :
    (dom : Domain) (o : Option (List Region))
    → (check_regions dom o).1 ≡ ok
    → (rs : List Region) × (o ≡ some rs)
      × (are_regions_valid rs ≡ true)
      × (dom.fw_region_inited ≡ true)
      × NextAllowed dom rs
unfolding check_regions
check_regions-ok dom none h = absurd (cc)
check_regions-ok dom (some rs) h = elim (Bool-cases (are_regions_valid rs)) [
  | inr bad ↦ let h' = rw bad at h in absurd (cc)
  | inl good ↦ elim (Bool-cases dom.fw_region_inited) [
    | inr bad ↦ let h' = rw (good, bad) at h in absurd (cc)
    | inl fw ↦ (rs, refl, good, fw, check_next-ok dom rs (ground (arith, good, fw, h)))
  ]
]

check_harts-ok :
    (last : ℕ) (dom : Domain) (o : Option (List ℕ))
    → (check_harts last dom o).1 ≡ ok
    → (harts : List ℕ) × (o ≡ some harts)
      × (are_harts_valid last harts ≡ true)
      × ((check_regions dom dom.regions).1 ≡ ok)
unfolding check_harts
check_harts-ok last dom none h = absurd (cc)
check_harts-ok last dom (some harts) h = elim (Bool-cases (are_harts_valid last harts)) [
  | inr bad ↦ let h' = rw bad at h in absurd (cc)
  | inl good ↦ (harts, refl, good, rw good at h)
]

pub IsSane-of_ok : (last : ℕ) (dom : Domain) → (sanitize_domain last dom).1 ≡ ok → IsSane last dom
unfolding sanitize_domain
IsSane-of_ok last dom h =
    let (hs, he, hv, h1) = check_harts-ok last dom dom.possible_harts h in
    let (rs, re, rv, fw, n) = check_regions-ok dom dom.regions h1 in
    record {
      harts = hs;
      rs = rs;
      harts_set = he;
      regions_set = re;
      harts_valid = hv;
      regions_valid = rv;
      firmware = fw;
      mode = n.0;
      executable = n.1;
    }

some-check_regions :
    (dom : Domain) (o : Option (List Region)) (rs : List Region)
    → o ≡ some rs
    → are_regions_valid rs ≡ true
    → dom.fw_region_inited ≡ true
    → check_regions dom o ≡ check_next dom rs
unfolding check_regions
some-check_regions dom o rs e v fw = ground (arith, e, v, fw)

some-check_harts :
    (last : ℕ) (dom : Domain) (o : Option (List ℕ)) (hs : List ℕ)
    → o ≡ some hs
    → are_harts_valid last hs ≡ true
    → check_harts last dom o ≡ check_regions dom dom.regions
unfolding check_harts
some-check_harts last dom o hs e v = rw (e, v) refl

pub IsSane-ok :
    (last : ℕ) (dom : Domain) (s : IsSane last dom)
    → sanitize_domain last dom ≡ (record dom { regions = some (order_regions s.rs) }, ok)
unfolding sanitize_domain
IsSane-ok last dom s =
    some-check_harts last dom dom.possible_harts s.harts s.harts_set s.harts_valid
    ∙ (some-check_regions dom dom.regions s.rs s.regions_set s.regions_valid s.firmware
        ∙ NextAllowed-check_next dom s.rs (s.mode, s.executable))

Leads-order : (a b : Region) → Leads a b → a.order ≤ b.order
unfolding is_region_before
Leads-order a b h = ground (arith, h)

First-least :
    (addr : ℕ) (f : Region) (rs : List Region)
    → First addr f rs
    → IsOrdered rs
    → (x : Region) → Mem x rs
    → covers x addr ≡ true
    → f.order ≤ x.order
First-least addr f _ (at_head rs h) (Pairwise.cons below s) =
    (forall_mem-cons (λ x. Π_prop (λ c. le_prop))).1
      ((λ _. omega arith), λ x m c. Leads-order f x (below x m))
First-least addr f _ (further s rs h r) (Pairwise.cons below o) =
    (forall_mem-cons (λ x. Π_prop (λ c. le_prop))).1 ((λ c. absurd (cc)), First-least addr f rs r o)

-- A domain passes exactly when its possible harts and its regions are set and valid, its firmware
-- regions are in, its next mode is S or U, and the mode may execute the next address. The regions that
-- are then left are those of before, in order.
pub sanitize_domain-IsSane :
    (last : ℕ) (dom : Domain)
    → (((sanitize_domain last dom).1 ≡ ok) ↔ IsSane last dom)
      × ((s : IsSane last dom)
          → ((sanitize_domain last dom).0.regions ≡ some (order_regions s.rs))
            × Perm (order_regions s.rs) s.rs
            × IsOrdered (order_regions s.rs))
sanitize_domain-IsSane last dom = (
  (IsSane-of_ok last dom, λ s. ap (λ p. p.1) (IsSane-ok last dom s)),
  λ s. (
    ap (λ p. p.0.regions) (IsSane-ok last dom s),
    order_regions-Perm s.rs,
    order_regions-IsOrdered s.rs,
  ),
)

-- After the sort, the region that answers for an address is a smallest one of those that cover it.
pub find_region-least :
    (rs : List Region) (addr mode access i : ℕ) (f : Region)
    → find_region addr 0 (order_regions rs) ≡ some (i, f)
    → (check_addr (order_regions rs) addr mode access ≡ permits f mode access)
      × ((r : Region) → Mem r rs → covers r addr ≡ true → f.order ≤ r.order)
find_region-least rs addr mode access i f e =
    let h = find_region-First addr 0 i f (order_regions rs) e in
    (
      check_addr-First addr mode access f (order_regions rs) h,
      λ r m c.
          First-least addr f (order_regions rs) h (order_regions-IsOrdered rs) r
            ((Perm.mem_iff (order_regions-Perm rs)).1 m) c,
    )
