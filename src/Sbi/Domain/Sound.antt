-- ===== src/Sbi/Domain/Sound.antt =====
-- The check of a range against the check of its addresses.
use inside_system.Prelude.{
  ℕ, zero, suc, ◌+◌, ◌-◌, ◌^◌, ◌≤◌, ◌<◌, ◌≡◌, ◌≢◌, refl, sym, ap, ◌∙◌, Bool, true, false, List,
  Option, none, some, arith, ltb, leb, lt→ltb, ltb→lt, inl, inr, Bool-cases, Option-cases,
  eq-of-some,
}
use native.Mathlib.Nat.{mod-eq_of_lt}
use inside_system.Sbi.Word64.{add64}
use inside_system.Sbi.Domain.{Region, covers, subset_end, check_addr, is_region_subset}
use inside_system.Sbi.Domain.Range.{
  find_region, find_next_subset_region, past_region, next_stop, range_from, check_addr_range,
}
use inside_system.Sbi.Domain.Laminar.{IsProper, Holds, covers-Holds, Holds-covers, nested, size_pos}
use inside_system.Sbi.Domain.Search.{
  AllProper, AllProper.one_more, AllNear.near_more, First, First.at_head, First.further,
  find_region-First, check_addr-First, First-covers, First-IsProper, First-find_region, Near,
  AllNear, find_region-Marked, find_next-Searched,
}

-- A region covers the address, and the first such region allows the access.
abbrev pub Granted : List Region → ℕ → ℕ → ℕ → Type 0
Granted rs mode access x = (find_region x 0 rs ≢ none) × (check_addr rs x mode access ≡ true)

subset_end-proper : (r : Region) → IsProper r → subset_end r + 1 ≡ r.base + 2 ^ r.order
subset_end-proper r p = rw (mod-eq_of_lt p.not_whole) (omega (arith, size_pos r p, p.ends))

inside-is_region_subset :
    (s r : Region)
    → IsProper s
    → IsProper r
    → r.base ≤ s.base
    → s.base + 2 ^ s.order ≤ r.base + 2 ^ r.order
    → is_region_subset s r ≡ true
unfolding is_region_subset
inside-is_region_subset s r p q low high =
    ground
      (arith, subset_end-proper s p, subset_end-proper r q, size_pos s p, size_pos r q, low, high)

past_region-le :
    (x stop b : ℕ) (r : Region) (out : Option Region)
    → Near out b
    → past_region r out ≡ some stop
    → stop ≤ b
past_region-le x stop b r out (t, e, le) h = ground (arith, e, le, h)

-- A region that starts at `addr` or before and holds a later address holds `addr`.
hit-stop :
    (addr x stop : ℕ) (r s : Region) (out : Option Region)
    → IsProper r
    → IsProper s
    → Holds r addr
    → Holds r x
    → covers s addr ≡ false
    → (is_region_subset s r ≡ true → addr < s.base → Near out s.base)
    → past_region r out ≡ some stop
    → addr ≤ x
    → x < stop
    → ¬ Holds s x
hit-stop addr x stop r s out p q ha hx apart near e le lt hs = elim (Bool-cases (leb s.base addr)) [
  | inl low ↦ let c = Holds-covers s addr q (ground (arith, low), omega (arith, hs.1, le)) in cc
  | inr high ↦ elim (Bool-cases (leb r.order s.order)) [
    | inl wide ↦
        let (a, b) = nested r s x p q (ground (arith, wide)) hx hs in
        let c = Holds-covers s addr q (omega (arith, a, ha.0), omega (arith, b, ha.1)) in cc
    | inr narrow ↦
        let (a, b) = nested s r x q p (ground (arith, narrow)) hs hx in
        let n = near (inside-is_region_subset s r q p a b) (ground (arith, high)) in
        omega (arith, past_region-le x stop s.base r out n e, lt, hs.0)
  ]
]

-- Between `addr` and the next stop, no earlier region comes in.
stays_out :
    (addr x stop : ℕ) (r s : Region) (out : Option Region)
    → IsProper r
    → IsProper s
    → Holds r addr
    → Holds r x
    → covers s addr ≡ false
    → (is_region_subset s r ≡ true → addr < s.base → Near out s.base)
    → past_region r out ≡ some stop
    → addr ≤ x
    → x < stop
    → covers s x ≡ false
stays_out addr x stop r s out p q ha hx apart near e le lt = elim (Bool-cases (covers s x)) [
  | inr miss ↦ miss
  | inl hit ↦
      absurd (hit-stop addr x stop r s out p q ha hx apart near e le lt (covers-Holds s x q hit))
]

-- So the region that was the first one at `addr` is the first one up to the next stop.
First-stays :
    (addr x stop : ℕ) (r : Region) (rs : List Region) (out : Option Region)
    → First addr r rs
    → AllProper rs
    → IsProper r
    → AllNear r addr out rs
    → Holds r addr
    → Holds r x
    → past_region r out ≡ some stop
    → addr ≤ x
    → x < stop
    → First x r rs
First-stays addr x stop r _ out (at_head rs h) a p n ha hx e le lt =
    at_head rs (Holds-covers r x p hx)
First-stays addr x stop r _ out (further s rs h f) (one_more _ _ q a) p (near_more _ _ n ns) ha hx e
      le lt =
    further s rs (stays_out addr x stop r s out p q ha hx h n e le lt)
      (First-stays addr x stop r rs out f a p ns ha hx e le lt)

-- What one round gives: it goes on behind `addr`, and up to there the region stays the first one.
record Round (rs : List Region) (addr stop : ℕ) (r : Region) : Type 0 where
  first : First addr r rs
  on : addr < stop
  stays : (x : ℕ) → addr ≤ x → x < stop → First x r rs

stop-bounds :
    (r : Region) (addr stop : ℕ) (out : Option Region)
    → IsProper r
    → Holds r addr
    → ((t : Region) → out ≡ some t → (addr < t.base) × (t.base < subset_end r))
    → past_region r out ≡ some stop
    → (addr < stop) × (stop ≤ r.base + 2 ^ r.order)
stop-bounds r addr stop none p h b e =
    let over : past_region r none ≡ some (r.base + 2 ^ r.order) =
      rw (lt→ltb r.order 64 p.not_whole) (ap some (mod-eq_of_lt p.ends)) in
    ground (arith, over, h.1)
stop-bounds r addr stop (some t) p h b e =
    let same : t.base ≡ stop = eq-of-some e in
    let (low, high) = b t refl in omega (arith, same, low, high, subset_end-proper r p)

next_stop-Round :
    (rs : List Region) (addr i stop : ℕ) (r : Region)
    → AllProper rs
    → find_region addr 0 rs ≡ some (i, r)
    → next_stop rs addr (i, r) ≡ some stop
    → Round rs addr stop r
next_stop-Round rs addr i stop r a found e =
    let f = find_region-First addr 0 i r rs found in
    let p = First-IsProper addr r rs f a in
    let h = covers-Holds r addr p (First-covers addr r rs f) in
    let s =
      find_next-Searched i r addr 0 rs none (find_region-Marked addr 0 i r rs found).0
        (λ t q. cc) in
    let (low, high) = stop-bounds r addr stop _ p h s.behind e in
    record {
      first = f;
      on = low;
      stays = λ x le lt.
          First-stays addr x stop r rs _ f a p s.near h
            (omega (arith, h.0, le), omega (arith, high, lt)) e le lt;
    }

-- Where the answer is yes, each address of the range is granted; where it is no, one of them is not.
abbrev pub Answers : List Region → ℕ → ℕ → ℕ → ℕ → Bool → Type 0
Answers rs mode access addr max true = (x : ℕ) → addr ≤ x → x < max → Granted rs mode access x
Answers rs mode access addr max false =
    (x : ℕ) × (addr ≤ x) × (x < max) × ¬ Granted rs mode access x

-- The check gives an answer, and the right one.
abbrev pub Decides : List Region → ℕ → ℕ → ℕ → ℕ → Option Bool → Type 0
Decides rs mode access addr max out =
    (b : Bool) × (out ≡ some b) × Answers rs mode access addr max b

First-Granted :
    (rs : List Region) (mode access addr x : ℕ) (r : Region)
    → First addr r rs
    → check_addr rs addr mode access ≡ true
    → First x r rs
    → Granted rs mode access x
First-Granted rs mode access addr x r f ok g = (
  First-find_region x r rs 0 g,
  check_addr-First x mode access r rs g ∙ sym (check_addr-First addr mode access r rs f) ∙ ok,
)

-- The rest of the range, from the next stop on.
Round-Decides :
    (rs : List Region) (mode access addr stop max : ℕ) (r : Region) (out : Option Bool)
    → Round rs addr stop r
    → check_addr rs addr mode access ≡ true
    → Decides rs mode access stop max out
    → Decides rs mode access addr max out
Round-Decides rs mode access addr stop max r out rd ok (true, e, all) = (
  true,
  e,
  λ x le lt. elim (Bool-cases (ltb x stop)) [
    | inl near ↦
        First-Granted rs mode access addr x r rd.first ok (rd.stays x le (ground (arith, near)))
    | inr far ↦ all x (ground (arith, far)) lt
  ],
)
Round-Decides rs mode access addr stop max r out rd ok (false, e, (x, le, lt, bad)) =
    (false, e, (x, omega (arith, rd.on, le), lt, bad))

past_region-some :
    (r : Region) (out : Option Region) → IsProper r → (stop : ℕ) × (past_region r out ≡ some stop)
past_region-some r none p = (add64 r.base (2 ^ r.order), rw (lt→ltb r.order 64 p.not_whole))
past_region-some r (some t) p = (t.base, refl)

-- An address that no region covers ends the check.
uncovered :
    (rs : List Region) (max mode access addr : ℕ) (out : Option Bool)
    → addr < max
    → find_region addr 0 rs ≡ none
    → out ≡ some false
    → Decides rs mode access addr max out
uncovered rs max mode access addr out lt e q = (false, q, (addr, omega arith, lt, λ g. g.0 e))

refused :
    (rs : List Region) (max mode access addr : ℕ) (out : Option Bool)
    → addr < max
    → check_addr rs addr mode access ≡ false
    → out ≡ some false
    → Decides rs mode access addr max out
refused rs max mode access addr out lt e q =
    (false, q, (addr, omega arith, lt, λ g. let ok = g.1 in cc))

range_from-Decides :
    (fuel : ℕ) (rs : List Region) (max mode access addr : ℕ)
    → AllProper rs
    → max - addr < fuel
    → Decides rs mode access addr max (range_from fuel rs max mode access addr)
unfolding range_from
range_from-Decides zero rs max mode access addr a h = absurd (omega (arith, h))
range_from-Decides (suc fuel) rs max mode access addr a h = elim (Bool-cases (ltb addr max)) [
  | inr done ↦ rw done (true, refl, λ x le lt. absurd (ground (arith, done, le, lt)))
  | inl more ↦ rw more (elim (Option-cases (find_region addr 0 rs)) [
    | inl e ↦ uncovered rs max mode access addr _ (ltb→lt addr max more) e (rw e refl)
    | inr ((i, r), e) ↦ elim (Bool-cases (check_addr rs addr mode access)) [
      | inr bad ↦ refused rs max mode access addr _ (ltb→lt addr max more) bad (rw e (rw bad refl))
      | inl ok ↦
          let p = First-IsProper addr r rs (find_region-First addr 0 i r rs e) a in
          let (stop, s) = past_region-some r (find_next_subset_region i r addr 0 rs none) p in
          let rd = next_stop-Round rs addr i stop r a e s in
          let lt = ltb→lt addr max more in
          let rest =
            range_from-Decides fuel rs max mode access stop a (omega (arith, rd.on, lt, h)) in
          rw (e, ok, s) (Round-Decides rs mode access addr stop max r _ rd ok rest)
    ]
  ])
]

-- Let each region have 8 bytes or more, but less than 2 ^ 64, start at a multiple of its size and
-- end before 2 ^ 64, and let the range end at 2 ^ 64 - 1 or before. With more fuel than the range
-- has bytes, the check of the range gives an answer. Where that is true, each address of the range
-- is covered by a region, and the check of that address alone allows the access; where it is false,
-- one address of the range has no region or is refused.
pub check_addr_range-Decides :
    (fuel : ℕ) (rs : List Region) (addr size mode access : ℕ)
    → AllProper rs
    → addr + size < 2 ^ 64
    → size < fuel
    → Decides rs mode access addr (addr + size) (check_addr_range fuel rs addr size mode access)
unfolding check_addr_range
check_addr_range-Decides fuel rs addr size mode access a fits h =
    rw (mod-eq_of_lt fits)
      (range_from-Decides fuel rs (addr + size) mode access addr a (omega (arith, h)))
