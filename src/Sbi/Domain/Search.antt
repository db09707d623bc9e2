-- ===== src/Sbi/Domain/Search.antt =====
-- What `find_region` and `find_next_subset_region` of sbi_domain.c find.
use inside_system.Prelude.{
  ℕ, ◌+◌, ◌≤◌, ◌<◌, ◌≡◌, ◌≢◌, refl, sym, ap, subst, true, false, List, [], ◌∷◌, Option, none, some,
  arith, leb, ◌==◌, ◌||◌, if◌then◌else◌, inl, inr, Bool-cases, eq-of-some,
}
use inside_system.Sbi.Domain.{Region, covers, subset_end, check_addr, permits, is_region_subset}
use inside_system.Sbi.Domain.Range.{find_region, find_next_subset_region, is_nearer}
use inside_system.Sbi.Domain.Laminar.{IsProper}

pub data AllProper : List Region → Type 0 where
  none_left : AllProper []
  one_more : (r : Region) (rs : List Region) → IsProper r → AllProper rs → AllProper (r ∷ rs)

-- `r` is the first region that covers the address.
pub data First (addr : ℕ) (r : Region) : List Region → Type 0 where
  at_head : (rs : List Region) → covers r addr ≡ true → First addr r (r ∷ rs)
  further :
      (s : Region) (rs : List Region)
      → covers s addr ≡ false
      → First addr r rs
      → First addr r (s ∷ rs)

pub find_region-First :
    (addr i j : ℕ) (r : Region) (rs : List Region)
    → find_region addr i rs ≡ some (j, r)
    → First addr r rs
unfolding find_region
find_region-First addr i j r [] e = cc
find_region-First addr i j r (s ∷ rs) e = elim (Bool-cases (covers s addr)) [
  | inl here ↦
      let found : some (i, s) ≡ some (j, r) = rw here at e in
      let same : s ≡ r = ap (λ p. p.1) (eq-of-some found) in
      subst (λ z. First addr r (z ∷ rs)) (sym same)
        (at_head rs (subst (λ z. covers z addr ≡ true) same here))
  | inr there ↦ further s rs there (find_region-First addr (i + 1) j r rs (rw there at e))
]

-- What `check_addr` answers is what the first region permits.
pub check_addr-First :
    (addr mode access : ℕ) (r : Region) (rs : List Region)
    → First addr r rs
    → check_addr rs addr mode access ≡ permits r mode access
unfolding check_addr
check_addr-First addr mode access r _ (at_head rs h) = rw h refl
check_addr-First addr mode access r _ (further s rs h f) =
    rw h (check_addr-First addr mode access r rs f)

pub First-covers :
    (addr : ℕ) (r : Region) (rs : List Region) → First addr r rs → covers r addr ≡ true
First-covers addr r _ (at_head rs h) = h
First-covers addr r _ (further s rs h f) = First-covers addr r rs f

pub First-IsProper :
    (addr : ℕ) (r : Region) (rs : List Region) → First addr r rs → AllProper rs → IsProper r
First-IsProper addr r _ (at_head rs h) (one_more _ _ p a) = p
First-IsProper addr r _ (further s rs h f) (one_more _ _ p a) = First-IsProper addr r rs f a

-- What the search for the next region gives: one that starts behind `addr`, inside `reg`.
abbrev pub Behind : Region → ℕ → Option Region → Type 0
Behind reg addr out = (t : Region) → out ≡ some t → (addr < t.base) × (t.base < subset_end reg)

-- It starts at `b` or before.
abbrev pub Near : Option Region → ℕ → Type 0
Near out b = (t : Region) × (out ≡ some t) × (t.base ≤ b)

-- The region at the place `i`, if it is in the list from the place `k` on, does not start behind `addr`.
pub data Marked (i addr : ℕ) : ℕ → List Region → Type 0 where
  marked_end : (k : ℕ) → Marked i addr k []
  marked_more :
      (k : ℕ) (s : Region) (ss : List Region)
      → (k ≡ i → s.base ≤ addr)
      → Marked i addr (k + 1) ss
      → Marked i addr k (s ∷ ss)

-- Every region of the list inside `reg` and behind `addr` starts at what was found or later.
pub data AllNear (reg : Region) (addr : ℕ) (out : Option Region) : List Region → Type 0 where
  near_end : AllNear reg addr out []
  near_more :
      (s : Region) (ss : List Region)
      → (is_region_subset s reg ≡ true → addr < s.base → Near out s.base)
      → AllNear reg addr out ss
      → AllNear reg addr out (s ∷ ss)

Marked-past : (i addr k : ℕ) (ss : List Region) → i < k → Marked i addr k ss
Marked-past i addr k [] h = marked_end k
Marked-past i addr k (s ∷ ss) h =
    marked_more k s ss (λ e. omega (arith, e, h)) (Marked-past i addr (k + 1) ss (omega arith))

pub find_region-Marked :
    (addr k i : ℕ) (r : Region) (rs : List Region)
    → find_region addr k rs ≡ some (i, r)
    → Marked i addr k rs × (k ≤ i)
unfolding find_region
find_region-Marked addr k i r [] e = cc
find_region-Marked addr k i r (s ∷ rs) e = elim (Bool-cases (covers s addr)) [
  | inl here ↦
      let found : some (k, s) ≡ some (i, r) = rw here at e in
      let place : (k, s) ≡ (i, r) = eq-of-some found in
      let same : k ≡ i = ap (λ p. p.0) place in
      (
        marked_more k s rs (λ _. ground (arith, here))
            (Marked-past i addr (k + 1) rs (omega (arith, same))),
        omega (arith, same),
      )
  | inr there ↦
      let (m, le) = find_region-Marked addr (k + 1) i r rs (rw there at e) in
      (marked_more k s rs (λ q. omega (arith, le, q)) m, omega (arith, le))
]

-- What the search keeps, from the best region so far on.
pub record Searched (i : ℕ) (reg : Region) (addr : ℕ) (ss : List Region) (ret out : Option Region)
    : Type 0 where
  pub behind : Behind reg addr out
  pub kept : (t : Region) → ret ≡ some t → Near out t.base
  pub near : AllNear reg addr out ss

-- A region that the search skips asks for nothing: it is not inside, not behind, or `reg` itself.
skipped-Near :
    (i k : ℕ) (reg s : Region) (addr : ℕ) (out : Option Region)
    → (k ≡ i → s.base ≤ addr)
    → (k == i || leb s.base addr || (if is_region_subset s reg then false else true)) ≡ true
    → is_region_subset s reg ≡ true
    → addr < s.base
    → Near out s.base
skipped-Near i k reg s addr out here skip sub behind =
    absurd (ground (arith, here, skip, sub, behind))

taken-Behind :
    (i k : ℕ) (reg s : Region) (addr : ℕ)
    → (k == i || leb s.base addr || (if is_region_subset s reg then false else true)) ≡ false
    → Behind reg addr (some s)
unfolding is_region_subset
taken-Behind i k reg s addr take t e =
    let same : s ≡ t = eq-of-some e in
    subst (λ z. (addr < z.base) × (z.base < subset_end reg)) same (ground (arith, take))

nearer-le :
    (s t : Region) (ret : Option Region) → is_nearer s ret ≡ true → ret ≡ some t → s.base ≤ t.base
nearer-le s t none h e = cc
nearer-le s t (some r) h e =
    let same : r ≡ t = eq-of-some e in subst (λ z. s.base ≤ z.base) same (ground (arith, h))

far-Near : (s : Region) (ret : Option Region) → is_nearer s ret ≡ false → Near ret s.base
far-Near s none h = cc
far-Near s (some r) h = (r, refl, ground (arith, h))

Near-le : (out : Option Region) (b c : ℕ) → Near out b → b ≤ c → Near out c
Near-le out b c (t, e, le) h = (t, e, omega (arith, le, h))

pub find_next-Searched :
    (i : ℕ) (reg : Region) (addr k : ℕ) (ss : List Region) (ret : Option Region)
    → Marked i addr k ss
    → Behind reg addr ret
    → Searched i reg addr ss ret (find_next_subset_region i reg addr k ss ret)
unfolding find_next_subset_region
find_next-Searched i reg addr k [] ret m b = record {
  behind = b;
  kept = λ t e. (t, e, omega arith);
  near = near_end;
}
find_next-Searched i reg addr k (s ∷ ss) ret (marked_more _ _ _ here m) b =
    elim (Bool-cases
      (k == i || leb s.base addr || (if is_region_subset s reg then false else true))) [
        | inl skip ↦
            let rest = find_next-Searched i reg addr (k + 1) ss ret m b in
            rw skip (record {
              behind = rest.behind;
              kept = rest.kept;
              near = near_more s ss (skipped-Near i k reg s addr _ here skip) rest.near;
            })
        | inr take ↦ rw take (elim (Bool-cases (is_nearer s ret)) [
          | inl nearer ↦
              let rest =
                find_next-Searched i reg addr (k + 1) ss (some s) m
                  (taken-Behind i k reg s addr take) in
              rw nearer (record {
                behind = rest.behind;
                kept =
                    λ t e. Near-le _ s.base t.base (rest.kept s refl) (nearer-le s t ret nearer e);
                near = near_more s ss (λ _ _. rest.kept s refl) rest.near;
              })
          | inr far ↦
              let rest = find_next-Searched i reg addr (k + 1) ss ret m b in
              let (t, e, le) = far-Near s ret far in
              rw far (record {
                behind = rest.behind;
                kept = rest.kept;
                near = near_more s ss (λ _ _. Near-le _ t.base s.base (rest.kept t e) le) rest.near;
              })
        ])
      ]

pub First-find_region :
    (addr : ℕ) (r : Region) (rs : List Region) (i : ℕ)
    → First addr r rs
    → find_region addr i rs ≢ none
unfolding find_region
First-find_region addr r _ i (at_head rs h) e = let e' = rw h at e in cc
First-find_region addr r _ i (further s rs h f) e =
    First-find_region addr r rs (i + 1) f (rw h at e)
