-- ===== src/Sbi/Domain/Init.antt =====
-- The region that `sbi_domain_memregion_init` makes of a range.
use native.Mathlib.Nat.{
  pow-le-pow_right, two-pow-succ, div-mul-le_self, mul-mod_left, div-eq_of_lt-le, mod-eq_of_lt,
}
use inside_system.Prelude.{
  ℕ, zero, suc, ◌+◌, ◌-◌, ◌*◌, ◌/◌, ◌^◌, ◌≤◌, ◌<◌, ◌≡◌, ◌≢◌, ◌⊎◌, refl, ap, true, arith, ltb, leb,
  ◌==◌, inl, inr, Bool-cases, ==-eq,
}
use inside_system.Sbi.Word64.{add64}
use inside_system.Sbi.Domain.{
  Region, covers, is_region_valid, log2roundup_from, log2roundup, aligned_base, fits, init_from,
  sbi_domain_memregion_init,
}

pow_pos : (o : ℕ) → 1 ≤ 2 ^ o
pow_pos o = pow-le-pow_right {n = 2} (omega arith) {i = 0} {j = o} (omega arith)

pow-lt : (o : ℕ) → o < 64 → 2 ^ o * 2 ≤ 2 ^ 64
pow-lt o h =
    let le = pow-le-pow_right {n = 2} (omega arith) {i = suc o} {j = 64} (omega (arith, h)) in
    omega (arith, le, two-pow-succ o)

-- The range ends in 2 ^ 64 or before, and is not empty.
abbrev IsRange : ℕ → ℕ → Type 0
IsRange addr size = (0 < size) × (addr + size ≤ 2 ^ 64)

-- The region of this order that holds `addr` holds the range, and ends before 2 ^ 64.
abbrev Fits : ℕ → ℕ → ℕ → Type 0
Fits addr size o =
    (addr + size ≤ aligned_base addr o + 2 ^ o) × (aligned_base addr o + 2 ^ o < 2 ^ 64)

last_byte : (addr size : ℕ) → IsRange addr size → add64 addr (size + (2 ^ 64 - 1)) + 1 ≡ addr + size
last_byte addr size h = omega (arith, h.0, h.1)

fits-Fits :
    (addr size o : ℕ) → o < 64 → IsRange addr size → fits addr size o ≡ true → Fits addr size o
fits-Fits addr size o lt r h =
    ground (arith, h, last_byte addr size r, r.0, r.1, pow-lt o lt, pow_pos o)

Fits-fits : (addr size o : ℕ) → IsRange addr size → Fits addr size o → fits addr size o ≡ true
Fits-fits addr size o r f = ground (
  arith,
  f.0,
  f.1,
  r.0,
  r.1,
  last_byte addr size r,
  mod-eq_of_lt f.1,
  div-mul-le_self addr (2 ^ o),
)

past : (o p : ℕ) → o ≤ p → o ≢ p → o + 1 ≤ p
past o p le ne = elim (Bool-cases (o == p)) [
  | inl same ↦ absurd (ne (==-eq same))
  | inr apart ↦ ground (arith, le, apart)
]

-- The order found is 64, or a first one from `o` on that fits.
init_from-found :
    (k o addr size : ℕ)
    → k + o ≡ 64
    → (init_from k o addr size ≡ (64, 0))
      ⊎ ((p : ℕ) × (p < 64)
          × (o ≤ p)
          × (fits addr size p ≡ true)
          × (init_from k o addr size ≡ (p, aligned_base addr p)))
unfolding init_from
init_from-found zero o addr size e = inl refl
init_from-found (suc k) o addr size e = elim (Bool-cases (fits addr size o)) [
  | inl hit ↦ inr (o, omega (arith, e), omega arith, hit, rw hit refl)
  | inr miss ↦ rw miss (elim (init_from-found k (o + 1) addr size (omega (arith, e))) [
    | inl none_fits ↦ inl none_fits
    | inr (p, lt, le, hit, q) ↦ inr (p, lt, omega (arith, le), hit, q)
  ])
]

init_from-least :
    (k o addr size p : ℕ)
    → k + o ≡ 64
    → o ≤ p
    → p < 64
    → fits addr size p ≡ true
    → (init_from k o addr size).0 ≤ p
unfolding init_from
init_from-least zero o addr size p e le lt h = absurd (omega (arith, e, le, lt))
init_from-least (suc k) o addr size p e le lt h = elim (Bool-cases (fits addr size o)) [
  | inl hit ↦ rw hit le
  | inr miss ↦
      let other : o + 1 ≤ p = past o p le λ same. let eq = ap (λ z. fits addr size z) same in cc in
      rw miss (init_from-least k (o + 1) addr size p (omega (arith, e)) other lt h)
]

log2roundup_from-le : (k o x : ℕ) → log2roundup_from k o x ≤ k + o
unfolding log2roundup_from
log2roundup_from-le zero o x = omega arith
log2roundup_from-le (suc k) o x = ground (arith, log2roundup_from-le k (o + 1) x)

-- It is the least order from `o` on whose power reaches x.
log2roundup_from-least : (k o x p : ℕ) → o ≤ p → x ≤ 2 ^ p → log2roundup_from k o x ≤ p
unfolding log2roundup_from
log2roundup_from-least zero o x p le h = le
log2roundup_from-least (suc k) o x p le h = elim (Bool-cases (leb x (2 ^ o))) [
  | inl hit ↦ rw hit le
  | inr miss ↦
      let other : o + 1 ≤ p = past o p le λ same. ground (arith, miss, h, ap (λ z. 2 ^ z) same) in
      rw miss (log2roundup_from-least k (o + 1) x p other h)
]

log2roundup_from-pow : (k o x : ℕ) → x ≤ 2 ^ (k + o) → x ≤ 2 ^ log2roundup_from k o x
unfolding log2roundup_from
log2roundup_from-pow zero o x h =
    let z : 0 + o ≡ o = omega arith in omega (arith, h, ap (λ e. 2 ^ e) z)
log2roundup_from-pow (suc k) o x h = elim (Bool-cases (leb x (2 ^ o))) [
  | inl hit ↦ rw hit (ground (arith, hit))
  | inr miss ↦
      let z : suc k + o ≡ k + (o + 1) = omega arith in
      rw miss (log2roundup_from-pow k (o + 1) x (omega (arith, h, ap (λ e. 2 ^ e) z)))
]

-- A block of 2 ^ o bytes, at a multiple of its size, that ends before 2 ^ 64 and holds the range.
pub record Encloses (addr size o : ℕ) : Type 0 where
  pub place : ℕ
  pub small : o < 64
  pub starts : place * 2 ^ o ≤ addr
  pub holds : addr + size ≤ place * 2 ^ o + 2 ^ o
  pub ends : place * 2 ^ o + 2 ^ o < 2 ^ 64

Encloses-fits :
    (addr size o : ℕ) → IsRange addr size → Encloses addr size o → fits addr size o ≡ true
Encloses-fits addr size o r e =
    let step : (e.place + 1) * 2 ^ o ≡ e.place * 2 ^ o + 2 ^ o = grind arith in
    let at_place : addr / 2 ^ o ≡ e.place =
      div-eq_of_lt-le {k = e.place} (2 ^ o) {m = addr} e.starts
        (omega (arith, step, e.holds, r.0)) in
    let base : aligned_base addr o ≡ e.place * 2 ^ o = ap (λ z. z * 2 ^ o) at_place in
    Fits-fits addr size o r (omega (arith, base, e.holds), omega (arith, base, e.ends))

Encloses-log2roundup : (addr size o : ℕ) → Encloses addr size o → log2roundup size ≤ o
Encloses-log2roundup addr size o e =
    log2roundup_from-least 64 0 size o (omega arith) (omega (arith, e.starts, e.holds))

-- What the region promises for the range.
pub record Promises (addr size flags : ℕ) (r : Region) : Type 0 where
  pub keeps : r.flags ≡ flags
  pub all_covered : (x : ℕ) → addr ≤ x → x < addr + size → covers r x ≡ true
  pub valid : 4 < size → is_region_valid r ≡ true
  pub least : (o : ℕ) → Encloses addr size o → r.order ≤ o

abbrev found : ℕ → ℕ → ℕ × ℕ
found addr size = init_from (64 - log2roundup size) (log2roundup size) addr size

log2roundup-le : (size : ℕ) → 64 - log2roundup size + log2roundup size ≡ 64
log2roundup-le size = omega (arith, log2roundup_from-le 64 0 size)

found-least : (addr size o : ℕ) → IsRange addr size → Encloses addr size o → (found addr size).0 ≤ o
found-least addr size o r e =
    init_from-least (64 - log2roundup size) (log2roundup size) addr size o (log2roundup-le size)
      (Encloses-log2roundup addr size o e) e.small (Encloses-fits addr size o r e)

log2roundup-valid : (size : ℕ) → size ≤ 2 ^ 64 → 4 < size → 3 ≤ log2roundup size
log2roundup-valid size h big = elim (Bool-cases (ltb (log2roundup size) 3)) [
  | inr enough ↦ ground (arith, enough)
  | inl few ↦
      let pow = log2roundup_from-pow 64 0 size (omega (arith, h)) in
      let le =
        pow-le-pow_right {n = 2} (omega arith) {i = log2roundup size} {j = 2}
          (ground (arith, few)) in
      absurd (omega (arith, pow, le, big))
]

whole-Promises :
    (addr size flags : ℕ)
    → IsRange addr size
    → ((o : ℕ) → Encloses addr size o → 64 ≤ o)
    → Promises addr size flags (record { order = 64; base = 0; flags = flags })
unfolding is_region_valid
whole-Promises addr size flags r least = record {
  keeps = refl;
  all_covered = λ x le lt. ground (arith, lt, r.1);
  valid = λ _. refl;
  least = least;
}

fit-Promises :
    (addr size flags p : ℕ)
    → IsRange addr size
    → p < 64
    → log2roundup size ≤ p
    → fits addr size p ≡ true
    → ((o : ℕ) → Encloses addr size o → p ≤ o)
    → Promises addr size flags (record { order = p; base = aligned_base addr p; flags = flags })
unfolding is_region_valid
fit-Promises addr size flags p r lt le hit least =
    let (high, ends) = fits-Fits addr size p lt r hit in
    let low = div-mul-le_self addr (2 ^ p) in
    let whole : add64 (aligned_base addr p) (2 ^ p - 1) ≡ aligned_base addr p + 2 ^ p - 1 =
      omega (arith, ends, pow_pos p) in
    record {
      keeps = refl;
      all_covered = λ x a b. ground (arith, lt, whole, low, high, a, b, pow_pos p);
      valid = λ big.
          let three = log2roundup-valid size (omega (arith, r.1)) big in
          ground (arith, three, le, lt, mul-mod_left (addr / 2 ^ p) (2 ^ p));
      least = least;
    }

-- For a range that is not empty and ends in 2 ^ 64 or before, the region made has the flags given and
-- covers each address of the range. It is valid if the range has more than 4 bytes. No smaller block
-- that starts at a multiple of its size and ends before 2 ^ 64 holds the range.
pub memregion_init-Promises :
    (addr size flags : ℕ)
    → 0 < size
    → addr + size ≤ 2 ^ 64
    → Promises addr size flags (sbi_domain_memregion_init addr size flags)
unfolding sbi_domain_memregion_init
memregion_init-Promises addr size flags some_size fit =
    let r : IsRange addr size = (some_size, fit) in
    let least = λ (o : ℕ) (e : Encloses addr size o). found-least addr size o r e in
    elim (init_from-found (64 - log2roundup size) (log2roundup size) addr size
      (log2roundup-le size)) [
        | inl q ↦
            rw q
              (whole-Promises addr size flags r (λ o e. omega (arith, ap (λ z. z.0) q, least o e)))
        | inr (p, lt, le, hit, q) ↦ rw q (
            fit-Promises addr size flags p r lt le hit
              (λ o e. omega (arith, ap (λ z. z.0) q, least o e)))
      ]
