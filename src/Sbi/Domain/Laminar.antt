-- ===== src/Sbi/Domain/Laminar.antt =====
-- Regions that start at a multiple of their size are nested or apart.
use native.Mathlib.Nat.{
  pow-suc, pow-le-pow_right, mul_assoc, mul_right_comm, mul-le-mul_right, lt_of_mul-lt-mul_right,
  one-mul,
}
use inside_system.Prelude.{
  ℕ, zero, suc, ◌+◌, ◌-◌, ◌*◌, ◌^◌, ◌≤◌, ◌<◌, ◌≡◌, sym, ap, ◌∙◌, true, arith, lt→ltb,
}
use inside_system.Sbi.Domain.{Region, covers, region_end}

-- A region of less than 2 ^ 64 bytes, at a multiple of its size, that ends before 2 ^ 64.
pub record IsProper (r : Region) : Type 0 where
  pub place : ℕ
  pub multiple : r.base ≡ place * 2 ^ r.order
  pub not_small : 3 ≤ r.order
  pub not_whole : r.order < 64
  pub ends : r.base + 2 ^ r.order < 2 ^ 64

-- The bytes of such a region.
abbrev pub Holds : Region → ℕ → Type 0
Holds r x = (r.base ≤ x) × (x < r.base + 2 ^ r.order)

pub size_pos : (r : Region) → IsProper r → 8 ≤ 2 ^ r.order
size_pos r p = pow-le-pow_right {n = 2} (omega arith) {i = 3} {j = r.order} p.not_small

proper_end : (r : Region) → IsProper r → region_end r + 1 ≡ r.base + 2 ^ r.order
proper_end r p = rw (lt→ltb r.order 64 p.not_whole) (omega (arith, size_pos r p, p.ends))

pub covers-Holds : (r : Region) (x : ℕ) → IsProper r → covers r x ≡ true → Holds r x
covers-Holds r x p h = ground (arith, h, proper_end r p)

pub Holds-covers : (r : Region) (x : ℕ) → IsProper r → Holds r x → covers r x ≡ true
Holds-covers r x p h = ground (arith, h, proper_end r p)

pow-factor : (d o : ℕ) → (m : ℕ) × (2 ^ (d + o) ≡ m * 2 ^ o)
pow-factor zero o =
    let z : 0 + o ≡ o = omega arith in (1, ap (λ e. 2 ^ e) z ∙ sym (one-mul (2 ^ o)))
pow-factor (suc d) o =
    let (m, e) = pow-factor d o in
    let z : suc d + o ≡ suc (d + o) = omega arith in
    (
      m * 2,
      ap (λ e. 2 ^ e) z ∙ (pow-suc 2 (d + o) ∙ (ap (λ x. x * 2) e ∙ mul_right_comm m (2 ^ o) 2)),
    )

-- The multiples of p in one step of p around x.
mul-le : (a b p x : ℕ) → a * p ≤ x → x < b * p → a + 1 ≤ b
mul-le a b p x h k = omega (arith, lt_of_mul-lt-mul_right p {m = a} {n = b} (omega arith))

pub nested :
    (r s : Region) (x : ℕ)
    → IsProper r
    → IsProper s
    → r.order ≤ s.order
    → Holds r x
    → Holds s x
    → (s.base ≤ r.base) × (r.base + 2 ^ r.order ≤ s.base + 2 ^ s.order)
nested r s x p q le h k =
    let (m, f) = pow-factor (s.order - r.order) r.order in
    let size : 2 ^ s.order ≡ m * 2 ^ r.order = ap (λ e. 2 ^ e) (omega arith) ∙ f in
    let base : s.base ≡ q.place * m * 2 ^ r.order =
      q.multiple ∙ (ap (λ z. q.place * z) size ∙ sym (mul_assoc q.place m (2 ^ r.order))) in
    let low : q.place * m + 1 ≤ p.place + 1 =
      mul-le (q.place * m) (p.place + 1) (2 ^ r.order) x (omega (arith, k.0, base))
        (omega (arith, h.1, p.multiple)) in
    let high : p.place + 1 ≤ q.place * m + m =
      mul-le p.place (q.place * m + m) (2 ^ r.order) x (omega (arith, h.0, p.multiple))
        (omega (arith, k.1, base, size)) in
    (
      omega (
        arith,
        base,
        p.multiple,
        mul-le-mul_right {m = q.place * m} {n = p.place} (2 ^ r.order) (omega (arith, low)),
      ),
      omega (
        arith,
        base,
        size,
        p.multiple,
        mul-le-mul_right {m = p.place + 1} {n = q.place * m + m} (2 ^ r.order) high,
      ),
    )
