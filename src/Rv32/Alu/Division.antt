-- ===== src/Rv32/Alu/Division.antt =====
-- Division and remainder of the emulator, against the identity that RISC-V asks of them.
use native.Mathlib.Nat.{div-add-mod, div-add-mod', div-le_self}
use inside_system.Prelude.{
  ℕ, zero, suc, Bool-cases, leb→le, inl, inr, ◌+◌, ◌-◌, ◌*◌, ◌/◌, ◌%◌, ◌^◌, ◌≤◌, ◌<◌, ◌≡◌, ◌≢◌,
  arith, ap, false, ◌==◌, if◌then◌else◌,
}
use inside_system.Rv32.Words.{word, add32, neg32, is_neg}
use inside_system.Rv32.Alu.{div, divu, rem, remu, mul, quot, rest}

-- Quotient times divisor plus remainder, where both are positive.
both_pos : (a b q r : ℕ) → a < 2 ^ 32 → q * b + r ≡ a → (q * b % 2 ^ 32 + r) % 2 ^ 32 ≡ a
both_pos a b q r h e = omega arith

-- A negative divisor is 2 ^ 32 - m, and the quotient -q, which is 2 ^ 32 - q unless q = 0.
neg_divisor :
    (a b m q r : ℕ)
    → a < 2 ^ 32
    → b + m ≡ 2 ^ 32
    → q < 2 ^ 32
    → q * m + r ≡ a
    → (neg32 q * b % 2 ^ 32 + r) % 2 ^ 32 ≡ a
neg_divisor a b m zero r h eb hq e = omega arith
neg_divisor a b m (suc q) r h eb hq e =
    let n : ℕ = neg32 (suc q) in
    let en : n + suc q ≡ 2 ^ 32 = omega arith in
    omega (arith, ap (λ (x : ℕ). x * b) en, ap (λ (x : ℕ). suc q * x) eb)

neg_dividend :
    (a n b q r : ℕ)
    → n ≤ 2 ^ 32
    → 1 ≤ n
    → a + n ≡ 2 ^ 32
    → q < 2 ^ 32
    → q * b + r ≡ n
    → (neg32 q * b % 2 ^ 32 + neg32 r) % 2 ^ 32 ≡ a
neg_dividend a n b zero r h one ea hq e = omega arith
neg_dividend a n b (suc q) r h one ea hq e =
    let k : ℕ = neg32 (suc q) in
    let ek : k + suc q ≡ 2 ^ 32 = omega arith in omega (arith, ap (λ (x : ℕ). x * b) ek)

neg_both :
    (a n b m q r : ℕ)
    → n ≤ 2 ^ 32
    → 1 ≤ n
    → a + n ≡ 2 ^ 32
    → b + m ≡ 2 ^ 32
    → q * m + r ≡ n
    → (q * b % 2 ^ 32 + neg32 r) % 2 ^ 32 ≡ a
neg_both a n b m q r h one ea eb e = omega (arith, ap (λ (x : ℕ). q * x) eb)

pub divu-remu : (a b : ℕ) → a < word → b < word → add32 (mul (divu a b) b) (remu a b) ≡ a
unfolding divu remu mul
divu-remu a b ha hb = ground (arith, div-add-mod a b)

-- The quotient is no larger than the dividend, so it fits a word.
div-lt : (a b n : ℕ) → a < n → a / b < n
div-lt a b n h = omega (arith, div-le_self a b)

quot-rest : (a b : ℕ) → a < word → b < word → b ≢ 0 → add32 (mul (quot a b) b) (rest a b) ≡ a
unfolding mul
quot-rest a b ha hb nz = elim (Bool-cases (is_neg a)) [
  | inl na ↦ elim (Bool-cases (is_neg b)) [
    | inl nb ↦
        rw (na, nb)
          (neg_both a (word - a) b (word - b) ((word - a) / (word - b)) ((word - a) % (word - b))
            (omega arith) (omega arith) (omega arith) (omega arith)
            (div-add-mod' (word - a) (word - b)))
    | inr pb ↦
        rw (na, pb)
          (neg_dividend a (word - a) b ((word - a) / b) ((word - a) % b) (omega arith) (omega arith)
            (omega arith) (div-lt (word - a) b word (omega (arith, leb→le (2 ^ 31) a na)))
            (div-add-mod' (word - a) b))
  ]
  | inr pa ↦ elim (Bool-cases (is_neg b)) [
    | inl nb ↦
        rw (pa, nb)
          (neg_divisor a b (word - b) (a / (word - b)) (a % (word - b)) ha (omega arith)
            (div-lt a (word - b) word ha) (div-add-mod' a (word - b)))
    | inr pb ↦ rw (pa, pb) (both_pos a b (a / b) (a % b) ha (div-add-mod' a b))
  ]
]

-- With DIV and REM, and with DIVU and REMU, quotient times divisor plus remainder is the dividend
-- modulo 2 ^ 32, at every pair of words: a zero divisor and the overflow of INT32_MIN / -1 included.
div-rem :
    (a b : ℕ)
    → a < word
    → b < word
    → (add32 (mul (div a b) b) (rem a b) ≡ a) × (add32 (mul (divu a b) b) (remu a b) ≡ a)
unfolding div rem mul
div-rem a b ha hb = (signed, divu-remu a b ha hb)
  where
    signed : add32 (mul (div a b) b) (rem a b) ≡ a
    signed = elim (Bool-cases (b == 0)) [
      | inl z ↦ rw z (ground arith)
      | inr nz ↦ rw nz (elim (Bool-cases (if a == 2 ^ 31 then b == 0xffffffff else false)) [
        | inl over ↦ rw over (ground arith)
        | inr plain ↦ rw plain (quot-rest a b ha hb (ground arith))
      ])
    ]
