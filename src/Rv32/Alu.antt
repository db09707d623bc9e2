-- ===== src/Rv32/Alu.antt =====
-- The two inner switches of the case 0x13 / 0x33 of `rv32ima_step`.
pub mod Division
use Prim.Native.Nat.{bit_and, bit_or, bit_xor}
use inside_system.Prelude.{
  ℕ, ◌+◌, ◌-◌, ◌*◌, ◌/◌, ◌%◌, ◌^◌, Bool, true, false, ltb, ◌==◌, if◌then◌else◌,
}
use inside_system.Rv32.Words.{u32, add32, sub32, neg32, bit, is_neg, lts, sext64, sra, magnitude}

-- The quotient and the rest of two int32_t, rounded to 0 as C does.
abbrev pub quot : ℕ → ℕ → ℕ
quot a b =
    let q = magnitude a / magnitude b in
    if is_neg a then (if is_neg b then q else neg32 q) else (if is_neg b then neg32 q else q)

abbrev pub rest : ℕ → ℕ → ℕ
rest a b = let r = magnitude a % magnitude b in if is_neg a then neg32 r else r

-- DIV, DIVU, REM, REMU: cases 4 to 7 of the switch of RV32M.
unfoldable pub div : ℕ → ℕ → ℕ
div a b =
    if b == 0
    then 0xffffffff
    else if (if a == 2 ^ 31 then b == 0xffffffff else false)
    then a
    else quot a b

unfoldable pub divu : ℕ → ℕ → ℕ
divu a b = if b == 0 then 0xffffffff else a / b

unfoldable pub rem : ℕ → ℕ → ℕ
rem a b =
    if b == 0 then a else if (if a == 2 ^ 31 then b == 0xffffffff else false) then 0 else rest a b

unfoldable pub remu : ℕ → ℕ → ℕ
remu a b = if b == 0 then a else a % b

-- MUL, MULH, MULHSU, MULHU: the product of 64 bits, its low or its high word.
unfoldable pub mul : ℕ → ℕ → ℕ
mul a b = a * b % 2 ^ 32

unfoldable pub mulh : ℕ → ℕ → ℕ
mulh a b = sext64 a * sext64 b % 2 ^ 64 / 2 ^ 32

unfoldable pub mulhsu : ℕ → ℕ → ℕ
mulhsu a b = sext64 a * b % 2 ^ 64 / 2 ^ 32

unfoldable pub mulhu : ℕ → ℕ → ℕ
mulhu a b = a * b % 2 ^ 64 / 2 ^ 32

-- `switch ((ir >> 12) & 7)` of RV32M.
unfoldable pub alu_m : ℕ → ℕ → ℕ → ℕ
alu_m op a b =
    if op == 0
    then mul a b
    else if op == 1
    then mulh a b
    else if op == 2
    then mulhsu a b
    else if op == 3
    then mulhu a b
    else if op == 4
    then div a b
    else if op == 5
    then divu a b
    else if op == 6
    then rem a b
    else remu a b

-- The other switch; `sub` is `is_reg && (ir & 0x40000000)`, `arith_shift` is `ir & 0x40000000`.
unfoldable pub alu_i : ℕ → Bool → Bool → ℕ → ℕ → ℕ
alu_i op sub arith_shift a b =
    if op == 0
    then (if sub then sub32 a b else add32 a b)
    else if op == 1
    then u32 (a * 2 ^ (b % 32))
    else if op == 2
    then (if lts a b then 1 else 0)
    else if op == 3
    then (if ltb a b then 1 else 0)
    else if op == 4
    then bit_xor a b
    else if op == 5
    then (if arith_shift then sra a (b % 32) else a / 2 ^ (b % 32))
    else if op == 6
    then bit_or a b
    else bit_and a b
