-- ===== src/Rv32/Words.antt =====
-- uint32_t as a number below 2 ^ 32, and int32_t as the bit pattern of one.
use inside_system.Prelude.{ℕ, ◌+◌, ◌-◌, ◌/◌, ◌%◌, ◌^◌, Bool, ltb, leb, ◌==◌, if◌then◌else◌}

abbrev pub word : ℕ
word = 2 ^ 32

abbrev pub u32 : ℕ → ℕ
u32 x = x % 2 ^ 32

abbrev pub add32 : ℕ → ℕ → ℕ
add32 a b = (a + b) % 2 ^ 32

-- `-` on ℕ stops at 0, so the modulus is added first.
abbrev pub sub32 : ℕ → ℕ → ℕ
sub32 a b = (a + (2 ^ 32 - b)) % 2 ^ 32

-- `~x`
abbrev pub not32 : ℕ → ℕ
not32 x = 2 ^ 32 - 1 - x

-- `-x`
abbrev pub neg32 : ℕ → ℕ
neg32 x = (2 ^ 32 - x) % 2 ^ 32

-- The bit 2 ^ k of x, as `x & (1 << k)` is tested.
abbrev pub bit : ℕ → ℕ → Bool
bit x k = x / 2 ^ k % 2 == 1

-- `x | (1 << k)` and `x & ~(1 << k)`
abbrev pub set_bit : ℕ → ℕ → ℕ
set_bit x k = if bit x k then x else x + 2 ^ k

abbrev pub clear_bit : ℕ → ℕ → ℕ
clear_bit x k = if bit x k then x - 2 ^ k else x

-- The sign of an int32_t.
abbrev pub is_neg : ℕ → Bool
is_neg x = leb (2 ^ 31) x

-- `(int32_t)a < (int32_t)b`: with the sign bit flipped the patterns are in the order of the values.
abbrev pub lts : ℕ → ℕ → Bool
lts a b = ltb ((a + 2 ^ 31) % 2 ^ 32) ((b + 2 ^ 31) % 2 ^ 32)

-- An int32_t converted to int64_t, as a pattern of 64 bits.
abbrev pub sext64 : ℕ → ℕ
sext64 x = if is_neg x then x + (2 ^ 64 - 2 ^ 32) else x

-- `(int32_t)a >> s`
abbrev pub sra : ℕ → ℕ → ℕ
sra a s = if is_neg a then not32 (not32 a / 2 ^ s) else a / 2 ^ s

-- The size of an int32_t, which fits a uint32_t.
abbrev pub magnitude : ℕ → ℕ
magnitude x = if is_neg x then 2 ^ 32 - x else x
