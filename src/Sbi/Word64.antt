-- ===== src/Sbi/Word64.antt =====
-- unsigned long of OS_Spring_2026/course_3/opensbi on 64 bits, as a number below 2 ^ 64.
use inside_system.Prelude.{ℕ, ◌+◌, ◌-◌, ◌%◌, ◌^◌}

abbrev pub ulong : ℕ
ulong = 2 ^ 64

abbrev pub add64 : ℕ → ℕ → ℕ
add64 a b = (a + b) % 2 ^ 64

-- `-` on ℕ stops at 0, so the modulus is added first.
abbrev pub sub64 : ℕ → ℕ → ℕ
sub64 a b = (a + (2 ^ 64 - b)) % 2 ^ 64
