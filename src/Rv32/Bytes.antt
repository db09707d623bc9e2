-- ===== src/Rv32/Bytes.antt =====
-- `MEM(x)` read and written as an integer of 8, 16 or 32 bits, low byte first.
pub mod RoundTrip
use inside_system.Prelude.{ℕ, ◌+◌, ◌*◌, ◌/◌, ◌%◌, ◌^◌, if◌then◌else◌}
use inside_system.Rv32.Words.{bit}
use inside_system.Rv32.State.{update}

unfoldable pub load8 : (ℕ → ℕ) → ℕ → ℕ
load8 m a = m a

unfoldable pub load16 : (ℕ → ℕ) → ℕ → ℕ
load16 m a = m a + m (a + 1) * 2 ^ 8

unfoldable pub load32 : (ℕ → ℕ) → ℕ → ℕ
load32 m a = m a + m (a + 1) * 2 ^ 8 + m (a + 2) * 2 ^ 16 + m (a + 3) * 2 ^ 24

unfoldable pub store8 : (ℕ → ℕ) → ℕ → ℕ → ℕ → ℕ
store8 m a v = update m a (v % 2 ^ 8)

unfoldable pub store16 : (ℕ → ℕ) → ℕ → ℕ → ℕ → ℕ
store16 m a v = update (update m a (v % 2 ^ 8)) (a + 1) (v / 2 ^ 8 % 2 ^ 8)

unfoldable pub store32 : (ℕ → ℕ) → ℕ → ℕ → ℕ → ℕ
store32 m a v =
    update
      (update (update (update m a (v % 2 ^ 8)) (a + 1) (v / 2 ^ 8 % 2 ^ 8)) (a + 2)
        (v / 2 ^ 16 % 2 ^ 8))
      (a + 3) (v / 2 ^ 24 % 2 ^ 8)

-- An int8_t or int16_t converted to uint32_t.
abbrev pub sext8 : ℕ → ℕ
sext8 v = if bit v 7 then v + 0xffffff00 else v

abbrev pub sext16 : ℕ → ℕ
sext16 v = if bit v 15 then v + 0xffff0000 else v
