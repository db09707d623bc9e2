-- ===== src/Sbi/Text/Tests.antt =====
-- A memory with the text "ab" at 16, and the theorems about it.
use inside_system.Prelude.{ℕ, ◌<◌, ◌≡◌, refl, some, arith, inr, ◌==◌, if◌then◌else◌}
use inside_system.Sbi.Text.{Memory, sbi_strcpy, sbi_memmove}
use inside_system.Sbi.Text.Copy.{IsText, moved, sbi_memmove-moved, sbi_strcpy-moved}

abbrev memory : Memory
memory i = if i == 16 then b'a' else if i == 17 then b'b' else if i == 40 then 7 else 0

ab-IsText : IsText memory 16 2
ab-IsText = record { bytes = λ i h. ground (arith, h); ends = refl }

sbi_memmove-moved_example : sbi_memmove memory 17 16 2 18 ≡ b'b'
sbi_memmove-moved_example = sbi_memmove-moved memory 17 16 2 18

sbi_strcpy-moved_example :
    (m' : Memory) × (sbi_strcpy 9 memory 38 16 ≡ some m')
    × ((i : ℕ) → m' i ≡ moved memory 38 16 2 i)
sbi_strcpy-moved_example =
    sbi_strcpy-moved 9 memory 38 16 2 (omega arith) ab-IsText (inr (omega arith))

memory_lt : (x : ℕ) → memory x < 256
memory_lt x = ground arith
