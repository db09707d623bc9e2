-- ===== src/Sbi/Text/Copy.antt =====
-- The calls of sbi_string.c that copy.
use inside_system.Prelude.{
  ℕ, zero, suc, ◌+◌, ◌-◌, ◌≤◌, ◌<◌, ◌≡◌, ◌≢◌, ◌⊎◌, refl, ◌∙◌, some, true, false, arith, ltb, leb,
  ◌==◌, ◌&&◌, if◌then◌else◌, Bool-cases, inl, inr, ==-eq, ltb→lt,
}
use inside_system.Rv32.State.{update}
use inside_system.Sbi.Text.{Memory, sbi_memcpy, copy_down, sbi_memmove, sbi_strcpy}

-- The memory after `n` bytes went from `src` to `dest` all at once.
abbrev pub moved : Memory → ℕ → ℕ → ℕ → Memory
moved m dest src n i = if leb dest i && ltb i (dest + n) then m (src + (i - dest)) else m i

-- One byte less is left, after the first one is copied.
moved-first :
    (m : Memory) (dest src n i : ℕ)
    → (dest ≤ src) ⊎ (src + suc n ≤ dest)
    → moved (update m dest (m src)) (dest + 1) (src + 1) n i ≡ moved m dest src (suc n) i
moved-first m dest src n i h = ground arith

moved-last :
    (m : Memory) (dest src n i : ℕ)
    → src ≤ dest
    → moved (update m (dest + n) (m (src + n))) dest src n i ≡ moved m dest src (suc n) i
moved-last m dest src n i h = ground arith

apart :
    (dest src n : ℕ)
    → (dest ≤ src) ⊎ (src + suc n ≤ dest)
    → (dest + 1 ≤ src + 1) ⊎ (src + 1 + n ≤ dest + 1)
apart dest src n h = omega (arith, h)

-- Where the destination is not above the source, or behind its end, `sbi_memcpy` copies all bytes as
-- they were and no other.
pub sbi_memcpy-moved :
    (m : Memory) (dest src n i : ℕ)
    → (dest ≤ src) ⊎ (src + n ≤ dest)
    → sbi_memcpy m dest src n i ≡ moved m dest src n i
unfolding sbi_memcpy
sbi_memcpy-moved m dest src zero i h = ground arith
sbi_memcpy-moved m dest src (suc n) i h =
    sbi_memcpy-moved (update m dest (m src)) (dest + 1) (src + 1) n i (apart dest src n h)
    ∙ moved-first m dest src n i h

copy_down-moved :
    (m : Memory) (dest src n i : ℕ) → src ≤ dest → copy_down m dest src n i ≡ moved m dest src n i
unfolding copy_down
copy_down-moved m dest src zero i h = ground arith
copy_down-moved m dest src (suc n) i h =
    copy_down-moved (update m (dest + n) (m (src + n))) dest src n i h ∙ moved-last m dest src n i h

-- `sbi_memmove` copies all bytes as they were before the call and no other, however the two areas
-- overlap.
pub sbi_memmove-moved :
    (m : Memory) (dest src n i : ℕ) → sbi_memmove m dest src n i ≡ moved m dest src n i
unfolding sbi_memmove
sbi_memmove-moved m dest src n i = elim (Bool-cases (src == dest)) [
  | inl same ↦ rw same (same_place (==-eq same))
  | inr other ↦ elim (Bool-cases (ltb dest src)) [
    | inl below ↦
        rw (other, below)
          (sbi_memcpy-moved m dest src n i (inl (omega (arith, ltb→lt dest src below))))
    | inr above ↦ rw (other, above) (copy_down-moved m dest src n i (ground (arith, above)))
  ]
]
  where
    same_place : src ≡ dest → m i ≡ moved m dest src n i
    same_place e = ground (arith, e)

-- `n` bytes other than NUL, and a NUL behind them.
pub record IsText (m : Memory) (s n : ℕ) : Type 0 where
  pub bytes : (i : ℕ) → i < n → m (s + i) ≢ 0
  pub ends : m (s + n) ≡ 0

-- `sbi_strcpy` of a text of `n` bytes to a place that does not meet it and its NUL, with more fuel than
-- `n`: it copies the `n` bytes and no other, so not the NUL.
pub sbi_strcpy-moved :
    (fuel : ℕ) (m : Memory) (dest src n : ℕ)
    → n < fuel
    → IsText m src n
    → (dest + n ≤ src) ⊎ (src + n < dest)
    → (m' : Memory) × (sbi_strcpy fuel m dest src ≡ some m')
      × ((i : ℕ) → m' i ≡ moved m dest src n i)
unfolding sbi_strcpy
sbi_strcpy-moved zero m dest src n small t h = absurd (omega arith)
sbi_strcpy-moved (suc fuel) m dest src zero small t h = (m, rw (text_end) refl, λ i. ground arith)
  where
    text_end : (m src == 0) ≡ true
    text_end = ground (arith, t.ends)
sbi_strcpy-moved (suc fuel) m dest src (suc n) small t h =
    let (m', e, same) =
      sbi_strcpy-moved fuel (update m dest (m src)) (dest + 1) (src + 1) n (omega arith) rest
        (omega (arith, h)) in
    (m', rw more e, λ i. same i ∙ moved-first m dest src n i (omega (arith, h)))
  where
    more : (m src == 0) ≡ false
    more = ground (arith, t.bytes 0 (omega arith))

    rest : IsText (update m dest (m src)) (src + 1) n
    rest = record {
      bytes = λ i b. ground (arith, t.bytes (suc i) (omega (arith, b)), h);
      ends = ground (arith, t.ends, h);
    }
