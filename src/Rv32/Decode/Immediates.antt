-- ===== src/Rv32/Decode/Immediates.antt =====
-- The immediates of the formats I, S, B and J, against their encodings.
use inside_system.Prelude.{ℕ, ◌+◌, ◌-◌, ◌*◌, ◌/◌, ◌%◌, ◌^◌, ◌<◌, ◌≡◌, arith, if◌then◌else◌}
use inside_system.Rv32.Words.{bit}
use inside_system.Rv32.Decode.{imm_i, imm_s, imm_b, imm_j}

-- The encodings of the RISC-V manual, for an immediate of the format's width, with what the other
-- fields hold: `low` below the immediate, `mid` between its parts.
abbrev pub encode_i : ℕ → ℕ → ℕ
encode_i imm low = imm * 2 ^ 20 + low

abbrev pub encode_s : ℕ → ℕ → ℕ → ℕ
encode_s imm mid low = imm / 2 ^ 5 * 2 ^ 25 + mid * 2 ^ 12 + imm % 2 ^ 5 * 2 ^ 7 + low

abbrev pub encode_b : ℕ → ℕ → ℕ → ℕ
encode_b imm mid low =
    imm / 2 ^ 12 * 2 ^ 31
    + imm / 2 ^ 5 % 2 ^ 6 * 2 ^ 25
    + mid * 2 ^ 12
    + imm / 2 % 2 ^ 4 * 2 ^ 8
    + imm / 2 ^ 11 % 2 * 2 ^ 7
    + low

abbrev pub encode_j : ℕ → ℕ → ℕ
encode_j imm low =
    imm / 2 ^ 20 * 2 ^ 31
    + imm / 2 % 2 ^ 10 * 2 ^ 21
    + imm / 2 ^ 11 % 2 * 2 ^ 20
    + imm / 2 ^ 12 % 2 ^ 8 * 2 ^ 12
    + low

-- The 32-bit pattern of a signed number of `w` bits.
abbrev pub sign_extend : ℕ → ℕ → ℕ
sign_extend w x = if bit x (w - 1) then x + (2 ^ 32 - 2 ^ w) else x

pub imm_i-encode :
    (imm low : ℕ) → imm < 2 ^ 12 → low < 2 ^ 20 → imm_i (encode_i imm low) ≡ sign_extend 12 imm
unfolding imm_i
imm_i-encode imm low h k = ground arith

pub imm_s-encode :
    (imm mid low : ℕ)
    → imm < 2 ^ 12
    → mid < 2 ^ 13
    → low < 2 ^ 7
    → imm_s (encode_s imm mid low) ≡ sign_extend 12 imm
unfolding imm_s
imm_s-encode imm mid low h j k = ground arith

-- A branch offset, even and of 13 bits, is decoded from the word that encodes it as the 32-bit word
-- of the same signed number, whatever the word's other bits.
imm_b-encode :
    (imm mid low : ℕ)
    → imm < 2 ^ 13
    → imm % 2 ≡ 0
    → mid < 2 ^ 13
    → low < 2 ^ 7
    → imm_b (encode_b imm mid low) ≡ sign_extend 13 imm
unfolding imm_b
imm_b-encode imm mid low h e j k = ground arith

-- A jump offset, even and of 21 bits, is decoded from the word that encodes it as the 32-bit word of
-- the same signed number, whatever the word's other bits.
imm_j-encode :
    (imm low : ℕ)
    → imm < 2 ^ 21
    → imm % 2 ≡ 0
    → low < 2 ^ 12
    → imm_j (encode_j imm low) ≡ sign_extend 21 imm
unfolding imm_j
imm_j-encode imm low h e k = ground arith
