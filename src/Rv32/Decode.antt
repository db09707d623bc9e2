-- ===== src/Rv32/Decode.antt =====
-- The fields of an instruction `ir`, as the cases of `rv32ima_step` take them out.
-- A mask of k low bits is `% 2 ^ k`, a shift right is `/ 2 ^ k`; the parts that the source joins by
-- `|` have no bit in common, so `+` joins them.
pub mod Immediates
use inside_system.Prelude.{ℕ, ◌+◌, ◌*◌, ◌/◌, ◌%◌, ◌^◌, leb, if◌then◌else◌}
use inside_system.Rv32.Words.{bit}

abbrev pub opcode : ℕ → ℕ
opcode ir = ir % 128

abbrev pub rd : ℕ → ℕ
rd ir = ir / 2 ^ 7 % 32

abbrev pub funct3 : ℕ → ℕ
funct3 ir = ir / 2 ^ 12 % 8

abbrev pub rs1_index : ℕ → ℕ
rs1_index ir = ir / 2 ^ 15 % 32

abbrev pub rs2_index : ℕ → ℕ
rs2_index ir = ir / 2 ^ 20 % 32

-- `ir & 0xfffff000`
unfoldable pub imm_u : ℕ → ℕ
imm_u ir = ir / 2 ^ 12 * 2 ^ 12

-- `ir >> 20`, with the sign extended by `imm & 0x800 ? 0xfffff000 : 0`
unfoldable pub imm_i : ℕ → ℕ
imm_i ir = let imm = ir / 2 ^ 20 in if bit imm 11 then imm + 0xfffff000 else imm

-- `addy` of a store, its sign extended
unfoldable pub imm_s : ℕ → ℕ
imm_s ir =
    let addy = ir / 2 ^ 7 % 32 + ir / 2 ^ 25 * 2 ^ 5 in
    if bit addy 11 then addy + 0xfffff000 else addy

-- `immm4` of a branch, its sign extended
unfoldable pub imm_b : ℕ → ℕ
imm_b ir =
    let immm4 =
      ir / 2 ^ 8 % 16 * 2
      + ir / 2 ^ 25 % 64 * 2 ^ 5
      + ir / 2 ^ 7 % 2 * 2 ^ 11
      + ir / 2 ^ 31 * 2 ^ 12 in
    if bit immm4 12 then immm4 + 0xffffe000 else immm4

-- `reladdy` of a jump, its sign extended
unfoldable pub imm_j : ℕ → ℕ
imm_j ir =
    let reladdy =
      ir / 2 ^ 31 * 2 ^ 20
      + ir / 2 ^ 21 % 1024 * 2
      + ir / 2 ^ 20 % 2 * 2 ^ 11
      + ir / 2 ^ 12 % 256 * 2 ^ 12 in
    if bit reladdy 20 then reladdy + 0xffe00000 else reladdy
