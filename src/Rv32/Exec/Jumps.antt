-- ===== src/Rv32/Exec/Jumps.antt =====
-- LUI, AUIPC, JAL, JALR and the branches: the cases 0x37, 0x17, 0x6f, 0x67 and 0x63.
use inside_system.Prelude.{
  ℕ, ◌*◌, ◌/◌, Bool, true, false, Option, none, some, ltb, leb, ◌==◌, if◌then◌else◌,
}
use inside_system.Rv32.Words.{add32, sub32, lts}
use inside_system.Rv32.State.{CpuState, Locals, Flow, go}
use inside_system.Rv32.Decode.{imm_u, imm_i, imm_b, imm_j, funct3, rs1_index, rs2_index}

unfoldable pub exec_lui : CpuState → ℕ → Locals → Flow
exec_lui s ir l = go s (record l { rval = imm_u ir })

unfoldable pub exec_auipc : CpuState → ℕ → Locals → Flow
exec_auipc s ir l = go s (record l { rval = add32 l.pc (imm_u ir) })

unfoldable pub exec_jal : CpuState → ℕ → Locals → Flow
exec_jal s ir l = go s (record l { rval = add32 l.pc 4; pc = sub32 (add32 l.pc (imm_j ir)) 4 })

-- `& ~1` clears the lowest bit.
unfoldable pub exec_jalr : CpuState → ℕ → Locals → Flow
exec_jalr s ir l = go s (record l {
  rval = add32 l.pc 4;
  pc = sub32 (add32 (s.regs (rs1_index ir)) (imm_i ir) / 2 * 2) 4;
})

-- Whether the branch is taken; `none` is the default case of the switch.
unfoldable pub branch_taken : ℕ → ℕ → ℕ → Option Bool
branch_taken op rs1 rs2 =
    if op == 0
    then some (rs1 == rs2)
    else if op == 1
    then some (if rs1 == rs2 then false else true)
    else if op == 4
    then some (lts rs1 rs2)
    else if op == 5
    then some (if lts rs1 rs2 then false else true)
    else if op == 6
    then some (ltb rs1 rs2)
    else if op == 7
    then some (leb rs2 rs1)
    else none

abbrev pub jump : Option Bool → ℕ → Locals → Locals
jump none target l = record l { trap = 3; rdid = 0 }
jump (some true) target l = record l { pc = target; rdid = 0 }
jump (some false) target l = record l { rdid = 0 }

unfoldable pub exec_branch : CpuState → ℕ → Locals → Flow
unfolding branch_taken
exec_branch s ir l = go s (
    jump (branch_taken (funct3 ir) (s.regs (rs1_index ir)) (s.regs (rs2_index ir)))
      (sub32 (add32 l.pc (imm_b ir)) 4) l)
