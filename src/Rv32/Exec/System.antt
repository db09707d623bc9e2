-- ===== src/Rv32/Exec/System.antt =====
-- Register arithmetic, fences, the CSR instructions and the system instructions: the cases 0x13,
-- 0x33, 0x0f and 0x73.
use Prim.Native.Nat.{bit_and, bit_or}
use inside_system.Prelude.{ℕ, ◌+◌, ◌*◌, ◌/◌, ◌%◌, ◌^◌, ◌&&◌, ◌==◌, if◌then◌else◌}
use inside_system.Rv32.Words.{add32, sub32, not32, bit, set_bit}
use inside_system.Rv32.State.{Csrs, CpuState, Locals, Flow, go, leave}
use inside_system.Rv32.Decode.{imm_i, funct3, rs1_index}
use inside_system.Rv32.Alu.{alu_m, alu_i}

unfoldable pub exec_op : CpuState → ℕ → Locals → Flow
exec_op s ir l =
    let imm = imm_i ir in
    let rs1 = s.regs (rs1_index ir) in
    let is_reg = bit ir 5 in
    let rs2 = (if is_reg then s.regs (imm % 32) else imm) in
    go s (record l {
      rval =
          if is_reg && bit ir 25
          then alu_m (funct3 ir) rs1 rs2
          else alu_i (funct3 ir) (is_reg && bit ir 30) (bit ir 30) rs1 rs2;
    })

unfoldable pub exec_fence : CpuState → ℕ → Locals → Flow
exec_fence s ir l = go s (record l { rdid = 0 })

-- The first switch over `csrno`; `rval` is 0 where no case fits.
unfoldable pub csr_read : Csrs → ℕ → ℕ → ℕ
csr_read c cycle csrno =
    if csrno == 0x340
    then c.mscratch
    else if csrno == 0x305
    then c.mtvec
    else if csrno == 0x304
    then c.mie
    else if csrno == 0xc00
    then cycle
    else if csrno == 0x344
    then c.mip
    else if csrno == 0x341
    then c.mepc
    else if csrno == 0x300
    then c.mstatus
    else if csrno == 0x342
    then c.mcause
    else if csrno == 0x343
    then c.mtval
    else if csrno == 0xf11
    then 0xff0ff0ff
    else if csrno == 0x301
    then 0x40401101
    else 0

-- The switch over `microop`, for the values that reach it.
unfoldable pub csr_value : ℕ → ℕ → ℕ → ℕ → ℕ
csr_value microop rval rs1 rs1imm =
    if microop == 1
    then rs1
    else if microop == 2
    then bit_or rval rs1
    else if microop == 3
    then bit_and rval (not32 rs1)
    else if microop == 5
    then rs1imm
    else if microop == 6
    then bit_or rval rs1imm
    else if microop == 7
    then bit_and rval (not32 rs1imm)
    else rs1

-- The second switch over `csrno`.
unfoldable pub csr_write : Csrs → ℕ → ℕ → Csrs
csr_write c csrno v =
    if csrno == 0x340
    then record c { mscratch = v }
    else if csrno == 0x305
    then record c { mtvec = v }
    else if csrno == 0x304
    then record c { mie = v }
    else if csrno == 0x344
    then record c { mip = v }
    else if csrno == 0x341
    then record c { mepc = v }
    else if csrno == 0x300
    then record c { mstatus = v }
    else if csrno == 0x342
    then record c { mcause = v }
    else if csrno == 0x343
    then record c { mtval = v }
    else c

unfoldable pub exec_csr : CpuState → ℕ → ℕ → Locals → Flow
exec_csr s ir cycle l =
    let csrno = ir / 2 ^ 20 in
    let rval = csr_read s.csrs cycle csrno in
    go
      (record s {
        csrs =
            csr_write s.csrs csrno
              (csr_value (funct3 ir) rval (s.regs (rs1_index ir)) (rs1_index ir));
      })
      (record l { rval = rval })

-- WFI returns 1 from `rv32ima_step`.
unfoldable pub wait_for_interrupt : CpuState → Locals → Flow
wait_for_interrupt s l = leave 1 (record s {
  csrs = record s.csrs {
    mstatus = set_bit s.csrs.mstatus 3;
    extraflags = set_bit s.csrs.extraflags 2;
    pc = add32 l.pc 4;
  };
})

-- MRET. The parts that the source joins by `|` have no bit in common.
unfoldable pub mret : CpuState → Locals → Flow
mret s l =
    go
      (record s {
        csrs = record s.csrs {
          mstatus = s.csrs.mstatus / 128 % 2 * 8 + s.csrs.extraflags % 4 * 2 ^ 11 + 0x80;
          extraflags = s.csrs.extraflags / 4 * 4 + s.csrs.mstatus / 2 ^ 11 % 4;
        };
      })
      (record l { pc = sub32 s.csrs.mepc 4 })

-- ECALL, EBREAK and what is no instruction.
unfoldable pub environment_trap : CpuState → ℕ → ℕ
environment_trap s csrno =
    if csrno == 0
    then (if s.csrs.extraflags % 4 == 0 then 9 else 12)
    else if csrno == 1
    then 4
    else 3

unfoldable pub exec_system : CpuState → ℕ → ℕ → Locals → Flow
unfolding exec_csr wait_for_interrupt mret environment_trap
exec_system s ir cycle l =
    let csrno = ir / 2 ^ 20 in
    let microop = funct3 ir in
    if microop % 4 == 0
    then if microop == 0
      then if csrno == 0x105
        then wait_for_interrupt s (record l { rdid = 0 })
        else if csrno % 256 == 2
        then mret s (record l { rdid = 0 })
        else go s (record l { rdid = 0; trap = environment_trap s csrno })
      else go s (record l { trap = 3 })
    else exec_csr s ir cycle l
