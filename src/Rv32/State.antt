-- ===== src/Rv32/State.antt =====
-- `struct CPUState`, the enumerations of its registers, and the locals of `rv32ima_step`.
use inside_system.Prelude.{ℕ, ◌==◌, if◌then◌else◌}

-- `csrs[CSR_COUNT]`, a field for each constant of `enum RV32IMA_CSR`.
pub record Csrs : Type 0 where
  pub pc : ℕ
  pub mstatus : ℕ
  pub cyclel : ℕ
  pub cycleh : ℕ
  pub timerl : ℕ
  pub timerh : ℕ
  pub timermatchl : ℕ
  pub timermatchh : ℕ
  pub mscratch : ℕ
  pub mtvec : ℕ
  pub mie : ℕ
  pub mip : ℕ
  pub mepc : ℕ
  pub mtval : ℕ
  pub mcause : ℕ
  pub extraflags : ℕ

-- `regs` is asked for indices below 32 only. `mem` gives the byte at an offset: the caller's array
-- is that function below `mem_size`, and a read or write further on is one past its end.
pub record CpuState : Type 0 where
  pub regs : ℕ → ℕ
  pub csrs : Csrs
  pub mem : ℕ → ℕ
  pub mem_offset : ℕ
  pub mem_size : ℕ

-- Writing one place of an array.
abbrev pub update : (ℕ → ℕ) → ℕ → ℕ → ℕ → ℕ
update f i v j = if i == j then v else f j

-- The locals that the cases of the opcode switch write.
pub record Locals : Type 0 where
  pub pc : ℕ
  pub trap : ℕ
  pub rval : ℕ
  pub rdid : ℕ

-- A case ends by `break`, or returns from `rv32ima_step` with a value.
pub data Flow : Type 0 where
  go : CpuState → Locals → Flow
  leave : ℕ → CpuState → Flow

-- `enum RV32IMA_REG`, the ones that the other programs name.
abbrev pub reg_sp : ℕ
reg_sp = 2

abbrev pub reg_a0 : ℕ
reg_a0 = 10

abbrev pub reg_a1 : ℕ
reg_a1 = 11

abbrev pub reg_a7 : ℕ
reg_a7 = 17
