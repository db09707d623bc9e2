-- ===== src/CrazyOs/Ecall.antt =====
-- The system call of crazy-os.c, from the trap of the emulator to the return.
use inside_system.Prelude.{
  ℕ, ◌-◌, ◌*◌, ◌/◌, ◌%◌, ◌^◌, ◌≡◌, ◌≢◌, refl, List, arith, ◌==◌, if◌then◌else◌,
}
use inside_system.Rv32.Words.{add32}
use inside_system.Rv32.State.{CpuState, Locals, reg_a0, reg_a7}
use inside_system.Rv32.Exec.{mret, exec_system}
use inside_system.Rv32.Step.{run_decoded, trap_at, next_cycle}
use inside_system.Rv32.Step.Traps.{state_of}
use inside_system.CrazyOs.{Proc, resume, handle_ecall}

-- The control registers after `handle_ecall` are those after MRET, with the program counter moved
-- past the ECALL and the cause cleared.
resume-mret :
    (s : CpuState) (l : Locals)
    → resume s.csrs ≡ (record (state_of (mret s l)).csrs { pc = add32 s.csrs.mepc 4; mcause = 0 })
unfolding resume mret
resume-mret s l = refl

-- The word of the instruction ECALL.
abbrev pub ecall : ℕ
ecall = 0x73

abbrev pub trapped : Proc → Proc
trapped p = record p { cpu = (run_decoded p.cpu ecall).1 }

-- ECALL is a trap 9 in user mode, with nothing else done.
ecall-trap :
    (s : CpuState)
    → s.csrs.extraflags % 4 ≡ 0
    → run_decoded s ecall ≡ trap_at s (next_cycle s) s.csrs.pc 9
unfolding run_decoded trap_at exec_system
ecall-trap s u = rw u

-- The emulator stops it with the cause that `main` waits for.
record Stopped (s s' : CpuState) : Type 0 where
  cause : s'.csrs.mcause ≡ 8
  regs : s'.regs ≡ s.regs
  mem : s'.mem ≡ s.mem
  mepc : s'.csrs.mepc ≡ s.csrs.pc
  flags : s'.csrs.extraflags / 4 ≡ s.csrs.extraflags / 4
  previous : s'.csrs.mstatus ≡ s.csrs.mstatus / 8 % 2 * 2 ^ 7

trap_at-Stopped :
    (s : CpuState) (cycle : ℕ)
    → s.csrs.extraflags % 4 ≡ 0
    → Stopped s (trap_at s cycle s.csrs.pc 9).1
unfolding trap_at
trap_at-Stopped s cycle u = record {
  cause = refl;
  regs = refl;
  mem = refl;
  mepc = refl;
  flags = omega arith;
  previous = omega arith;
}

-- The call has returned: `result` is in A0.
pub record Returned (p p' : Proc) (result : ℕ) : Type 0 where
  pub pc : p'.cpu.csrs.pc ≡ add32 p.cpu.csrs.pc 4
  pub user : p'.cpu.csrs.extraflags ≡ p.cpu.csrs.extraflags
  pub interrupts : p'.cpu.csrs.mstatus / 8 % 2 ≡ p.cpu.csrs.mstatus / 8 % 2
  pub cause : p'.cpu.csrs.mcause ≡ 0
  pub result_register : p'.cpu.regs reg_a0 ≡ result
  pub regs : (i : ℕ) → i ≢ reg_a0 → p'.cpu.regs i ≡ p.cpu.regs i
  pub mem : p'.cpu.mem ≡ p.cpu.mem

abbrev pub result_of : Proc → ℕ
result_of p = if p.cpu.regs reg_a7 == 42 then 0 else 2 ^ 32 - 1

handle_ecall-Returned-Stopped :
    (p q : Proc) (stdout : List ℕ)
    → p.cpu.csrs.extraflags % 4 ≡ 0
    → Stopped p.cpu q.cpu
    → Returned p (handle_ecall q stdout).0 (result_of p)
unfolding handle_ecall
handle_ecall-Returned-Stopped p q stdout u t = record {
  pc = ground arith;
  user = ground arith;
  interrupts = ground arith;
  cause = ground arith;
  result_register = ground arith;
  regs = λ i h. ground arith;
  mem = ground arith;
}

-- A process in user mode that runs ECALL is stopped with cause 8, and `handle_ecall` then returns to
-- the instruction behind, in user mode, with 0 in A0 for call 42 and -1 for any other; the other
-- registers, the memory and the interrupt enable are as before the ECALL.
pub handle_ecall-Returned :
    (p : Proc) (stdout : List ℕ)
    → p.cpu.csrs.extraflags % 4 ≡ 0
    → ((trapped p).cpu.csrs.mcause ≡ 8)
      × Returned p (handle_ecall (trapped p) stdout).0 (result_of p)
handle_ecall-Returned p stdout u =
    (stopped.cause, handle_ecall-Returned-Stopped p (trapped p) stdout u stopped)
  where
    stopped : Stopped p.cpu (trapped p).cpu
    stopped = rw (ecall-trap p.cpu u) (trap_at-Stopped p.cpu (next_cycle p.cpu) u)
