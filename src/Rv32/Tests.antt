-- ===== src/Rv32/Tests.antt =====
-- A small machine run by the emulator, and the theorems about it at concrete inputs.
use inside_system.Prelude.{ℕ, ◌/◌, ◌%◌, ◌≡◌, refl, arith}
use inside_system.Rv32.Words.{add32}
use inside_system.Rv32.State.{Csrs, CpuState, Locals}
use inside_system.Rv32.Alu.{alu_i}
use inside_system.Rv32.Bytes.{load32, store32}
use inside_system.Rv32.Decode.{imm_i}
use inside_system.Rv32.Exec.{exec_op, exec_system, mret}
use inside_system.Rv32.Step.{advance_timer, execute, run_decoded, enter_trap, rv32ima_step}
use inside_system.Rv32.Step.Safety.{Safe, rv32ima_step-Safe}
use inside_system.Rv32.Step.Timer.{Interrupted, rv32ima_step-wakes}
use inside_system.Rv32.Step.Traps.{
  Trapped, state_of, locals_of, run_decoded-Trapped, mret-enter_trap,
}

abbrev csrs : Csrs
csrs = record {
  pc = 0x80000000;
  mstatus = 8;
  cyclel = 0xffffffff;
  cycleh = 0;
  timerl = 0xffffffff;
  timerh = 0;
  timermatchl = 1;
  timermatchh = 1;
  mscratch = 0;
  mtvec = 0x80000100;
  mie = 128;
  mip = 0;
  mepc = 0;
  mtval = 0;
  mcause = 0;
  extraflags = 0;
}

-- `addi a0, zero, -1` and then zeroes, in 16 bytes.
abbrev program : ℕ → ℕ
program = store32 (λ _. 0) 0 0xfff00513

abbrev cpu : CpuState
cpu = record { regs = λ _. 0; csrs = csrs; mem = program; mem_offset = 0x80000000; mem_size = 16 }

-- The same, asleep, with the timer about to pass its match.
abbrev sleeper : CpuState
sleeper = record cpu { csrs = record csrs { extraflags = 4; timerh = 1; timerl = 1 } }

addi_runs :
    ((rv32ima_step cpu 1).1.regs 10 ≡ 0xffffffff)
    × ((rv32ima_step cpu 1).1.csrs.pc ≡ 0x80000004)
    × ((rv32ima_step cpu 1).1.csrs.cyclel ≡ 0)
    × ((rv32ima_step cpu 1).1.csrs.cycleh ≡ 1)
unfolding rv32ima_step load32 store32 exec_op alu_i imm_i
addi_runs = (refl, refl, refl, refl)

rv32ima_step-Safe_example : Safe cpu (rv32ima_step cpu 1).1
rv32ima_step-Safe_example = rv32ima_step-Safe cpu 1 (omega arith)

-- EBREAK.
run_decoded-Trapped_example : Trapped cpu (run_decoded cpu 0x00100073).1 4
unfolding execute exec_system
run_decoded-Trapped_example =
    run_decoded-Trapped cpu cpu 0x00100073
      (record { pc = 0x80000000; trap = 4; rval = 0; rdid = 0 }) (omega arith) refl (omega arith)

rv32ima_step-wakes_example :
    Interrupted sleeper (rv32ima_step sleeper 1).0 (rv32ima_step sleeper 1).1
unfolding advance_timer
rv32ima_step-wakes_example = rv32ima_step-wakes sleeper 1 (record {
  asleep = refl;
  enabled = refl;
  timer_enabled = refl;
  match_set = omega arith;
  match_passed = omega arith;
  pc_word = omega arith;
  mtvec_word = omega arith;
})

abbrev locals : Locals
locals = record { pc = 0x80000000; trap = 0; rval = 0; rdid = 5 }

mret-enter_trap_example :
    ((state_of (mret (record cpu { csrs = enter_trap csrs 0x80000000 9 0 }) locals)).csrs.extraflags
      ≡ 0)
    × ((state_of (mret (record cpu { csrs = enter_trap csrs 0x80000000 9 0 }) locals)).csrs.mstatus
          / 8
          % 2
        ≡ 1)
    × (add32
          (locals_of (mret (record cpu { csrs = enter_trap csrs 0x80000000 9 0 }) locals) locals).pc
          4
        ≡ (enter_trap csrs 0x80000000 9 0).mepc)
mret-enter_trap_example = mret-enter_trap cpu 0x80000000 9 0 locals (omega arith)
