-- ===== src/Rv32/Step.antt =====
-- `rv32ima_step`, from the timer to the trap, around the switch over the opcode.
pub mod Frame
pub mod Timer
pub mod Traps
pub mod Safety
use inside_system.Prelude.{
  ℕ, ◌+◌, ◌-◌, ◌*◌, ◌/◌, ◌%◌, ◌^◌, Bool, true, false, ◌&&◌, ltb, leb, ◌==◌, if◌then◌else◌,
}
use inside_system.Rv32.Words.{add32, sub32, bit, set_bit, clear_bit}
use inside_system.Rv32.State.{Csrs, CpuState, Locals, Flow, go, leave, update}
use inside_system.Rv32.Decode.{opcode, rd}
use inside_system.Rv32.Bytes.{load32}
use inside_system.Rv32.Exec.{
  exec_lui, exec_auipc, exec_jal, exec_jalr, exec_branch, exec_load, exec_store, exec_amo, exec_op,
  exec_fence, exec_system,
}

-- The 64-bit values of the timer and its match.
abbrev pub timer : Csrs → ℕ
timer c = c.timerh * 2 ^ 32 + c.timerl

abbrev pub timermatch : Csrs → ℕ
timermatch c = c.timermatchh * 2 ^ 32 + c.timermatchl

-- The timer runs on by `elapsed` microseconds.
unfoldable pub advance_timer : ℕ → Csrs → Csrs
advance_timer elapsed c =
    let new_timer = add32 c.timerl elapsed in
    record c {
      timerh = if ltb new_timer c.timerl then add32 c.timerh 1 else c.timerh;
      timerl = new_timer;
    }

-- The timer's interrupt is pending, and ends a sleep, past a match that is not 0.
unfoldable pub check_timer : Csrs → Csrs
check_timer c =
    if (if c.timermatchh == 0 then (if c.timermatchl == 0 then false else true) else true)
      && ltb (timermatch c) (timer c)
    then record c { extraflags = clear_bit c.extraflags 2; mip = set_bit c.mip 7 }
    else record c { mip = clear_bit c.mip 7 }

-- The switch over `ir & 0x7f`.
unfoldable pub execute : CpuState → ℕ → ℕ → Locals → Flow
execute s ir cycle l =
    if opcode ir == 0x37
    then exec_lui s ir l
    else if opcode ir == 0x17
    then exec_auipc s ir l
    else if opcode ir == 0x6f
    then exec_jal s ir l
    else if opcode ir == 0x67
    then exec_jalr s ir l
    else if opcode ir == 0x63
    then exec_branch s ir l
    else if opcode ir == 0x03
    then exec_load s ir l
    else if opcode ir == 0x23
    then exec_store s ir l
    else if opcode ir == 0x13
    then exec_op s ir l
    else if opcode ir == 0x33
    then exec_op s ir l
    else if opcode ir == 0x0f
    then exec_fence s ir l
    else if opcode ir == 0x73
    then exec_system s ir cycle l
    else if opcode ir == 0x2f
    then exec_amo s ir l
    else go s (record l { trap = 3 })

-- From the end of the switch to `cycle_end`: a trap keeps the register from being written.
unfoldable pub write_back : CpuState → Locals → CpuState
write_back s l = if l.rdid == 0 then s else record s { regs = update s.regs l.rdid l.rval }

-- Entry into a trap; `pc` is the address of the instruction, for an interrupt 4 less.
unfoldable pub enter_trap : Csrs → ℕ → ℕ → ℕ → Csrs
enter_trap c pc trap rval =
    let is_interrupt = leb (2 ^ 31) trap in
    let pc' = (if is_interrupt then add32 pc 4 else pc) in
    record c {
      mcause = if is_interrupt then trap else trap - 1;
      mtval = if is_interrupt then 0 else if ltb 5 trap && leb trap 8 then rval else pc;
      mepc = pc';
      mstatus = c.mstatus / 8 % 2 * 2 ^ 7 + c.extraflags % 4 * 2 ^ 11;
      extraflags = c.extraflags / 4 * 4 + 3;
      pc = add32 (sub32 c.mtvec 4) 4;
    }

-- The end of a step without a trap.
abbrev pub retire : ℕ → ℕ → Csrs → Csrs
retire cycle pc c = record c {
  cycleh = if ltb cycle c.cyclel then add32 c.cycleh 1 else c.cycleh;
  cyclel = cycle;
  pc = pc;
}

-- `cycle_end`: the program counter that is stored last is the handler's after a trap.
unfoldable pub finish : CpuState → ℕ → Locals → CpuState
unfolding enter_trap write_back
finish s cycle l =
    if l.trap == 0
    then (let s' = write_back s l in record s' { csrs = retire cycle (add32 l.pc 4) s'.csrs })
    else let c = enter_trap s.csrs l.pc l.trap l.rval in record s { csrs = retire cycle c.pc c }

-- The locals where the switch begins.
abbrev pub start : ℕ → ℕ → Locals
start pc ir = record { pc = pc; trap = 0; rval = 0; rdid = rd ir }

-- An instruction that is not run: a fault of the fetch, or an interrupt.
abbrev pub no_instruction : ℕ → ℕ → Locals
no_instruction pc trap = record { pc = pc; trap = trap; rval = 0; rdid = 0 }

abbrev pub end_step : ℕ → Flow → ℕ × CpuState
end_step cycle (go s l) = (0, finish s cycle l)
end_step cycle (leave r s) = (r, s)

-- The cycle counter that the step ends with, if an instruction is fetched.
abbrev pub next_cycle : CpuState → ℕ
next_cycle s = add32 s.csrs.cyclel 1

-- The instruction `ir` at `pc`.
unfoldable pub run_decoded : CpuState → ℕ → ℕ × CpuState
unfolding execute finish
run_decoded s ir = end_step (next_cycle s) (execute s ir (next_cycle s) (start s.csrs.pc ir))

-- A trap with nothing executed.
unfoldable pub trap_at : CpuState → ℕ → ℕ → ℕ → ℕ × CpuState
unfolding finish
trap_at s cycle pc trap = (0, finish s cycle (no_instruction pc trap))

-- Fetch and run the instruction at `pc`.
unfoldable pub run_instruction : CpuState → ℕ × CpuState
unfolding run_decoded trap_at
run_instruction s =
    let ofs_pc = sub32 s.csrs.pc s.mem_offset in
    if leb s.mem_size ofs_pc
    then trap_at s (next_cycle s) s.csrs.pc 2
    else if ofs_pc % 4 == 0
    then run_decoded s (load32 s.mem ofs_pc)
    else trap_at s (next_cycle s) s.csrs.pc 1

-- `MIP & MIE & MTIE` with interrupts enabled
abbrev pub timer_interrupt : Csrs → Bool
timer_interrupt c = bit c.mip 7 && bit c.mie 7 && bit c.mstatus 3

-- The value returned by `rv32ima_step`, as the pattern of an int32_t, and the state after it.
unfoldable pub rv32ima_step : CpuState → ℕ → ℕ × CpuState
unfolding advance_timer check_timer run_instruction trap_at
rv32ima_step state elapsed_us =
    let s = record state { csrs = check_timer (advance_timer elapsed_us state.csrs) } in
    if bit s.csrs.extraflags 2
    then (1, s)
    else if timer_interrupt s.csrs
    then trap_at s s.csrs.cyclel (sub32 s.csrs.pc 4) 0x80000007
    else run_instruction s
