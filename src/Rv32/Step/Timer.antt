-- ===== src/Rv32/Step/Timer.antt =====
-- The timer of the emulator, its interrupt, and the end of a sleep.
use inside_system.Prelude.{
  ℕ, ◌+◌, ◌%◌, ◌^◌, ◌<◌, ◌≡◌, refl, ap₂, ◌∙◌, true, false, ◌&&◌, arith, ltb,
}
use inside_system.Rv32.Words.{word, sub32, bit}
use inside_system.Rv32.State.{Csrs, CpuState}
use inside_system.Rv32.Step.{
  timer, timermatch, advance_timer, check_timer, timer_interrupt, trap_at, rv32ima_step, finish,
}

-- The two words of the timer, and the microseconds that have passed, all less than 2 ^ 32: the timer
-- counts as one number of 64 bits.
timer-advance_timer :
    (c : Csrs) (elapsed : ℕ)
    → c.timerl < word
    → c.timerh < word
    → elapsed < word
    → timer (advance_timer elapsed c) ≡ (timer c + elapsed) % 2 ^ 64
unfolding advance_timer
timer-advance_timer c elapsed hl hh he = ground arith

same_match : (c : Csrs) (elapsed : ℕ) → timermatch (advance_timer elapsed c) ≡ timermatch c
unfolding advance_timer
same_match c elapsed = refl

-- The timer's interrupt is pending exactly when a match is set and the timer is past it.
check_timer-pending :
    (c : Csrs) → bit (check_timer c).mip 7 ≡ (ltb 0 (timermatch c) && ltb (timermatch c) (timer c))
unfolding check_timer
check_timer-pending c = ground arith

-- The two words of the timer, and the microseconds that have passed, all less than 2 ^ 32: after the
-- timer has advanced, which counts as one number of 64 bits, its interrupt is pending exactly when a
-- match is set and the new time is past it.
check_timer-advance_timer :
    (c : Csrs) (elapsed : ℕ)
    → c.timerl < word
    → c.timerh < word
    → elapsed < word
    → bit (check_timer (advance_timer elapsed c)).mip 7
      ≡ (ltb 0 (timermatch c) && ltb (timermatch c) ((timer c + elapsed) % 2 ^ 64))
check_timer-advance_timer c elapsed hl hh he =
    check_timer-pending (advance_timer elapsed c)
    ∙ ap₂ (λ m t. ltb 0 m && ltb m t) (same_match c elapsed)
        (timer-advance_timer c elapsed hl hh he)

-- A processor asleep, with its interrupt enabled and the timer past its match at the next step.
pub record Waking (s : CpuState) (elapsed : ℕ) : Type 0 where
  pub asleep : bit s.csrs.extraflags 2 ≡ true
  pub enabled : bit s.csrs.mstatus 3 ≡ true
  pub timer_enabled : bit s.csrs.mie 7 ≡ true
  pub match_set : 0 < timermatch s.csrs
  pub match_passed : timermatch s.csrs < timer (advance_timer elapsed s.csrs)
  pub pc_word : s.csrs.pc < word
  pub mtvec_word : s.csrs.mtvec < word

record Awake (c c' : Csrs) : Type 0 where
  awake : bit c'.extraflags 2 ≡ false
  interrupt : timer_interrupt c' ≡ true
  same_pc : c'.pc ≡ c.pc
  same_mtvec : c'.mtvec ≡ c.mtvec

check_timer-Awake :
    (c : Csrs)
    → 0 < timermatch c
    → timermatch c < timer c
    → bit c.mie 7 ≡ true
    → bit c.mstatus 3 ≡ true
    → Awake c (check_timer c)
unfolding check_timer
check_timer-Awake c set passed mie mstatus = record {
  awake = ground arith;
  interrupt = ground arith;
  same_pc = ground arith;
  same_mtvec = ground arith;
}

-- What the machine is in after a timer interrupt before the instruction at `pc`.
pub record Interrupted (s : CpuState) (r : ℕ) (s' : CpuState) : Type 0 where
  pub returned : r ≡ 0
  pub awake : bit s'.csrs.extraflags 2 ≡ false
  pub mcause : s'.csrs.mcause ≡ 0x80000007
  pub mepc : s'.csrs.mepc ≡ s.csrs.pc
  pub handler : s'.csrs.pc ≡ s.csrs.mtvec
  pub regs : s'.regs ≡ s.regs

trap_at-Interrupted :
    (s : CpuState) (cycle : ℕ)
    → s.csrs.pc < word
    → s.csrs.mtvec < word
    → bit s.csrs.extraflags 2 ≡ false
    → Interrupted s
        (trap_at s cycle (sub32 s.csrs.pc 4) 0x80000007).0
        (trap_at s cycle (sub32 s.csrs.pc 4) 0x80000007).1
unfolding trap_at finish
trap_at-Interrupted s cycle hp hm h = record {
  returned = refl;
  awake = ground arith;
  mcause = refl;
  mepc = ground arith;
  handler = ground arith;
  regs = refl;
}

-- A processor asleep with its timer interrupt enabled, whose timer is past its match in this step,
-- wakes in it: the interrupt's handler runs next, with the return address where it slept, and the
-- registers are as before.
pub rv32ima_step-wakes :
    (s : CpuState) (elapsed : ℕ)
    → Waking s elapsed
    → Interrupted s (rv32ima_step s elapsed).0 (rv32ima_step s elapsed).1
unfolding rv32ima_step advance_timer
rv32ima_step-wakes s elapsed w =
    rw (a.awake, a.interrupt)
      (record {
        returned = i.returned;
        awake = i.awake;
        mcause = i.mcause;
        mepc = i.mepc ∙ a.same_pc;
        handler = i.handler ∙ a.same_mtvec;
        regs = i.regs;
      })
  where
    c : Csrs
    c = advance_timer elapsed s.csrs

    a : Awake c (check_timer c)
    a = check_timer-Awake c w.match_set w.match_passed w.timer_enabled w.enabled

    t : CpuState
    t = record s { csrs = check_timer c }

    i :
        Interrupted t
          (trap_at t t.csrs.cyclel (sub32 t.csrs.pc 4) 0x80000007).0
          (trap_at t t.csrs.cyclel (sub32 t.csrs.pc 4) 0x80000007).1
    i =
        trap_at-Interrupted t t.csrs.cyclel (rw a.same_pc w.pc_word) (rw a.same_mtvec w.mtvec_word)
          a.awake
