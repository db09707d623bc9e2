-- ===== src/Rv32/Step/Safety.antt =====
-- What a whole step leaves alone.
use inside_system.Prelude.{ℕ, ◌≤◌, ◌≡◌, refl, ap, Bool-cases, inl, inr, arith}
use inside_system.Rv32.Words.{sub32, bit}
use inside_system.Rv32.State.{CpuState, Locals, Flow, go, leave}
use inside_system.Rv32.Bytes.{load32}
use inside_system.Rv32.Step.{
  execute, finish, start, no_instruction, end_step, next_cycle, run_decoded, trap_at,
  run_instruction, rv32ima_step, advance_timer, check_timer, timer_interrupt,
}
use inside_system.Rv32.Step.Frame.{Kept, Keeps, Sized, execute-Keeps, Kept-refl}

-- Register 0, the bounds of the memory and the bytes past its end.
pub record Safe (s s' : CpuState) : Type 0 where
  pub zero_register : s'.regs 0 ≡ s.regs 0
  pub mem_size : s'.mem_size ≡ s.mem_size
  pub mem_offset : s'.mem_offset ≡ s.mem_offset
  pub past_end : (i : ℕ) → s.mem_size ≤ i → s'.mem i ≡ s.mem i

-- The end of a step writes a register other than 0, and control registers.
finish-Safe : {s s' : CpuState} (cycle : ℕ) (l : Locals) → Kept s s' → Safe s (finish s' cycle l)
unfolding finish
finish-Safe {s} {s'} cycle l k = record {
  zero_register = ground (arith);
  mem_size = ground (arith);
  mem_offset = ground (arith);
  past_end = λ i h. ground (arith, k.past_end i);
}

end_step-Safe : (s : CpuState) (cycle : ℕ) (f : Flow) → Keeps s f → Safe s (end_step cycle f).1
end_step-Safe s cycle (go s' l) k = finish-Safe cycle l k
end_step-Safe s cycle (leave r s') k = record {
  zero_register = ap (λ f. f 0) k.regs;
  mem_size = k.mem_size;
  mem_offset = k.mem_offset;
  past_end = k.past_end;
}

run_decoded-Safe : (s : CpuState) (ir : ℕ) → Sized s → Safe s (run_decoded s ir).1
unfolding run_decoded
run_decoded-Safe s ir z =
    end_step-Safe s (next_cycle s) (execute s ir (next_cycle s) (start s.csrs.pc ir))
      (execute-Keeps s ir (next_cycle s) (start s.csrs.pc ir) z)

trap_at-Safe : (s : CpuState) (cycle pc trap : ℕ) → Safe s (trap_at s cycle pc trap).1
unfolding trap_at
trap_at-Safe s cycle pc trap = finish-Safe cycle (no_instruction pc trap) (Kept-refl s)

run_instruction-Safe : (s : CpuState) → Sized s → Safe s (run_instruction s).1
unfolding run_instruction
run_instruction-Safe s z = ground (
  arith,
  run_decoded-Safe s (load32 s.mem (sub32 s.csrs.pc s.mem_offset)) z,
  trap_at-Safe s (next_cycle s) s.csrs.pc 1,
  trap_at-Safe s (next_cycle s) s.csrs.pc 2,
)

-- The state with its timer run on.
abbrev timed : CpuState → ℕ → CpuState
timed s elapsed = record s { csrs = check_timer (advance_timer elapsed s.csrs) }

timed-Safe : (s s' : CpuState) (elapsed : ℕ) → Safe (timed s elapsed) s' → Safe s s'
timed-Safe s s' elapsed h = record {
  zero_register = h.zero_register;
  mem_size = h.mem_size;
  mem_offset = h.mem_offset;
  past_end = h.past_end;
}

-- For a memory of at least 3 bytes and less than 2 ^ 32: a step keeps register 0, which therefore
-- stays 0, keeps the memory's bounds, and writes no byte at or past the end of the memory.
pub rv32ima_step-Safe : (s : CpuState) (elapsed : ℕ) → Sized s → Safe s (rv32ima_step s elapsed).1
unfolding rv32ima_step
rv32ima_step-Safe s elapsed z = elim (Bool-cases (bit t.csrs.extraflags 2)) [
  | inl e ↦
      rw e (record {
        zero_register = refl;
        mem_size = refl;
        mem_offset = refl;
        past_end = λ i h. refl;
      })
  | inr n ↦ rw n (elim (Bool-cases (timer_interrupt t.csrs)) [
    | inl e ↦
        rw e (timed-Safe s _ elapsed (trap_at-Safe t t.csrs.cyclel (sub32 t.csrs.pc 4) 0x80000007))
    | inr n ↦ rw n (timed-Safe s _ elapsed (run_instruction-Safe t z'))
  ])
]
  where
    t : CpuState
    t = timed s elapsed

    z' : Sized t
    z' = record { three = z.three; fits = z.fits }
