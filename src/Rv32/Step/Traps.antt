-- ===== src/Rv32/Step/Traps.antt =====
-- Traps: what a case that traps has done, what the entry into a trap stores, and the way back.
use inside_system.Prelude.{
  ℕ, ◌+◌, ◌/◌, ◌%◌, ◌^◌, ◌≤◌, ◌<◌, ◌≡◌, ◌≢◌, ◌⊎◌, refl, sym, subst, Bool, true, false, Bool-cases,
  inl, inr, Option, none, some, arith, ◌==◌,
}
use inside_system.Rv32.Words.{word, add32, sub32}
use inside_system.Rv32.State.{CpuState, Locals, Flow, go, leave}
use inside_system.Rv32.Decode.{imm_s, funct3, rs1_index, rs2_index}
use inside_system.Rv32.Exec.{
  exec_lui, exec_auipc, exec_jal, exec_jalr, exec_branch, exec_load, exec_store, exec_amo, exec_op,
  exec_fence, exec_system, store_ram, store_mmio, stored, outside, amo_write, amo_value, jump,
  branch_taken, mret,
}
use inside_system.Rv32.Step.{execute, enter_trap, finish, start, end_step, next_cycle, run_decoded}

-- A case that traps has changed nothing: neither the state nor `pc`, and its trap is an exception.
pub record Untouched (s s' : CpuState) (l l' : Locals) : Type 0 where
  pub state : s' ≡ s
  pub pc : l'.pc ≡ l.pc
  pub exception : l'.trap ≤ 12

abbrev pub IsPrecise : CpuState → Locals → Flow → Type 0
IsPrecise s l (go s' l') = (l'.trap ≡ 0) ⊎ Untouched s s' l l'
IsPrecise s l (leave r s') = Unit

jump-IsPrecise :
    (s : CpuState) (o : Option Bool) (t : ℕ) (l : Locals)
    → l.trap ≡ 0
    → IsPrecise s l (go s (jump o t l))
jump-IsPrecise s none t l h = inr (record { state = refl; pc = refl; exception = omega arith })
jump-IsPrecise s (some true) t l h = inl h
jump-IsPrecise s (some false) t l h = inl h

exec_branch-IsPrecise :
    (s : CpuState) (ir : ℕ) (l : Locals) → l.trap ≡ 0 → IsPrecise s l (exec_branch s ir l)
unfolding exec_branch
exec_branch-IsPrecise s ir l h =
    jump-IsPrecise s (branch_taken (funct3 ir) (s.regs (rs1_index ir)) (s.regs (rs2_index ir))) _ l
      h

exec_load-IsPrecise :
    (s : CpuState) (ir : ℕ) (l : Locals) → l.trap ≡ 0 → IsPrecise s l (exec_load s ir l)
unfolding exec_load
exec_load-IsPrecise s ir l h = ground arith

exec_system-IsPrecise :
    (s : CpuState) (ir cycle : ℕ) (l : Locals)
    → l.trap ≡ 0
    → IsPrecise s l (exec_system s ir cycle l)
unfolding exec_system
exec_system-IsPrecise s ir cycle l h = ground arith

stored-IsPrecise :
    (s : CpuState) (o : Option (ℕ → ℕ)) (l : Locals)
    → l.trap ≡ 0
    → IsPrecise s l (stored s o (record l { rdid = 0 }))
stored-IsPrecise s none l h = inr (record { state = refl; pc = refl; exception = omega arith })
stored-IsPrecise s (some m) l h = inl h

store_mmio-IsPrecise :
    (s : CpuState) (a v : ℕ) (l : Locals)
    → l.trap ≡ 0
    → IsPrecise s l (store_mmio s a v (record l { rdid = 0 }))
unfolding store_mmio
store_mmio-IsPrecise s a v l h = ground arith

exec_store-IsPrecise :
    (s : CpuState) (ir : ℕ) (l : Locals) → l.trap ≡ 0 → IsPrecise s l (exec_store s ir l)
unfolding exec_store
exec_store-IsPrecise s ir l h = elim (Bool-cases (outside s addy)) [
  | inl e ↦ rw e (store_mmio-IsPrecise s (add32 addy s.mem_offset) _ l h)
  | inr n ↦ rw n (stored-IsPrecise s (store_ram (funct3 ir) s.mem addy _) l h)
]
  where
    addy : ℕ
    addy = add32 (imm_s ir) (sub32 (s.regs (rs1_index ir)) s.mem_offset)

amo_write-IsPrecise :
    (s : CpuState) (a v : ℕ) (o : Option ℕ) (l : Locals)
    → l.trap ≡ 0
    → IsPrecise s l (amo_write s a v o l)
amo_write-IsPrecise s a v none l h =
    inr (record { state = refl; pc = refl; exception = omega arith })
amo_write-IsPrecise s a v (some w) l h = inl h

exec_amo-IsPrecise :
    (s : CpuState) (ir : ℕ) (l : Locals) → l.trap ≡ 0 → IsPrecise s l (exec_amo s ir l)
unfolding exec_amo
exec_amo-IsPrecise s ir l h = elim (Bool-cases (outside s rs1)) [
  | inl e ↦ rw e (inr (record { state = refl; pc = refl; exception = omega arith }))
  | inr n ↦ rw n (elim (Bool-cases (irmid == 2)) [
    | inl e ↦ rw e (ground arith)
    | inr n2 ↦ rw n2 (elim (Bool-cases (irmid == 3)) [
      | inl e ↦ rw e (ground arith)
      | inr n3 ↦ rw n3 (amo_write-IsPrecise s rs1 _ (amo_value irmid _ _) l h)
    ])
  ])
]
  where
    rs1 : ℕ
    rs1 = sub32 (s.regs (rs1_index ir)) s.mem_offset

    irmid : ℕ
    irmid = ir / 2 ^ 27 % 32

execute-IsPrecise :
    (s : CpuState) (ir cycle : ℕ) (l : Locals) → l.trap ≡ 0 → IsPrecise s l (execute s ir cycle l)
unfolding execute exec_lui exec_auipc exec_jal exec_jalr exec_fence exec_op
execute-IsPrecise s ir cycle l h = ground (
  arith,
  exec_branch-IsPrecise s ir l,
  exec_load-IsPrecise s ir l,
  exec_store-IsPrecise s ir l,
  exec_system-IsPrecise s ir cycle l,
  exec_amo-IsPrecise s ir l,
)

abbrev pub state_of : Flow → CpuState
state_of (go s l) = s
state_of (leave r s) = s

abbrev pub locals_of : Flow → Locals → Locals
locals_of (go s l) d = l
locals_of (leave r s) d = d

-- What the machine is in after the trap `trap` of the instruction at `s.csrs.pc`.
pub record Trapped (s s' : CpuState) (trap : ℕ) : Type 0 where
  pub regs : s'.regs ≡ s.regs
  pub mem : s'.mem ≡ s.mem
  pub mepc : s'.csrs.mepc ≡ s.csrs.pc
  pub mcause : s'.csrs.mcause + 1 ≡ trap
  pub machine_mode : s'.csrs.extraflags % 4 ≡ 3
  pub handler : s'.csrs.pc ≡ s.csrs.mtvec

finish-Trapped :
    (s : CpuState) (cycle : ℕ) (l : Locals)
    → s.csrs.mtvec < word
    → l.pc ≡ s.csrs.pc
    → l.trap ≤ 12
    → l.trap ≢ 0
    → Trapped s (finish s cycle l) l.trap
unfolding finish
finish-Trapped s cycle l w e small nz = record {
  regs = ground arith;
  mem = ground arith;
  mepc = ground arith;
  mcause = ground arith;
  machine_mode = ground arith;
  handler = ground arith;
}

-- With a handler's address of 32 bits, an instruction that traps has no effect but the trap: registers
-- and memory are as before, `mepc` is its address, `mcause` the cause, and the handler runs next, in
-- machine mode.
pub run_decoded-Trapped :
    (s s' : CpuState) (ir : ℕ) (l : Locals)
    → s.csrs.mtvec < word
    → execute s ir (next_cycle s) (start s.csrs.pc ir) ≡ go s' l
    → l.trap ≢ 0
    → Trapped s (run_decoded s ir).1 l.trap
unfolding run_decoded
run_decoded-Trapped s s' ir l w e nz = rw e (after (rw e at precise))
  where
    precise : IsPrecise s (start s.csrs.pc ir) (execute s ir (next_cycle s) (start s.csrs.pc ir))
    precise = execute-IsPrecise s ir (next_cycle s) (start s.csrs.pc ir) refl

    after :
        IsPrecise s (start s.csrs.pc ir) (go s' l)
        → Trapped s (end_step (next_cycle s) (go s' l)).1 l.trap
    after (inl none_trapped) = absurd (nz none_trapped)
    after (inr u) =
        subst (λ t. Trapped s (finish t (next_cycle s) l) l.trap) (sym u.state)
          (finish-Trapped s (next_cycle s) l w u.pc u.exception nz)

-- MRET right after the entry into a trap, from a program counter of 32 bits, undoes it: privilege and
-- interrupt enable are as before, and execution goes on at `mepc`.
pub mret-enter_trap :
    (s : CpuState) (pc trap rval : ℕ) (l : Locals)
    → pc < word
    → let c = enter_trap s.csrs pc trap rval in
      let f = mret (record s { csrs = c }) l in
      ((state_of f).csrs.extraflags ≡ s.csrs.extraflags)
      × ((state_of f).csrs.mstatus / 8 % 2 ≡ s.csrs.mstatus / 8 % 2)
      × (add32 (locals_of f l).pc 4 ≡ c.mepc)
unfolding mret enter_trap
mret-enter_trap s pc trap rval l h = (omega arith, omega arith, ground arith)
