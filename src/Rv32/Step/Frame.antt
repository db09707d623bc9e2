-- ===== src/Rv32/Step/Frame.antt =====
-- What the cases of the opcode switch leave alone: the registers, which are written at the end of
-- the step, the bounds of the memory, and all bytes past its end.
use inside_system.Prelude.{
  ℕ, ◌+◌, ◌/◌, ◌%◌, ◌^◌, ◌≤◌, ◌<◌, ◌≡◌, refl, false, Bool-cases, inl, inr, arith, Option, none,
  some, ◌==◌,
}
use inside_system.Rv32.Words.{word, add32, sub32}
use inside_system.Rv32.State.{CpuState, Locals, Flow, go, leave}
use inside_system.Rv32.Decode.{imm_s, funct3, rs1_index}
use inside_system.Rv32.Bytes.{store8, store16, store32}
use inside_system.Rv32.Exec.{
  exec_lui, exec_auipc, exec_jal, exec_jalr, exec_branch, exec_load, exec_store, exec_amo, exec_op,
  exec_fence, exec_system, store_ram, store_mmio, stored, outside, load_reserved, store_conditional,
  amo_write, amo_value,
}
use inside_system.Rv32.Step.{execute}

pub record Kept (s s' : CpuState) : Type 0 where
  pub regs : s'.regs ≡ s.regs
  pub mem_size : s'.mem_size ≡ s.mem_size
  pub mem_offset : s'.mem_offset ≡ s.mem_offset
  pub past_end : (i : ℕ) → s.mem_size ≤ i → s'.mem i ≡ s.mem i

abbrev pub Keeps : CpuState → Flow → Type 0
Keeps s (go s' l) = Kept s s'
Keeps s (leave r s') = Kept s s'

-- The size allows the test `a >= mem_size - 3` to say that four bytes at `a` are inside.
pub record Sized (s : CpuState) : Type 0 where
  pub three : 3 ≤ s.mem_size
  pub fits : s.mem_size < word

inside : (s : CpuState) (a : ℕ) → Sized s → outside s a ≡ false → a + 4 ≤ s.mem_size
inside s a z h = ground arith

pub Kept-refl : (s : CpuState) → Kept s s
Kept-refl s = record { regs = refl; mem_size = refl; mem_offset = refl; past_end = λ i h. refl }

-- A memory that agrees with the old one past the end.
Kept-mem :
    (s : CpuState) (m : ℕ → ℕ)
    → ((i : ℕ) → s.mem_size ≤ i → m i ≡ s.mem i)
    → Kept s (record s { mem = m })
Kept-mem s m h = record { regs = refl; mem_size = refl; mem_offset = refl; past_end = h }

store32-Kept :
    (s : CpuState) (a v : ℕ) → a + 4 ≤ s.mem_size → Kept s (record s { mem = store32 s.mem a v })
unfolding store32
store32-Kept s a v h = Kept-mem s _ (λ i k. ground arith)

stored-Keeps :
    (s : CpuState) (op a v : ℕ) (l : Locals)
    → a + 4 ≤ s.mem_size
    → Keeps s (stored s (store_ram op s.mem a v) l)
unfolding store_ram store8 store16
stored-Keeps s op a v l h = elim (Bool-cases (op == 0)) [
  | inl e ↦ rw e (Kept-mem s _ (λ i k. ground arith))
  | inr n ↦ rw n (elim (Bool-cases (op == 1)) [
    | inl e ↦ rw e (Kept-mem s _ (λ i k. ground arith))
    | inr n ↦ rw n (elim (Bool-cases (op == 2)) [
      | inl e ↦ rw e (store32-Kept s a v h)
      | inr n ↦ rw n (Kept-refl s)
    ])
  ])
]

store_mmio-Keeps : (s : CpuState) (a v : ℕ) (l : Locals) → Keeps s (store_mmio s a v l)
unfolding store_mmio
store_mmio-Keeps s a v l = ground arith

exec_store-Keeps : (s : CpuState) (ir : ℕ) (l : Locals) → Sized s → Keeps s (exec_store s ir l)
unfolding exec_store
exec_store-Keeps s ir l z = elim (Bool-cases (outside s addy)) [
  | inl e ↦ rw e (store_mmio-Keeps s (add32 addy s.mem_offset) _ _)
  | inr n ↦ rw n (stored-Keeps s (funct3 ir) addy _ _ (inside s addy z n))
]
  where
    addy : ℕ
    addy = add32 (imm_s ir) (sub32 (s.regs (rs1_index ir)) s.mem_offset)

amo_write-Keeps :
    (s : CpuState) (a v : ℕ) (o : Option ℕ) (l : Locals)
    → a + 4 ≤ s.mem_size
    → Keeps s (amo_write s a v o l)
amo_write-Keeps s a v none l h = Kept-refl s
amo_write-Keeps s a v (some w) l h = store32-Kept s a w h

store_conditional-Keeps :
    (s : CpuState) (a v : ℕ) (l : Locals) → a + 4 ≤ s.mem_size → Keeps s (store_conditional s a v l)
unfolding store_conditional
store_conditional-Keeps s a v l h = ground (arith, store32-Kept s a v h)

load_reserved-Keeps : (s : CpuState) (a : ℕ) (l : Locals) → Keeps s (load_reserved s a l)
unfolding load_reserved
load_reserved-Keeps s a l = ground arith

exec_amo-Keeps : (s : CpuState) (ir : ℕ) (l : Locals) → Sized s → Keeps s (exec_amo s ir l)
unfolding exec_amo
exec_amo-Keeps s ir l z = elim (Bool-cases (outside s rs1)) [
  | inl e ↦ rw e (Kept-refl s)
  | inr n ↦ rw n (elim (Bool-cases (irmid == 2)) [
    | inl e ↦ rw e (load_reserved-Keeps s rs1 l)
    | inr n2 ↦ rw n2 (elim (Bool-cases (irmid == 3)) [
      | inl e ↦ rw e (store_conditional-Keeps s rs1 _ l (inside s rs1 z n))
      | inr n3 ↦ rw n3 (amo_write-Keeps s rs1 _ (amo_value irmid _ _) l (inside s rs1 z n))
    ])
  ])
]
  where
    rs1 : ℕ
    rs1 = sub32 (s.regs (rs1_index ir)) s.mem_offset

    irmid : ℕ
    irmid = ir / 2 ^ 27 % 32

exec_load-Keeps : (s : CpuState) (ir : ℕ) (l : Locals) → Keeps s (exec_load s ir l)
unfolding exec_load
exec_load-Keeps s ir l = ground arith

exec_branch-Keeps : (s : CpuState) (ir : ℕ) (l : Locals) → Keeps s (exec_branch s ir l)
unfolding exec_branch
exec_branch-Keeps s ir l = Kept-refl s

exec_system-Keeps : (s : CpuState) (ir cycle : ℕ) (l : Locals) → Keeps s (exec_system s ir cycle l)
unfolding exec_system
exec_system-Keeps s ir cycle l = ground arith

exec_op-Keeps : (s : CpuState) (ir : ℕ) (l : Locals) → Keeps s (exec_op s ir l)
unfolding exec_op
exec_op-Keeps s ir l = Kept-refl s

-- No case touches the registers or a byte past the end of the memory.
pub execute-Keeps :
    (s : CpuState) (ir cycle : ℕ) (l : Locals) → Sized s → Keeps s (execute s ir cycle l)
unfolding execute exec_lui exec_auipc exec_jal exec_jalr exec_fence
execute-Keeps s ir cycle l z = ground (
  arith,
  exec_branch-Keeps s ir l,
  exec_load-Keeps s ir l,
  exec_store-Keeps s ir l z,
  exec_op-Keeps s ir l,
  exec_system-Keeps s ir cycle l,
  exec_amo-Keeps s ir l z,
)
