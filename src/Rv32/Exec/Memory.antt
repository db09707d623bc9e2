-- ===== src/Rv32/Exec/Memory.antt =====
-- Loads, stores and atomics: the cases 0x03, 0x23 and 0x2f.
use Prim.Native.Nat.{bit_and, bit_or, bit_xor}
use inside_system.Prelude.{
  ℕ, ◌+◌, ◌*◌, ◌/◌, ◌%◌, ◌^◌, Bool, ◌&&◌, Option, none, some, ltb, leb, ◌==◌, if◌then◌else◌,
}
use inside_system.Rv32.Words.{add32, sub32, lts}
use inside_system.Rv32.State.{Csrs, CpuState, Locals, Flow, go, leave}
use inside_system.Rv32.Decode.{imm_i, imm_s, funct3, rs1_index, rs2_index}
use inside_system.Rv32.Bytes.{load8, load16, load32, store8, store16, store32, sext8, sext16}

-- `a >= state->mem_size - 3`
abbrev pub outside : CpuState → ℕ → Bool
outside s a = leb (sub32 s.mem_size 3) a

-- `a >= 0x10000000 && a < 0x12000000`
abbrev pub is_mmio : ℕ → Bool
is_mmio a = leb 0x10000000 a && ltb a 0x12000000

-- The switch of a load from RAM; `none` is its default case.
unfoldable pub load_ram : ℕ → (ℕ → ℕ) → ℕ → Option ℕ
load_ram op m a =
    if op == 0
    then some (sext8 (load8 m a))
    else if op == 1
    then some (sext16 (load16 m a))
    else if op == 2
    then some (load32 m a)
    else if op == 4
    then some (load8 m a)
    else if op == 5
    then some (load16 m a)
    else none

abbrev pub loaded : Option ℕ → Locals → Locals
loaded none l = record l { trap = 3 }
loaded (some v) l = record l { rval = v }

-- A load outside RAM at the address `a`: the timer, other devices, or a fault.
unfoldable pub load_mmio : Csrs → ℕ → Locals → Locals
load_mmio c a l =
    if is_mmio a
    then if a == 0x1100bffc
      then record l { rval = c.timerh }
      else if a == 0x1100bff8
      then record l { rval = c.timerl }
      else l
    else record l { trap = 6; rval = a }

unfoldable pub exec_load : CpuState → ℕ → Locals → Flow
unfolding load_ram load_mmio
exec_load s ir l =
    let rsval = sub32 (add32 (s.regs (rs1_index ir)) (imm_i ir)) s.mem_offset in
    if outside s rsval
    then go s (load_mmio s.csrs (add32 rsval s.mem_offset) l)
    else go s (loaded (load_ram (funct3 ir) s.mem rsval) l)

-- The switch of a store to RAM; `none` is its default case.
unfoldable pub store_ram : ℕ → (ℕ → ℕ) → ℕ → ℕ → Option (ℕ → ℕ)
store_ram op m a v =
    if op == 0
    then some (store8 m a v)
    else if op == 1
    then some (store16 m a v)
    else if op == 2
    then some (store32 m a v)
    else none

abbrev pub stored : CpuState → Option (ℕ → ℕ) → Locals → Flow
stored s none l = go s (record l { trap = 3 })
stored s (some m) l = go (record s { mem = m }) l

-- A store outside RAM: the timer's match register, the system controller, other devices, a fault.
unfoldable pub store_mmio : CpuState → ℕ → ℕ → Locals → Flow
store_mmio s a v l =
    if is_mmio a
    then if a == 0x11004004
      then go (record s { csrs = record s.csrs { timermatchh = v } }) l
      else if a == 0x11004000
      then go (record s { csrs = record s.csrs { timermatchl = v } }) l
      else if a == 0x11100000
      then leave v (record s { csrs = record s.csrs { pc = add32 l.pc 4 } })
      else go s l
    else go s (record l { trap = 8; rval = a })

unfoldable pub exec_store : CpuState → ℕ → Locals → Flow
unfolding store_ram store_mmio
exec_store s ir l =
    let rs2 = s.regs (rs2_index ir) in
    let addy = add32 (imm_s ir) (sub32 (s.regs (rs1_index ir)) s.mem_offset) in
    let l0 = record l { rdid = 0 } in
    if outside s addy
    then store_mmio s (add32 addy s.mem_offset) rs2 l0
    else stored s (store_ram (funct3 ir) s.mem addy rs2) l0

-- The switch of an atomic on RAM at offset `a`, where `v` is the word there: the value written, or
-- none. LR.W (2) and SC.W (3) are the reservation's.
unfoldable pub amo_value : ℕ → ℕ → ℕ → Option ℕ
amo_value op v rs2 =
    if op == 1
    then some rs2
    else if op == 0
    then some (add32 rs2 v)
    else if op == 4
    then some (bit_xor rs2 v)
    else if op == 12
    then some (bit_and rs2 v)
    else if op == 8
    then some (bit_or rs2 v)
    else if op == 16
    then some (if lts rs2 v then rs2 else v)
    else if op == 20
    then some (if lts v rs2 then rs2 else v)
    else if op == 24
    then some (if ltb rs2 v then rs2 else v)
    else if op == 28
    then some (if ltb v rs2 then rs2 else v)
    else none

abbrev pub amo_write : CpuState → ℕ → ℕ → Option ℕ → Locals → Flow
amo_write s a v none l = go s (record l { rval = v; trap = 3 })
amo_write s a v (some w) l = go (record s { mem = store32 s.mem a w }) (record l { rval = v })

-- The reservation is in `extraflags`, above its three lowest bits.
unfoldable pub load_reserved : CpuState → ℕ → Locals → Flow
load_reserved s a l =
    go (record s { csrs = record s.csrs { extraflags = s.csrs.extraflags % 8 + a * 8 % 2 ^ 32 } })
      (record l { rval = load32 s.mem a })

unfoldable pub store_conditional : CpuState → ℕ → ℕ → Locals → Flow
store_conditional s a rs2 l =
    if s.csrs.extraflags / 8 == a % 2 ^ 29
    then go (record s { mem = store32 s.mem a rs2 }) (record l { rval = 0 })
    else go s (record l { rval = 1 })

unfoldable pub exec_amo : CpuState → ℕ → Locals → Flow
unfolding amo_value load_reserved store_conditional
exec_amo s ir l =
    let rs1 = sub32 (s.regs (rs1_index ir)) s.mem_offset in
    let rs2 = s.regs (rs2_index ir) in
    let irmid = ir / 2 ^ 27 % 32 in
    if outside s rs1
    then go s (record l { trap = 8; rval = add32 rs1 s.mem_offset })
    else if irmid == 2
    then load_reserved s rs1 l
    else if irmid == 3
    then store_conditional s rs1 rs2 l
    else let v = load32 s.mem rs1 in amo_write s rs1 v (amo_value irmid v rs2) l
