-- ===== src/Rv32/Exec/Reservation.antt =====
-- LR.W and SC.W: the reservation made by the one and asked for by the other.
use inside_system.Prelude.{ℕ, ◌+◌, ◌*◌, ◌/◌, ◌%◌, ◌^◌, ◌≡◌, arith, ◌==◌, if◌then◌else◌}
use inside_system.Rv32.State.{CpuState, Locals, go}
use inside_system.Rv32.Bytes.{store32}
use inside_system.Rv32.Exec.Memory.{load_reserved, store_conditional}

slot : (e a : ℕ) → (e % 8 + a * 8 % 2 ^ 32) / 8 ≡ a % 2 ^ 29
slot e a = omega arith

-- Right after LR.W at offset `a`, SC.W at `b` writes its word and gives 0 if the lowest 29 bits of
-- the two are the same; else it writes nothing and gives 1.
store_conditional-load_reserved :
    (s t : CpuState) (a b v : ℕ) (l k m : Locals)
    → load_reserved s a l ≡ go t k
    → store_conditional t b v m ≡ (
        if a % 2 ^ 29 == b % 2 ^ 29
        then go (record t { mem = store32 s.mem b v }) (record m { rval = 0 })
        else go t (record m { rval = 1 }))
unfolding load_reserved store_conditional
store_conditional-load_reserved s t a b v l k m e = ground (arith, slot s.csrs.extraflags a)
