-- ===== src/CrazyOs/Tests.antt =====
-- Two processes that end in an ECALL, and the theorems of crazy-os.c about them.
use inside_system.Prelude.{ℕ, ◌≡◌, refl, List, [], ◌∷◌, some, arith}
use inside_system.CrazyOs.{Proc, System, proc_init, sys_putchar, handle_ecall, turns, boot}
use inside_system.CrazyOs.Console.{Printed, sys_putchar-Printed}
use inside_system.CrazyOs.Ecall.{trapped, Returned, result_of, handle_ecall-Returned}
use inside_system.CrazyOs.Turns.{Running, turns-boot, Ready, boot-Ready}
use inside_system.Rv32.State.{Locals}

-- ECALL, low byte first.
abbrev image : List ℕ
image = 0x73 ∷ 0 ∷ 0 ∷ 0 ∷ []

abbrev proc : Proc
proc = record (proc_init image) { buf = b'h' ∷ b'i' ∷ [] }

abbrev locals : Locals
locals = record { pc = 0; trap = 0; rval = 0; rdid = 0 }

newline_flushes :
    sys_putchar proc b'\n' [] ≡ (0, record proc { buf = [] }, b'h' ∷ b'i' ∷ b'\n' ∷ [])
unfolding sys_putchar
newline_flushes = refl

sys_putchar-Printed_example : Printed proc b'\n' [] (sys_putchar proc b'\n' [])
sys_putchar-Printed_example = sys_putchar-Printed proc b'\n' [] (omega arith)

handle_ecall-Returned_example :
    ((trapped proc).cpu.csrs.mcause ≡ 8)
    × Returned proc (handle_ecall (trapped proc) []).0 (result_of proc)
unfolding proc_init
handle_ecall-Returned_example = handle_ecall-Returned proc [] refl

abbrev two : System
two = boot (image ∷ image ∷ [])

two-Ready : Ready two
two-Ready = boot-Ready (image ∷ image ∷ []) (cc)

turns-boot_example : (s : System) × (turns 5 two ≡ some s) × Running 5 (image ∷ image ∷ []) s
turns-boot_example = turns-boot 5 (image ∷ image ∷ []) (cc)
