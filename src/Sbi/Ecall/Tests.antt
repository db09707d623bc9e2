-- ===== src/Sbi/Ecall/Tests.antt =====
-- Calls of extensions at concrete inputs.
use inside_system.Prelude.{◌≡◌, ◌⊎◌, refl, ℕ, suc, false, [], ◌∷◌, some}
use inside_system.Sbi.Status.{Status.einval}
use inside_system.Sbi.Ecall.Table.{Refused, Registered, are_ranges, register_extension-Outcome}
use inside_system.Sbi.Ecall.{
  pos, negsuc, Regs, Handler, Extension, sbi_ecall_find_extension, is_apart, register_extension,
  sbi_ecall_unregister_extension, sbi_ecall_handler,
}

-- Gives 7; the rest of the registers counts the calls.
abbrev give_7 : Handler ℕ
give_7 extid funcid regs =
    (pos 0, record { skip_regs_update = false; value = 7 }, record regs { rest = suc regs.rest })

-- Gives -15, below the last error.
abbrev give_bad : Handler ℕ
give_bad extid funcid regs = (negsuc 14, record { skip_regs_update = false; value = 9 }, regs)

abbrev base : Extension ℕ
base = record { address = 100; extid_start = 16; extid_end = 16; handle = some give_7 }

abbrev legacy : Extension ℕ
legacy = record { address = 200; extid_start = 0; extid_end = 15; handle = some give_bad }

abbrev regs : ℕ → Regs ℕ
regs extid = record { mepc = 64; a0 = 1; a1 = 2; a6 = 0; a7 = extid; rest = 0 }

register_extension-Outcome_example : Refused legacy (base ∷ []) ⊎ Registered legacy (base ∷ [])
unfolding are_ranges
register_extension-Outcome_example = register_extension-Outcome legacy (base ∷ []) refl

register_extension-meets :
    register_extension legacy (legacy ∷ base ∷ []) ≡ (einval, legacy ∷ base ∷ [])
unfolding register_extension is_apart
register_extension-meets = refl

unregister-middle : sbi_ecall_unregister_extension 100 (legacy ∷ base ∷ []) ≡ legacy ∷ []
unfolding sbi_ecall_unregister_extension
unregister-middle = refl

handler-value :
    sbi_ecall_handler (legacy ∷ base ∷ []) (regs 16)
    ≡ record { mepc = 68; a0 = 0; a1 = 7; a6 = 0; a7 = 16; rest = 1 }
unfolding sbi_ecall_handler sbi_ecall_find_extension
handler-value = refl

-- A result below the last error is given as -1, and a call of the old kind keeps a1.
handler-legacy :
    sbi_ecall_handler (legacy ∷ base ∷ []) (regs 8)
    ≡ record { mepc = 68; a0 = 18446744073709551615; a1 = 2; a6 = 0; a7 = 8; rest = 0 }
unfolding sbi_ecall_handler sbi_ecall_find_extension
handler-legacy = refl

-- With no extension, SBI_ENOTSUPP.
handler-unknown :
    sbi_ecall_handler (base ∷ []) (regs 17)
    ≡ record { mepc = 68; a0 = 18446744073709551614; a1 = 0; a6 = 0; a7 = 17; rest = 0 }
unfolding sbi_ecall_handler sbi_ecall_find_extension
handler-unknown = refl
