-- ===== src/Sbi/Ecall.antt =====
-- OS_Spring_2026/course_3/opensbi/lib/sbi/sbi_ecall.c: the table of extensions and the call of a handler.
pub mod Table
mod Tests
use inside_system.Prelude.{
  ℕ, ◌+◌, ◌-◌, ◌^◌, ◌%◌, Bool, true, false, List, [], ◌∷◌, ◌++◌, Option, none, some, ltb, leb, ◌==◌,
  ◌&&◌, ◌||◌, if◌then◌else◌,
}
use inside_system.Sbi.Status.{Status, Status.einval, ok}

-- An int: n, and -1 - n.
pub data ℤ : Type 0 where
  pos negsuc : ℕ → ℤ

-- `struct sbi_trap_regs`, the registers that the handler of calls uses; a handler also changes `rest`.
pub record Regs (W : Type 0) : Type 0 where
  pub mepc : ℕ
  pub a0 : ℕ
  pub a1 : ℕ
  pub a6 : ℕ
  pub a7 : ℕ
  pub rest : W

-- `struct sbi_ecall_return`
pub record Return : Type 0 where
  pub skip_regs_update : Bool
  pub value : ℕ

abbrev pub Handler : Type 0 → Type 0
Handler W = ℕ → ℕ → Regs W → ℤ × Return × Regs W

-- `struct sbi_ecall_extension`, with its address.
pub record Extension (W : Type 0) : Type 0 where
  pub address : ℕ
  pub extid_start : ℕ
  pub extid_end : ℕ
  pub handle : Option (Handler W)

abbrev pub serves : {W : Type 0} → ℕ → Extension W → Bool
serves extid t = leb t.extid_start extid && leb extid t.extid_end

unfoldable pub sbi_ecall_find_extension :
    {W : Type 0} → ℕ → List (Extension W) → Option (Extension W)
sbi_ecall_find_extension extid [] = none
sbi_ecall_find_extension extid (t ∷ ts) =
    if serves extid t then some t else sbi_ecall_find_extension extid ts

-- `no overlap`, with each extension of the list.
unfoldable pub is_apart : {W : Type 0} → Extension W → List (Extension W) → Bool
is_apart ext [] = true
is_apart ext (t ∷ ts) =
    (ltb t.extid_end ext.extid_start || ltb ext.extid_end t.extid_start) && is_apart ext ts

abbrev pub has_handler : {W : Type 0} → Option (Handler W) → Bool
has_handler none = false
has_handler (some f) = true

-- `sbi_ecall_register_extension` of an extension that is not null.
unfoldable pub register_extension :
    {W : Type 0} → Extension W → List (Extension W) → Status × List (Extension W)
register_extension ext ts =
    if ltb ext.extid_end ext.extid_start
    then (einval, ts)
    else if has_handler ext.handle
    then if is_apart ext ts then (ok, ts ++ (ext ∷ [])) else (einval, ts)
    else (einval, ts)

abbrev pub sbi_ecall_register_extension :
    {W : Type 0} → Option (Extension W) → List (Extension W) → Status × List (Extension W)
sbi_ecall_register_extension none ts = (einval, ts)
sbi_ecall_register_extension (some ext) ts = register_extension ext ts

-- `sbi_ecall_unregister_extension` of the extension at an address that is not null.
unfoldable pub sbi_ecall_unregister_extension :
    {W : Type 0} → ℕ → List (Extension W) → List (Extension W)
sbi_ecall_unregister_extension ext [] = []
sbi_ecall_unregister_extension ext (t ∷ ts) =
    if t.address == ext then ts else t ∷ sbi_ecall_unregister_extension ext ts

-- `ret` in a register of 64 bits.
abbrev pub as_ulong : ℤ → ℕ
as_ulong (pos n) = n
as_ulong (negsuc n) = 2 ^ 64 - 1 - n

-- `SBI_LAST_ERR` is -14; the call 2, which reads a character, may give a positive number.
abbrev pub checked_ret : ℕ → ℤ → ℤ
checked_ret extid (pos n) = if extid == 2 then pos n else if n == 0 then pos n else negsuc 0
checked_ret extid (negsuc n) = if ltb 13 n then negsuc 0 else negsuc n

-- `legacy` is `is_0_1_spec`.
abbrev pub write_result : {W : Type 0} → ℕ → Bool → ℤ → Return → Regs W → Regs W
write_result extid legacy ret out regs = if out.skip_regs_update then regs else record regs {
  mepc = (regs.mepc + 4) % 2 ^ 64;
  a0 = as_ulong (checked_ret extid ret);
  a1 = if legacy then regs.a1 else out.value;
}

abbrev pub nothing : Return
nothing = record { skip_regs_update = false; value = 0 }

abbrev pub call_handler : {W : Type 0} → Option (Handler W) → Regs W → Regs W
call_handler none regs = write_result regs.a7 false (negsuc 1) nothing regs
call_handler (some handle) regs =
    let out = handle regs.a7 regs.a6 regs in write_result regs.a7 (leb regs.a7 8) out.0 out.1 out.2

abbrev pub handle_with : {W : Type 0} → Option (Extension W) → Regs W → Regs W
handle_with none regs = call_handler none regs
handle_with (some ext) regs = call_handler ext.handle regs

unfoldable pub sbi_ecall_handler : {W : Type 0} → List (Extension W) → Regs W → Regs W
sbi_ecall_handler ts regs = handle_with (sbi_ecall_find_extension regs.a7 ts) regs
