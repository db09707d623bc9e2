-- ===== src/Sbi/Hsm/Suspend.antt =====
-- `sbi_hsm_hart_suspend` of sbi_hsm.c.
use inside_system.Prelude.{
  ℕ, ◌/◌, ◌%◌, ◌^◌, Bool, Option, none, some, ltb, ◌==◌, ◌&&◌, ◌||◌, if◌then◌else◌,
}
use inside_system.Sbi.Status.{Status, ok, efail, einval, einvalid_addr}
use inside_system.Sbi.Hsm.{
  HsmData, HartCsrs, Hart, Platform, hang, warmboot, Exit, back, leave, started, suspended,
  change_state, with_data, device_hart_suspend,
}
use inside_system.Sbi.Hsm.Calls.{is_s_or_u, is_ok, is_notsupp, non_ret_save, prepared}

-- `SBI_HSM_SUSPEND_*_DEFAULT` and `_PLATFORM`
abbrev pub ret_default : ℕ
ret_default = 0

abbrev pub ret_platform : ℕ
ret_platform = 0x10000000

abbrev pub non_ret_default : ℕ
non_ret_default = 0x80000000

abbrev pub non_ret_platform : ℕ
non_ret_platform = 0x90000000

-- `suspend_type & SBI_HSM_SUSP_NON_RET_BIT`
abbrev pub is_non_ret : ℕ → Bool
is_non_ret suspend_type = suspend_type / 2 ^ 31 % 2 == 1

-- The sanity checks.
unfoldable pub suspend_refused : Platform → ℕ → ℕ → ℕ → Option Status
suspend_refused pl suspend_type raddr rmode =
    if pl.has_domain
    then if ltb ret_default suspend_type && ltb suspend_type ret_platform
      then some einval
      else if ltb non_ret_default suspend_type && ltb suspend_type non_ret_platform
      then some einval
      else if is_non_ret suspend_type
      then if is_s_or_u rmode
        then if pl.executable raddr rmode then none else some einvalid_addr
        else some efail
      else none
    else some efail

-- What the platform gives, or the wait for an interrupt in its place.
abbrev pub or_default : ℕ → Status → Status
or_default suspend_type ret =
    if is_notsupp ret && (suspend_type == ret_default || suspend_type == non_ret_default)
    then ok
    else ret

-- The end of the function, with the hart suspended. `none` is a hart that goes on at the warm boot
-- entry by itself.
abbrev pub suspend_end : ℕ → Hart → Option Status → Exit × Hart
suspend_end suspend_type h none = (leave warmboot, h)
suspend_end suspend_type h (some r) =
    let ret = or_default suspend_type r in
    let (changed, d) = change_state suspended started h.hdata in
    if is_ok ret && is_non_ret suspend_type
    then (leave warmboot, h)
    else if changed
    then (back ret, with_data h d)
    else (leave hang, with_data h d)

abbrev pub saved : Platform → ℕ → HartCsrs → HsmData → HsmData
saved pl suspend_type c d = if is_non_ret suspend_type then non_ret_save pl.priv_1_12 c d else d

abbrev pub suspend_checked : Platform → ℕ → ℕ → ℕ → ℕ → Hart → Option Status → Exit × Hart
suspend_checked pl suspend_type raddr rmode arg1 h (some rc) = (back rc, h)
suspend_checked pl suspend_type raddr rmode arg1 h none =
    let (changed, d) = change_state started suspended h.hdata in
    let g = prepared h d raddr rmode arg1 in
    let e = saved pl suspend_type h.csrs (record d { suspend_type = suspend_type }) in
    if changed
    then suspend_end suspend_type (with_data g e)
        (device_hart_suspend pl.hsm_dev suspend_type pl.warmboot_addr)
    else (back efail, g)

unfoldable pub sbi_hsm_hart_suspend : Platform → ℕ → ℕ → ℕ → ℕ → Hart → Exit × Hart
sbi_hsm_hart_suspend pl suspend_type raddr rmode arg1 h =
    suspend_checked pl suspend_type raddr rmode arg1 h (suspend_refused pl suspend_type raddr rmode)
