-- ===== src/Sbi/Hsm/Calls.antt =====
-- The calls of sbi_hsm.c that change the state of a hart.
use Prim.Native.Nat.{bit_and, bit_or}
use inside_system.Prelude.{
  ℕ, zero, Bool, true, false, Option, none, some, ◌==◌, ◌&&◌, ◌||◌, if◌then◌else◌,
}
use inside_system.Sbi.Status.{Status, code, ok, efail, enotsupp, einval, einvalid_addr, ealready}
use inside_system.Sbi.Hsm.{
  HsmData, HartCsrs, Hart, Platform, Leave, hang, off, warmboot, switch_mode, Exit, back, leave,
  started, stopped, start_pending, stop_pending, suspended, resume_pending, change_state,
  ticket_acquire, ticket_release, with_data, has_hart_hotplug, has_hart_secondary_boot,
  device_hart_start, device_hart_stop, device_hart_resume,
}

-- `PRV_S` and `PRV_U`
abbrev pub is_s_or_u : ℕ → Bool
is_s_or_u mode = mode == 1 || mode == 0

-- `!rc`
unfoldable pub is_ok : Status → Bool
is_ok (code zero) = true
is_ok _ = false

unfoldable pub is_notsupp : Status → Bool
is_notsupp enotsupp = true
is_notsupp _ = false

-- `sbi_hsm_init` on a cold boot, for the hart at an index.
unfoldable pub sbi_hsm_init : Bool → HsmData → HsmData
sbi_hsm_init is_current d = record d {
  state = if is_current then start_pending else stopped;
  start_ticket = 0;
}

-- `sbi_hsm_hart_start_finish`
unfoldable pub sbi_hsm_hart_start_finish : Hart → Leave × Hart
sbi_hsm_hart_start_finish h =
    let (changed, d) = change_state start_pending started h.hdata in
    if changed
    then (switch_mode h.next_arg1 h.next_addr h.next_mode, with_data h (ticket_release d))
    else (hang, with_data h d)

abbrev pub exit_after : Option Status → Leave
exit_after none = off
exit_after (some r) = if is_notsupp r then warmboot else hang

-- `sbi_hsm_exit`
unfoldable pub sbi_hsm_exit : Platform → Hart → Leave × Hart
sbi_hsm_exit pl h =
    let (changed, d) = change_state stop_pending stopped h.hdata in
    if changed
    then if has_hart_hotplug pl.hsm_dev
      then (exit_after (device_hart_stop pl.hsm_dev), with_data h d)
      else (warmboot, with_data h d)
    else (hang, with_data h d)

-- The state after the compare and exchange that follows the ticket.
abbrev pub prepared : Hart → HsmData → ℕ → ℕ → ℕ → Hart
prepared h d saddr smode arg1 = record h {
  hdata = d;
  next_arg1 = arg1;
  next_addr = saddr;
  next_mode = smode;
}

abbrev pub launch : Platform → ℕ → Status
launch pl hartid =
    if (has_hart_hotplug pl.hsm_dev && pl.entry_count == pl.init_count)
      || (has_hart_secondary_boot pl.hsm_dev && pl.init_count == 0)
    then device_hart_start pl.hsm_dev hartid pl.warmboot_addr
    else pl.ipi_raw_send

-- `rc` and the end of the function: the ticket stays with a start that has succeeded.
abbrev pub launched : Hart → Status → Status × Hart
launched h rc =
    if is_ok rc
    then (rc, h)
    else (rc, with_data h (ticket_release (change_state start_pending stopped h.hdata).1))

-- `sbi_hsm_hart_start` from the ticket on; `h` is the hart to start.
unfoldable pub start_ticketed : Platform → ℕ → ℕ → ℕ → ℕ → Hart → Status × Hart
start_ticketed pl hartid saddr smode arg1 h =
    let (acquired, d) = ticket_acquire h.hdata in
    let hstate = d.state in
    let (_, e) = change_state stopped start_pending d in
    let g = prepared h e saddr smode arg1 in
    if acquired
    then if hstate == started
      then (ealready, with_data g (ticket_release e))
      else if hstate == stopped
      then launched g (launch pl hartid)
      else (einval, with_data g (ticket_release e))
    else (einval, with_data h d)

-- `sbi_hsm_hart_start`. `dom` is the caller's domain, if any: whether the hart is assigned to it, and
-- where it may execute. `none` for the hart is one without a scratch area.
abbrev pub allowed : Option (Bool × (ℕ → ℕ → Bool)) → ℕ → ℕ → Option Status
allowed none saddr smode = none
allowed (some (assigned, executable)) saddr smode =
    if assigned then if executable saddr smode then none else some einvalid_addr else some einval

abbrev pub start_hart : Platform → ℕ → ℕ → ℕ → ℕ → Option Hart → Status × Option Hart
start_hart pl hartid saddr smode arg1 none = (einval, none)
start_hart pl hartid saddr smode arg1 (some h) =
    let (rc, g) = start_ticketed pl hartid saddr smode arg1 h in (rc, some g)

abbrev pub unless_refused :
    Option Status → Option Hart → Status × Option Hart → Status × Option Hart
unless_refused (some rc) h r = (rc, h)
unless_refused none h r = r

unfoldable pub sbi_hsm_hart_start :
    Platform → Option (Bool × (ℕ → ℕ → Bool)) → ℕ → ℕ → ℕ → ℕ → Option Hart → Status × Option Hart
sbi_hsm_hart_start pl dom hartid saddr smode arg1 h =
    if is_s_or_u smode
    then unless_refused (allowed dom saddr smode) h (start_hart pl hartid saddr smode arg1 h)
    else (einval, h)

-- `sbi_hsm_hart_stop`. Of `sbi_exit`, the end is what touches the hart's state: `sbi_hsm_exit`.
unfoldable pub sbi_hsm_hart_stop : Platform → Bool → Hart → Exit × Hart
sbi_hsm_hart_stop pl exitnow h =
    let (changed, d) = change_state started stop_pending h.hdata in
    let (l, g) = sbi_hsm_exit pl (with_data h d) in
    if pl.has_domain
    then if changed
      then if exitnow then (leave l, g) else (back ok, with_data h d)
      else (back efail, with_data h d)
    else (back efail, h)

-- `MIP_SSIP | MIP_STIP`
abbrev pub mip_s_bits : ℕ
mip_s_bits = 0x22

-- `__sbi_hsm_suspend_non_ret_save`
unfoldable pub non_ret_save : Bool → HartCsrs → HsmData → HsmData
non_ret_save priv_1_12 c d = record d {
  saved_mie = c.mie;
  saved_mip = bit_and c.mip mip_s_bits;
  saved_medeleg = c.medeleg;
  saved_menvcfg = if priv_1_12 then c.menvcfg else d.saved_menvcfg;
}

-- `__sbi_hsm_suspend_non_ret_restore`
unfoldable pub non_ret_restore : Bool → HsmData → HartCsrs → HartCsrs
non_ret_restore priv_1_12 d c = record {
  mie = d.saved_mie;
  mip = bit_or c.mip (bit_and d.saved_mip mip_s_bits);
  medeleg = d.saved_medeleg;
  menvcfg = if priv_1_12 then d.saved_menvcfg else c.menvcfg;
}

-- `sbi_hsm_hart_resume_start`; `none` is a return.
unfoldable pub sbi_hsm_hart_resume_start : Platform → Hart → Option Leave × Hart
sbi_hsm_hart_resume_start pl h =
    let (changed, d) = change_state suspended resume_pending h.hdata in
    if changed
    then (none, record h { hdata = d; csrs = device_hart_resume pl.hsm_dev h.csrs })
    else (some hang, with_data h d)

-- `sbi_hsm_hart_resume_finish`
unfoldable pub sbi_hsm_hart_resume_finish : Platform → Hart → Leave × Hart
sbi_hsm_hart_resume_finish pl h =
    let (changed, d) = change_state resume_pending started h.hdata in
    if changed
    then (
      switch_mode h.next_arg1 h.next_addr h.next_mode,
      record h { hdata = d; csrs = non_ret_restore pl.priv_1_12 d h.csrs },
    )
    else (hang, with_data h d)
