-- ===== src/Sbi/Hsm.antt =====
-- OS_Spring_2026/course_3/opensbi/lib/sbi/sbi_hsm.c: the states of the harts. Calls are modelled one
-- after the other. What the other parts of the firmware answer is in `Platform`.
pub mod Calls
pub mod Suspend
pub mod Moves
pub mod Machine
pub mod Steps
pub mod Resume
pub mod Tests
use Prim.Native.Nat.{bit_and, bit_or}
use inside_system.Prelude.{
  ℕ, zero, suc, ◌-◌, ◌^◌, Bool, true, false, Option, none, some, ltb, leb, ◌==◌, ◌&&◌, ◌||◌,
  if◌then◌else◌,
}
use inside_system.Sbi.Status.{Status, code, ok, enotsupp}

-- `SBI_HSM_STATE_*`
abbrev pub started : ℕ
started = 0

abbrev pub stopped : ℕ
stopped = 1

abbrev pub start_pending : ℕ
start_pending = 2

abbrev pub stop_pending : ℕ
stop_pending = 3

abbrev pub suspended : ℕ
suspended = 4

abbrev pub suspend_pending : ℕ
suspend_pending = 5

abbrev pub resume_pending : ℕ
resume_pending = 6

-- `struct sbi_hsm_data`, for 64 bits.
pub record HsmData : Type 0 where
  pub state : ℕ
  pub suspend_type : ℕ
  pub saved_mie : ℕ
  pub saved_mip : ℕ
  pub saved_medeleg : ℕ
  pub saved_menvcfg : ℕ
  pub start_ticket : ℕ

-- The registers that a non-retentive suspend saves.
pub record HartCsrs : Type 0 where
  pub mie : ℕ
  pub mip : ℕ
  pub medeleg : ℕ
  pub menvcfg : ℕ

-- A hart: its data, the fields of its scratch area that say where it goes on, and its registers.
pub record Hart : Type 0 where
  pub hdata : HsmData
  pub next_arg1 : ℕ
  pub next_addr : ℕ
  pub next_mode : ℕ
  pub csrs : HartCsrs

-- `struct sbi_hsm_device`: the calls that a platform has. Inside, `none` is a call that does not
-- return: a hart that has stopped, or that goes on at the warm boot entry.
pub record HsmDevice : Type 0 where
  pub hart_start : Option (ℕ → ℕ → Status)
  pub hart_stop : Option (Option Status)
  pub hart_suspend : Option (ℕ → ℕ → Option Status)
  pub hart_resume : Option (HartCsrs → HartCsrs)

-- What the caller's domain, the boot counts, the IPI and the hart itself answer. `executable` is
-- `sbi_domain_check_addr` for execution, `has_domain` that the hart has a domain.
pub record Platform : Type 0 where
  pub hsm_dev : Option HsmDevice
  pub has_domain : Bool
  pub executable : ℕ → ℕ → Bool
  pub init_count : ℕ
  pub entry_count : ℕ
  pub ipi_raw_send : Status
  pub warmboot_addr : ℕ
  pub priv_1_12 : Bool

-- Where a hart goes when a function does not return.
pub data Leave : Type 0 where
  hang : Leave
  off : Leave
  warmboot : Leave
  switch_mode : ℕ → ℕ → ℕ → Leave

-- A function that may return.
pub data Exit : Type 0 where
  back : Status → Exit
  leave : Leave → Exit

-- `__sbi_hsm_hart_change_state`: whether the state was `oldstate`, and the data after it.
unfoldable pub change_state : ℕ → ℕ → HsmData → Bool × HsmData
change_state oldstate newstate d =
    if d.state == oldstate then (true, record d { state = newstate }) else (false, d)

-- `hsm_start_ticket_acquire`
unfoldable pub ticket_acquire : HsmData → Bool × HsmData
ticket_acquire d = if d.start_ticket == 0 then (true, record d { start_ticket = 1 }) else (false, d)

-- `hsm_start_ticket_release`
abbrev pub ticket_release : HsmData → HsmData
ticket_release d = record d { start_ticket = 0 }

abbrev pub with_data : Hart → HsmData → Hart
with_data h d = record h { hdata = d }

-- Whether a call is there.
abbrev pub is_there {ℓ} : {A : Type ℓ} → Option A → Bool
is_there none = false
is_there (some a) = true

unfoldable pub has_hart_hotplug : Option HsmDevice → Bool
has_hart_hotplug none = false
has_hart_hotplug (some dev) = is_there dev.hart_start && is_there dev.hart_stop

unfoldable pub has_hart_secondary_boot : Option HsmDevice → Bool
has_hart_secondary_boot none = false
has_hart_secondary_boot (some dev) =
    is_there dev.hart_start && (if is_there dev.hart_stop then false else true)

abbrev pub call_start : Option (ℕ → ℕ → Status) → ℕ → ℕ → Status
call_start none hartid saddr = enotsupp
call_start (some f) hartid saddr = f hartid saddr

unfoldable pub device_hart_start : Option HsmDevice → ℕ → ℕ → Status
device_hart_start none hartid saddr = enotsupp
device_hart_start (some dev) hartid saddr = call_start dev.hart_start hartid saddr

abbrev pub call_stop : Option (Option Status) → Option Status
call_stop none = some enotsupp
call_stop (some r) = r

unfoldable pub device_hart_stop : Option HsmDevice → Option Status
device_hart_stop none = some enotsupp
device_hart_stop (some dev) = call_stop dev.hart_stop

abbrev pub call_suspend : Option (ℕ → ℕ → Option Status) → ℕ → ℕ → Option Status
call_suspend none suspend_type raddr = some enotsupp
call_suspend (some f) suspend_type raddr = f suspend_type raddr

unfoldable pub device_hart_suspend : Option HsmDevice → ℕ → ℕ → Option Status
device_hart_suspend none suspend_type raddr = some enotsupp
device_hart_suspend (some dev) suspend_type raddr = call_suspend dev.hart_suspend suspend_type raddr

abbrev pub call_resume : Option (HartCsrs → HartCsrs) → HartCsrs → HartCsrs
call_resume none c = c
call_resume (some f) c = f c

unfoldable pub device_hart_resume : Option HsmDevice → HartCsrs → HartCsrs
device_hart_resume none c = c
device_hart_resume (some dev) c = call_resume dev.hart_resume c

-- `sbi_hsm_set_device`: the first device stays.
unfoldable pub sbi_hsm_set_device : Option HsmDevice → Option HsmDevice → Option HsmDevice
sbi_hsm_set_device none hsm_dev = hsm_dev
sbi_hsm_set_device (some dev) none = some dev
sbi_hsm_set_device (some dev) (some old) = some old
