-- ===== src/Sbi/Hsm/Tests.antt =====
-- A hart on a platform with no device of its own, and the theorems about it.
use inside_system.Prelude.{ℕ, ◌≡◌, refl, true, none, some, inl, if◌then◌else◌}
use inside_system.Sbi.Status.{ok, einval}
use inside_system.Sbi.Hsm.{
  HartCsrs, Hart, Platform, started, stopped, suspended, leave, warmboot, change_state,
  device_hart_suspend, has_hart_hotplug, has_hart_secondary_boot, ticket_acquire,
}
use inside_system.Sbi.Hsm.Calls.{
  sbi_hsm_hart_start_finish, start_ticketed, sbi_hsm_hart_start, is_ok, is_notsupp,
}
use inside_system.Sbi.Hsm.Suspend.{sbi_hsm_hart_suspend, suspend_refused}
use inside_system.Sbi.Hsm.Steps.{Stepped, Reached-Stepped}
use inside_system.Sbi.Hsm.Machine.{
  start_call, start_finish_call, stop_call, after, no_call, one_call,
}
use inside_system.Sbi.Hsm.Resume.{
  Runs, resumed, start_finish-start_ticketed, resumed-suspend, resumed-start,
}

abbrev platform : Platform
platform = record {
  hsm_dev = none;
  has_domain = true;
  executable = λ addr mode. true;
  init_count = 1;
  entry_count = 1;
  ipi_raw_send = ok;
  warmboot_addr = 0x80000000;
  priv_1_12 = true;
}

abbrev csrs : HartCsrs
csrs = record { mie = 0x222; mip = 0; medeleg = 0xb109; menvcfg = 0 }

abbrev hart : ℕ → Hart
hart state = record {
  hdata = record {
    state = state;
    suspend_type = 0;
    saved_mie = 0;
    saved_mip = 0;
    saved_medeleg = 0;
    saved_menvcfg = 0;
    start_ticket = 0;
  };
  next_arg1 = 0;
  next_addr = 0;
  next_mode = 0;
  csrs = csrs;
}

abbrev launch_calls : Hart
launch_calls =
    after platform start_finish_call (after platform (start_call 1 0x80200000 1 7) (hart stopped))

Reached-Stepped_example : Stepped platform (stop_call true) launch_calls
Reached-Stepped_example =
    Reached-Stepped (hart stopped) launch_calls platform (stop_call true) (inl refl) (
      one_call _ platform start_finish_call
        (one_call _ platform (start_call 1 0x80200000 1 7) no_call))

start_is_ok : is_ok (start_ticketed platform 1 0x80200000 1 7 (hart stopped)).0 ≡ true
unfolding start_ticketed is_ok has_hart_hotplug has_hart_secondary_boot ticket_acquire
start_is_ok = refl

start_finish-start_ticketed_example :
    Runs 7 0x80200000 1
      (sbi_hsm_hart_start_finish (start_ticketed platform 1 0x80200000 1 7 (hart stopped)).1)
    × ((sbi_hsm_hart_start_finish
          (start_ticketed platform 1 0x80200000 1 7 (hart stopped)).1).1.hdata.start_ticket
        ≡ 0)
start_finish-start_ticketed_example =
    start_finish-start_ticketed platform 1 0x80200000 1 7 (hart stopped) start_is_ok

suspend_leaves :
    (sbi_hsm_hart_suspend platform 0x80000000 0x80300000 1 9 (hart started)).0 ≡ leave warmboot
unfolding sbi_hsm_hart_suspend suspend_refused change_state device_hart_suspend is_notsupp is_ok
suspend_leaves = refl

resumed-suspend_example :
    let r =
      resumed platform
        (sbi_hsm_hart_suspend platform 0x80000000 0x80300000 1 9 (hart started)).1
        csrs in
    Runs 9 0x80300000 1 r
    × (r.1.csrs.mie ≡ 0x222)
    × (r.1.csrs.medeleg ≡ 0xb109)
    × ((if true then r.1.csrs.menvcfg else 0) ≡ 0)
resumed-suspend_example =
    resumed-suspend platform 0x80000000 0x80300000 1 9 (hart started) csrs refl suspend_leaves

resumed-start_example :
    (g : Hart) × (sbi_hsm_hart_start platform none 1 0x80200000 1 7 (some (hart suspended))
      ≡ (einval, some g))
    × Runs 7 0x80200000 1 (resumed platform g csrs)
resumed-start_example =
    resumed-start platform platform none 1 0x80200000 1 7 (hart suspended) csrs refl refl refl refl
