-- ===== src/Sbi/Hsm/Machine.antt =====
-- A hart under any sequence of the calls of sbi_hsm.c.
use inside_system.Prelude.{ℕ, Bool}
use inside_system.Sbi.Hsm.{Hart, Platform}
use inside_system.Sbi.Hsm.Calls.{
  sbi_hsm_hart_start_finish, sbi_hsm_exit, start_ticketed, sbi_hsm_hart_stop,
  sbi_hsm_hart_resume_start, sbi_hsm_hart_resume_finish,
}
use inside_system.Sbi.Hsm.Suspend.{sbi_hsm_hart_suspend}
use inside_system.Sbi.Hsm.Moves.{
  Sound, Moved, still, Moved-trans, start-Moved, start_finish-Moved, stop-Moved, exit-Moved,
  suspend-Moved, resume_start-Moved, resume_finish-Moved,
}

-- A call on a hart, with all its arguments.
pub data Call : Type 0 where
  start_call : ℕ → ℕ → ℕ → ℕ → Call
  start_finish_call : Call
  stop_call : Bool → Call
  exit_call : Call
  suspend_call : ℕ → ℕ → ℕ → ℕ → Call
  resume_start_call : Call
  resume_finish_call : Call

-- The hart after the call.
abbrev pub after : Platform → Call → Hart → Hart
after pl (start_call hartid saddr smode arg1) h = (start_ticketed pl hartid saddr smode arg1 h).1
after pl start_finish_call h = (sbi_hsm_hart_start_finish h).1
after pl (stop_call exitnow) h = (sbi_hsm_hart_stop pl exitnow h).1
after pl exit_call h = (sbi_hsm_exit pl h).1
after pl (suspend_call suspend_type raddr rmode arg1) h =
    (sbi_hsm_hart_suspend pl suspend_type raddr rmode arg1 h).1
after pl resume_start_call h = (sbi_hsm_hart_resume_start pl h).1
after pl resume_finish_call h = (sbi_hsm_hart_resume_finish pl h).1

-- A hart after any calls, each with what its platform answers then.
pub data Reached (h : Hart) : Hart → Type 0 where
  no_call : Reached h h
  one_call : (g : Hart) (pl : Platform) (c : Call) → Reached h g → Reached h (after pl c g)

after-Moved :
    (pl : Platform) (c : Call) (h : Hart) → Sound h.hdata → Moved h.hdata (after pl c h).hdata
after-Moved pl (start_call hartid saddr smode arg1) h s = start-Moved pl hartid saddr smode arg1 h s
after-Moved pl start_finish_call h s = start_finish-Moved h s
after-Moved pl (stop_call exitnow) h s = stop-Moved pl exitnow h s
after-Moved pl exit_call h s = exit-Moved pl h s
after-Moved pl (suspend_call suspend_type raddr rmode arg1) h s =
    suspend-Moved pl suspend_type raddr rmode arg1 h s
after-Moved pl resume_start_call h s = resume_start-Moved pl h s
after-Moved pl resume_finish_call h s = resume_finish-Moved pl h s

-- After any calls on a hart whose ticket is held only while a start is pending, its ticket is still held
-- only while a start is pending.
pub Reached-Moved : (h g : Hart) → Sound h.hdata → Reached h g → Moved h.hdata g.hdata
Reached-Moved h _ s no_call = still h.hdata s
Reached-Moved h _ s (one_call g pl c r) =
    let m = Reached-Moved h g s r in Moved-trans h.hdata g.hdata _ m (after-Moved pl c g m.sound)
