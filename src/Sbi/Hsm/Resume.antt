-- ===== src/Sbi/Hsm/Resume.antt =====
-- Where a hart goes on: after its start, and after a suspend.
use inside_system.Prelude.{
  ℕ, ◌≡◌, refl, sym, subst, Bool, true, false, Option, none, some, arith, ◌==◌, ◌&&◌, if◌then◌else◌,
  Bool-cases, Option-cases, inl, inr,
}
use inside_system.Sbi.Status.{Status, einval, ealready}
use inside_system.Sbi.Hsm.{
  HsmData, HartCsrs, Hart, Platform, Leave, warmboot, switch_mode, leave, started, stopped,
  start_pending, suspended, change_state, ticket_acquire, device_hart_suspend,
}
use inside_system.Sbi.Hsm.Calls.{
  sbi_hsm_hart_start_finish, start_ticketed, sbi_hsm_hart_start, sbi_hsm_hart_resume_start,
  sbi_hsm_hart_resume_finish, launch, is_ok, is_s_or_u, allowed, prepared, non_ret_save,
  non_ret_restore,
}
use inside_system.Sbi.Hsm.Suspend.{
  sbi_hsm_hart_suspend, suspend_refused, suspend_end, or_default, is_non_ret,
}

-- The hart runs at the address, in the mode and with the argument of a call.
pub record Runs (arg1 addr mode : ℕ) (r : Leave × Hart) : Type 0 where
  pub goes : r.0 ≡ switch_mode arg1 addr mode
  pub state : r.1.hdata.state ≡ started

einval-fails : is_ok einval ≡ false
unfolding is_ok
einval-fails = refl

ealready-fails : is_ok ealready ≡ false
unfolding is_ok
ealready-fails = refl

finish_pending :
    (h : Hart)
    → h.hdata.state ≡ start_pending
    → Runs h.next_arg1 h.next_addr h.next_mode (sbi_hsm_hart_start_finish h)
      × ((sbi_hsm_hart_start_finish h).1.hdata.start_ticket ≡ 0)
unfolding sbi_hsm_hart_start_finish change_state
finish_pending h e = rw e (record { goes = refl; state = refl }, refl)

-- What a start leaves behind that succeeds.
start_ticketed-succeeds :
    (pl : Platform) (hartid saddr smode arg1 : ℕ) (h : Hart)
    → is_ok (start_ticketed pl hartid saddr smode arg1 h).0 ≡ true
    → (start_ticketed pl hartid saddr smode arg1 h).1
      ≡ prepared h (record h.hdata { state = start_pending; start_ticket = 1 }) saddr smode arg1
unfolding start_ticketed change_state ticket_acquire
start_ticketed-succeeds pl hartid saddr smode arg1 h fine =
    elim (Bool-cases (h.hdata.start_ticket == 0)) [
      | inr held ↦ cc (rw held at fine, einval-fails)
      | inl free ↦ elim (Bool-cases (h.hdata.state == started)) [
        | inl runs ↦ cc (rw (free, runs) at fine, ealready-fails)
        | inr rests ↦ elim (Bool-cases (h.hdata.state == stopped)) [
          | inr other ↦ cc (rw (free, rests, other) at fine, einval-fails)
          | inl halted ↦ elim (Bool-cases (is_ok (launch pl hartid))) [
            | inr failed ↦ cc (rw (free, rests, halted, failed) at fine, failed)
            | inl sent ↦ rw (free, rests, halted, sent) refl
          ]
        ]
      ]
    ]

-- A start that another hart has made with success is one that the hart finishes: it goes on at the
-- address and in the mode that were asked for, and gives the ticket back.
pub start_finish-start_ticketed :
    (pl : Platform) (hartid saddr smode arg1 : ℕ) (h : Hart)
    → is_ok (start_ticketed pl hartid saddr smode arg1 h).0 ≡ true
    → Runs arg1 saddr smode
        (sbi_hsm_hart_start_finish (start_ticketed pl hartid saddr smode arg1 h).1)
      × ((sbi_hsm_hart_start_finish
            (start_ticketed pl hartid saddr smode arg1 h).1).1.hdata.start_ticket
          ≡ 0)
start_finish-start_ticketed pl hartid saddr smode arg1 h fine =
    subst
      (λ g.
        Runs arg1 saddr smode (sbi_hsm_hart_start_finish g)
        × ((sbi_hsm_hart_start_finish g).1.hdata.start_ticket ≡ 0))
      (sym (start_ticketed-succeeds pl hartid saddr smode arg1 h fine))
      (finish_pending
        (prepared h (record h.hdata { state = start_pending; start_ticket = 1 }) saddr smode arg1)
        refl)

-- The way back from a suspend, from the warm boot entry on; `c` is what the registers hold there.
abbrev pub resumed : Platform → Hart → HartCsrs → Leave × Hart
resumed pl h c =
    sbi_hsm_hart_resume_finish pl (sbi_hsm_hart_resume_start pl (record h { csrs = c })).1

-- What the way back gives.
pub record Resumed (pl : Platform) (d : HsmData) (r : Leave × Hart) : Type 0 where
  pub mie : r.1.csrs.mie ≡ d.saved_mie
  pub medeleg : r.1.csrs.medeleg ≡ d.saved_medeleg
  pub menvcfg : (if pl.priv_1_12 then r.1.csrs.menvcfg else d.saved_menvcfg) ≡ d.saved_menvcfg

resumed-Runs :
    (pl : Platform) (h : Hart) (c : HartCsrs)
    → h.hdata.state ≡ suspended
    → Runs h.next_arg1 h.next_addr h.next_mode (resumed pl h c)
      × Resumed pl h.hdata (resumed pl h c)
unfolding sbi_hsm_hart_resume_start sbi_hsm_hart_resume_finish change_state non_ret_restore
resumed-Runs pl h c e = rw e (
  record { goes = refl; state = refl },
  record { mie = refl; medeleg = refl; menvcfg = ground arith },
)

-- The hart that a non-retentive suspend leaves behind.
abbrev pub asleep : Platform → ℕ → ℕ → ℕ → ℕ → Hart → Hart
asleep pl suspend_type raddr rmode arg1 h =
    prepared h
      (non_ret_save pl.priv_1_12 h.csrs
        (record h.hdata { state = suspended; suspend_type = suspend_type }))
      raddr rmode arg1

suspend_end-warmboot :
    (suspend_type : ℕ) (h : Hart) (r : Option Status)
    → h.hdata.state ≡ suspended
    → (suspend_end suspend_type h r).0 ≡ leave warmboot
    → (suspend_end suspend_type h r).1 ≡ h
unfolding change_state
suspend_end-warmboot suspend_type h none e w = refl
suspend_end-warmboot suspend_type h (some r) e w =
    elim (Bool-cases (is_ok (or_default suspend_type r) && is_non_ret suspend_type)) [
      | inl warm ↦ rw warm refl
      | inr returns ↦ cc (rw (returns, e) at w)
    ]

suspend-asleep :
    (pl : Platform) (suspend_type raddr rmode arg1 : ℕ) (h : Hart)
    → is_non_ret suspend_type ≡ true
    → (sbi_hsm_hart_suspend pl suspend_type raddr rmode arg1 h).0 ≡ leave warmboot
    → (sbi_hsm_hart_suspend pl suspend_type raddr rmode arg1 h).1
      ≡ asleep pl suspend_type raddr rmode arg1 h
unfolding sbi_hsm_hart_suspend change_state
suspend-asleep pl suspend_type raddr rmode arg1 h deep w =
    elim (Option-cases (suspend_refused pl suspend_type raddr rmode)) [
      | inr (rc, refused) ↦ cc (rw refused at w)
      | inl fine ↦ elim (Bool-cases (h.hdata.state == started)) [
        | inr other ↦ cc (rw (fine, other) at w)
        | inl runs ↦
            rw (fine, runs, deep)
              (suspend_end-warmboot suspend_type (asleep pl suspend_type raddr rmode arg1 h)
                (device_hart_suspend pl.hsm_dev suspend_type pl.warmboot_addr) saved_state
                (rw (fine, runs, deep) at w))
      ]
    ]
  where
    saved_state : (asleep pl suspend_type raddr rmode arg1 h).hdata.state ≡ suspended
    saved_state = unfold non_ret_save in refl

asleep-resumed :
    (pl : Platform) (suspend_type raddr rmode arg1 : ℕ) (h : Hart) (c : HartCsrs)
    → let r = resumed pl (asleep pl suspend_type raddr rmode arg1 h) c in
      Runs arg1 raddr rmode r
      × (r.1.csrs.mie ≡ h.csrs.mie)
      × (r.1.csrs.medeleg ≡ h.csrs.medeleg)
      × ((if pl.priv_1_12 then r.1.csrs.menvcfg else h.csrs.menvcfg) ≡ h.csrs.menvcfg)
unfolding sbi_hsm_hart_resume_start sbi_hsm_hart_resume_finish change_state non_ret_restore
    non_ret_save
asleep-resumed pl suspend_type raddr rmode arg1 h c = (
  record { goes = refl; state = refl },
  refl,
  refl,
  elim (Bool-cases pl.priv_1_12) [ inl new ↦ rw new refl | inr old ↦ rw old refl ],
)

start_suspended :
    (caller : Platform) (hartid saddr smode arg1 : ℕ) (h : Hart)
    → h.hdata.state ≡ suspended
    → h.hdata.start_ticket ≡ 0
    → start_ticketed caller hartid saddr smode arg1 h ≡ (
      einval,
      prepared h (record h.hdata { state = suspended; start_ticket = 0 }) saddr smode arg1,
    )
unfolding start_ticketed change_state ticket_acquire
start_suspended caller hartid saddr smode arg1 h e f = rw (f, e) refl

-- A non-retentive suspend that ends at the warm boot entry, whatever the registers hold there: the
-- hart goes on at the address and in the mode that its call named, with `mie`, `medeleg` and, from
-- version 1.12 of the privileged architecture on, `menvcfg` as they were at the call.
pub resumed-suspend :
    (pl : Platform) (suspend_type raddr rmode arg1 : ℕ) (h : Hart) (c : HartCsrs)
    → is_non_ret suspend_type ≡ true
    → (sbi_hsm_hart_suspend pl suspend_type raddr rmode arg1 h).0 ≡ leave warmboot
    → let r = resumed pl (sbi_hsm_hart_suspend pl suspend_type raddr rmode arg1 h).1 c in
      Runs arg1 raddr rmode r
      × (r.1.csrs.mie ≡ h.csrs.mie)
      × (r.1.csrs.medeleg ≡ h.csrs.medeleg)
      × ((if pl.priv_1_12 then r.1.csrs.menvcfg else h.csrs.menvcfg) ≡ h.csrs.menvcfg)
resumed-suspend pl suspend_type raddr rmode arg1 h c deep w =
    subst
      (λ g.
        let r = resumed pl g c in
        Runs arg1 raddr rmode r
        × (r.1.csrs.mie ≡ h.csrs.mie)
        × (r.1.csrs.medeleg ≡ h.csrs.medeleg)
        × ((if pl.priv_1_12 then r.1.csrs.menvcfg else h.csrs.menvcfg) ≡ h.csrs.menvcfg))
      (sym (suspend-asleep pl suspend_type raddr rmode arg1 h deep w))
      (asleep-resumed pl suspend_type raddr rmode arg1 h c)

-- A start of a suspended hart by a caller that may execute at the address, with the ticket free: it is
-- refused, but where the hart goes on is then what that call named, and not what the hart itself
-- asked for when it was suspended.
pub resumed-start :
    (pl caller : Platform) (dom : Option (Bool × (ℕ → ℕ → Bool))) (hartid saddr smode arg1 : ℕ)
    (h : Hart) (c : HartCsrs)
    → h.hdata.state ≡ suspended
    → h.hdata.start_ticket ≡ 0
    → is_s_or_u smode ≡ true
    → allowed dom saddr smode ≡ none
    → (g : Hart) × (sbi_hsm_hart_start caller dom hartid saddr smode arg1 (some h)
        ≡ (einval, some g))
      × Runs arg1 saddr smode (resumed pl g c)
unfolding sbi_hsm_hart_start
resumed-start pl caller dom hartid saddr smode arg1 h c e f m a =
    let g : Hart =
      prepared h (record h.hdata { state = suspended; start_ticket = 0 }) saddr smode arg1 in
    (
      g,
      rw (m, a, start_suspended caller hartid saddr smode arg1 h e f) refl,
      (resumed-Runs pl g c refl).0,
    )
