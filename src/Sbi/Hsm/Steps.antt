-- ===== src/Sbi/Hsm/Steps.antt =====
-- Which states each call of sbi_hsm.c takes a hart between.
use inside_system.Prelude.{
  ℕ, ◌≡◌, refl, sym, subst, Bool, true, false, Option, none, some, arith, ◌==◌, ◌&&◌, if◌then◌else◌,
  Bool-cases, Option-cases, inl, inr, ==-eq, ==-ne,
}
use inside_system.Sbi.Status.{Status}
use inside_system.Sbi.Hsm.{
  Hart, Platform, started, stopped, start_pending, stop_pending, suspended, resume_pending,
  change_state, ticket_acquire, has_hart_hotplug,
}
use inside_system.Sbi.Hsm.Calls.{
  sbi_hsm_hart_start_finish, sbi_hsm_exit, start_ticketed, sbi_hsm_hart_stop,
  sbi_hsm_hart_resume_start, sbi_hsm_hart_resume_finish, launch, launched, is_ok, non_ret_save,
}
use inside_system.Sbi.Hsm.Suspend.{
  sbi_hsm_hart_suspend, suspend_refused, suspend_end, or_default, is_non_ret,
}
use inside_system.Sbi.Hsm.Machine.{
  Call, start_call, start_finish_call, stop_call, exit_call, suspend_call, resume_start_call,
  resume_finish_call, after, Reached, one_call, Reached-Moved,
}
use inside_system.Sbi.Hsm.Moves.{Sound}

-- The state after `a`: the same, or `q` if `a` is `p`.
pub data Goes (p q a : ℕ) : ℕ → Type 0 where
  stays : Goes p q a a
  goes : a ≡ p → Goes p q a q

-- Where each call may take a hart: it stays in its state, as after a start that fails, a suspend that
-- returns and a call in another state than that of the arrow, or it goes along one arrow. A stop goes
-- to STOPPED if it is to exit, and else to STOP_PENDING.
abbrev pub Allowed : Call → ℕ → ℕ → Type 0
Allowed (start_call hartid saddr smode arg1) = Goes stopped start_pending
Allowed start_finish_call = Goes start_pending started
Allowed (stop_call exitnow) = Goes started (if exitnow then stopped else stop_pending)
Allowed exit_call = Goes stop_pending stopped
Allowed (suspend_call suspend_type raddr rmode arg1) = Goes started suspended
Allowed resume_start_call = Goes suspended resume_pending
Allowed resume_finish_call = Goes resume_pending started

abbrev Steps : Platform → Call → Hart → Type 0
Steps pl c h = Allowed c h.hdata.state (after pl c h).hdata.state

Goes-back : {p q a b : ℕ} → b ≡ a → Goes p q a b
Goes-back {p} {q} {a} e = subst (Goes p q a) (sym e) stays

Goes-on : {p q a b : ℕ} → (a == p) ≡ true → b ≡ q → Goes p q a b
Goes-on {p} {q} {a} h e = subst (Goes p q a) (sym e) (goes (==-eq h))

start_finish-Steps :
    (h : Hart)
    → Goes start_pending started h.hdata.state (sbi_hsm_hart_start_finish h).1.hdata.state
unfolding sbi_hsm_hart_start_finish change_state
start_finish-Steps h = elim (Bool-cases (h.hdata.state == start_pending)) [
  | inl pending ↦ rw pending (goes (==-eq pending))
  | inr other ↦ rw other stays
]

exit-Steps :
    (pl : Platform) (h : Hart)
    → Goes stop_pending stopped h.hdata.state (sbi_hsm_exit pl h).1.hdata.state
unfolding sbi_hsm_exit change_state
exit-Steps pl h = elim (Bool-cases (h.hdata.state == stop_pending)) [
  | inl pending ↦ elim (Bool-cases (has_hart_hotplug pl.hsm_dev)) [
    | inl hot ↦ rw (pending, hot) (goes (==-eq pending))
    | inr cold ↦ rw (pending, cold) (goes (==-eq pending))
  ]
  | inr other ↦ rw other stays
]

resume_start-Steps :
    (pl : Platform) (h : Hart)
    → Goes suspended resume_pending h.hdata.state (sbi_hsm_hart_resume_start pl h).1.hdata.state
unfolding sbi_hsm_hart_resume_start change_state
resume_start-Steps pl h = elim (Bool-cases (h.hdata.state == suspended)) [
  | inl asleep ↦ rw asleep (goes (==-eq asleep))
  | inr other ↦ rw other stays
]

resume_finish-Steps :
    (pl : Platform) (h : Hart)
    → Goes resume_pending started h.hdata.state (sbi_hsm_hart_resume_finish pl h).1.hdata.state
unfolding sbi_hsm_hart_resume_finish change_state
resume_finish-Steps pl h = elim (Bool-cases (h.hdata.state == resume_pending)) [
  | inl pending ↦ rw pending (goes (==-eq pending))
  | inr other ↦ rw other stays
]

stop-Steps :
    (pl : Platform) (exitnow : Bool) (h : Hart)
    → Goes started
        (if exitnow then stopped else stop_pending)
        h.hdata.state
        (sbi_hsm_hart_stop pl exitnow h).1.hdata.state
unfolding sbi_hsm_hart_stop sbi_hsm_exit change_state
stop-Steps pl true h = elim (Bool-cases pl.has_domain) [
  | inr alien ↦ rw alien stays
  | inl own ↦ elim (Bool-cases (h.hdata.state == started)) [
    | inr other ↦ rw (own, other) stays
    | inl runs ↦ elim (Bool-cases (has_hart_hotplug pl.hsm_dev)) [
      | inl hot ↦ rw (own, runs, hot) (goes (==-eq runs))
      | inr cold ↦ rw (own, runs, cold) (goes (==-eq runs))
    ]
  ]
]
stop-Steps pl false h = elim (Bool-cases pl.has_domain) [
  | inr alien ↦ rw alien stays
  | inl own ↦ elim (Bool-cases (h.hdata.state == started)) [
    | inr other ↦ rw (own, other) stays
    | inl runs ↦ rw (own, runs) (goes (==-eq runs))
  ]
]

-- Where the end of a suspend leaves a hart.
suspend_end-state :
    (suspend_type a : ℕ) (g : Hart) (r : Option Status)
    → g.hdata.state ≡ suspended
    → (a == started) ≡ true
    → Goes started suspended a (suspend_end suspend_type g r).1.hdata.state
unfolding change_state
suspend_end-state suspend_type a g none e at = Goes-on at e
suspend_end-state suspend_type a g (some r) e at =
    elim (Bool-cases (is_ok (or_default suspend_type r) && is_non_ret suspend_type)) [
      | inl warm ↦ rw warm (Goes-on at e)
      | inr returns ↦ elim (Bool-cases (g.hdata.state == suspended)) [
        | inl asleep ↦ rw (returns, asleep) (Goes-back (sym (==-eq at)))
        | inr other ↦ absurd (==-ne other e)
      ]
    ]

suspend-Steps :
    (pl : Platform) (suspend_type raddr rmode arg1 : ℕ) (h : Hart)
    → Goes started suspended h.hdata.state
        (sbi_hsm_hart_suspend pl suspend_type raddr rmode arg1 h).1.hdata.state
unfolding sbi_hsm_hart_suspend change_state non_ret_save
suspend-Steps pl suspend_type raddr rmode arg1 h =
    elim (Option-cases (suspend_refused pl suspend_type raddr rmode)) [
      | inr (rc, refused) ↦ rw refused stays
      | inl fine ↦ elim (Bool-cases (h.hdata.state == started)) [
        | inr other ↦ rw (fine, other) stays
        | inl runs ↦ elim (Bool-cases (is_non_ret suspend_type)) [
          | inl deep ↦
              rw (fine, runs, deep) (suspend_end-state suspend_type h.hdata.state _ _ refl runs)
          | inr light ↦
              rw (fine, runs, light) (suspend_end-state suspend_type h.hdata.state _ _ refl runs)
        ]
      ]
    ]

launched-state :
    (a : ℕ) (g : Hart) (rc : Status)
    → (a == stopped) ≡ true
    → g.hdata.state ≡ start_pending
    → Goes stopped start_pending a (launched g rc).1.hdata.state
unfolding change_state
launched-state a g rc at e = elim (Bool-cases (is_ok rc)) [
  | inl fine ↦ rw fine (Goes-on at e)
  | inr failed ↦ elim (Bool-cases (g.hdata.state == start_pending)) [
    | inl pending ↦ rw (failed, pending) (Goes-back (sym (==-eq at)))
    | inr other ↦ absurd (==-ne other e)
  ]
]

start-Steps :
    (pl : Platform) (hartid saddr smode arg1 : ℕ) (h : Hart)
    → Goes stopped start_pending h.hdata.state
        (start_ticketed pl hartid saddr smode arg1 h).1.hdata.state
unfolding start_ticketed change_state ticket_acquire
start-Steps pl hartid saddr smode arg1 h = elim (Bool-cases (h.hdata.start_ticket == 0)) [
  | inr held ↦ rw held stays
  | inl free ↦ elim (Bool-cases (h.hdata.state == stopped)) [
    | inl halted ↦
        let not_started : (h.hdata.state == started) ≡ false = ground (arith, halted) in
        rw (free, halted, not_started)
          (launched-state h.hdata.state _ (launch pl hartid) halted refl)
    | inr other ↦ elim (Bool-cases (h.hdata.state == started)) [
      | inl runs ↦ rw (free, other, runs) stays
      | inr elsewhere ↦ rw (free, other, elsewhere) stays
    ]
  ]
]

after-Steps : (pl : Platform) (c : Call) (h : Hart) → Steps pl c h
after-Steps pl (start_call hartid saddr smode arg1) h = start-Steps pl hartid saddr smode arg1 h
after-Steps pl start_finish_call h = start_finish-Steps h
after-Steps pl (stop_call exitnow) h = stop-Steps pl exitnow h
after-Steps pl exit_call h = exit-Steps pl h
after-Steps pl (suspend_call suspend_type raddr rmode arg1) h =
    suspend-Steps pl suspend_type raddr rmode arg1 h
after-Steps pl resume_start_call h = resume_start-Steps pl h
after-Steps pl resume_finish_call h = resume_finish-Steps pl h

-- A call on a hart that any calls have led to.
pub record Stepped (pl : Platform) (c : Call) (g : Hart) : Type 0 where
  pub allowed : Allowed c g.hdata.state (after pl c g).hdata.state
  pub ticket : Sound g.hdata
  pub ticket_after : Sound (after pl c g).hdata

-- Let a hart's ticket be held only while a start is pending. After any calls on the hart, each with
-- what its platform answers then, the ticket is still held only while a start is pending; and a
-- further call leaves the state as it is or takes the hart along the one arrow of that call: a start
-- from STOPPED to START_PENDING, its end to STARTED, a stop from STARTED to STOP_PENDING, or to STOPPED
-- if it exits, an exit from STOP_PENDING to STOPPED, a suspend from STARTED to SUSPENDED, and the two
-- parts of a resume from there to RESUME_PENDING and from there to STARTED.
pub Reached-Stepped :
    (h g : Hart) (pl : Platform) (c : Call) → Sound h.hdata → Reached h g → Stepped pl c g
Reached-Stepped h g pl c s r = record {
  allowed = after-Steps pl c g;
  ticket = (Reached-Moved h g s r).sound;
  ticket_after = (Reached-Moved h (after pl c g) s (one_call g pl c r)).sound;
}
