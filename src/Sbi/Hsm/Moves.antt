-- ===== src/Sbi/Hsm/Moves.antt =====
-- The start ticket of a hart under the calls of sbi_hsm.c.
use inside_system.Prelude.{
  ℕ, ◌≡◌, ◌≢◌, ◌⊎◌, refl, sym, subst, ◌∙◌, Bool, false, Option, none, some, arith, ◌==◌, ◌&&◌,
  Bool-cases, inl, inr, ==-eq, ==-ne, Option-cases,
}
use inside_system.Sbi.Status.{Status}
use inside_system.Sbi.Hsm.{
  HsmData, Hart, Platform, started, stopped, start_pending, stop_pending, suspended, resume_pending,
  change_state, ticket_acquire, with_data, has_hart_hotplug,
}
use inside_system.Sbi.Hsm.Calls.{
  sbi_hsm_hart_start_finish, sbi_hsm_exit, start_ticketed, sbi_hsm_hart_stop,
  sbi_hsm_hart_resume_start, sbi_hsm_hart_resume_finish, launch, launched, is_ok, non_ret_save,
  prepared,
}
use inside_system.Sbi.Hsm.Suspend.{
  sbi_hsm_hart_suspend, suspend_refused, suspend_end, or_default, is_non_ret,
}

-- The ticket is held only while a start is pending.
abbrev pub Sound : HsmData → Type 0
Sound d = (d.start_ticket ≡ 0) ⊎ ((d.start_ticket ≡ 1) × (d.state ≡ start_pending))

-- From `d`, where the ticket is `Sound`, calls have led to `e`.
pub record Moved (d e : HsmData) : Type 0 where
  pub sound : Sound e

pub still : (d : HsmData) → Sound d → Moved d d
still d s = record { sound = s }

-- The ticket is free in every other state.
free_ticket : (d : HsmData) → Sound d → d.state ≢ start_pending → d.start_ticket ≡ 0
free_ticket d (inl free) ne = free
free_ticket d (inr (_, pending)) ne = absurd (ne pending)

pub start_finish-Moved :
    (h : Hart) → Sound h.hdata → Moved h.hdata (sbi_hsm_hart_start_finish h).1.hdata
unfolding sbi_hsm_hart_start_finish change_state
start_finish-Moved h s = elim (Bool-cases (h.hdata.state == start_pending)) [
  | inl pending ↦ rw pending (record { sound = inl refl })
  | inr other ↦ rw other (still h.hdata s)
]

-- Out of a state with the ticket free, which the call does not touch.
leaving-Moved :
    (d e : HsmData) (a : ℕ)
    → Sound d
    → a ≢ start_pending
    → d.state ≡ a
    → e.start_ticket ≡ d.start_ticket
    → Moved d e
leaving-Moved d e a s ne from same = record {
  sound = inl (same ∙ free_ticket d s (λ p. ne (sym from ∙ p)));
}

pub exit-Moved :
    (pl : Platform) (h : Hart) → Sound h.hdata → Moved h.hdata (sbi_hsm_exit pl h).1.hdata
unfolding sbi_hsm_exit change_state
exit-Moved pl h s = elim (Bool-cases (h.hdata.state == stop_pending)) [
  | inl pending ↦ elim (Bool-cases (has_hart_hotplug pl.hsm_dev)) [
    | inl hot ↦ rw (pending, hot) (stop (==-eq pending))
    | inr cold ↦ rw (pending, cold) (stop (==-eq pending))
  ]
  | inr other ↦ rw other (still h.hdata s)
]
  where
    stop : h.hdata.state ≡ stop_pending → Moved h.hdata (record h.hdata { state = stopped })
    stop e = leaving-Moved h.hdata _ stop_pending s (omega arith) e refl

pub resume_start-Moved :
    (pl : Platform) (h : Hart)
    → Sound h.hdata
    → Moved h.hdata (sbi_hsm_hart_resume_start pl h).1.hdata
unfolding sbi_hsm_hart_resume_start change_state
resume_start-Moved pl h s = elim (Bool-cases (h.hdata.state == suspended)) [
  | inl asleep ↦ rw asleep (leaving-Moved h.hdata _ suspended s (omega arith) (==-eq asleep) refl)
  | inr other ↦ rw other (still h.hdata s)
]

pub resume_finish-Moved :
    (pl : Platform) (h : Hart)
    → Sound h.hdata
    → Moved h.hdata (sbi_hsm_hart_resume_finish pl h).1.hdata
unfolding sbi_hsm_hart_resume_finish change_state
resume_finish-Moved pl h s = elim (Bool-cases (h.hdata.state == resume_pending)) [
  | inl pending ↦
      rw pending (leaving-Moved h.hdata _ resume_pending s (omega arith) (==-eq pending) refl)
  | inr other ↦ rw other (still h.hdata s)
]

pub Moved-trans : (d e f : HsmData) → Moved d e → Moved e f → Moved d f
Moved-trans d e f m n = record { sound = n.sound }

stopping : (d : HsmData) → Sound d → d.state ≡ started → Moved d (record d { state = stop_pending })
stopping d s e = leaving-Moved d _ started s (omega arith) e refl

pub stop-Moved :
    (pl : Platform) (exitnow : Bool) (h : Hart)
    → Sound h.hdata
    → Moved h.hdata (sbi_hsm_hart_stop pl exitnow h).1.hdata
unfolding sbi_hsm_hart_stop change_state sbi_hsm_exit
stop-Moved pl exitnow h s = elim (Bool-cases pl.has_domain) [
  | inr alien ↦ rw alien (still h.hdata s)
  | inl own ↦ elim (Bool-cases (h.hdata.state == started)) [
    | inr other ↦ rw (own, other) (still h.hdata s)
    | inl runs ↦ elim (Bool-cases exitnow) [
      | inr later ↦ rw (own, runs, later) (stopping h.hdata s (==-eq runs))
      | inl now ↦
          rw (own, runs, now)
            (let first = stopping h.hdata s (==-eq runs) in
              Moved-trans h.hdata (record h.hdata { state = stop_pending }) _ first
                (exit-Moved pl (with_data h (record h.hdata { state = stop_pending })) first.sound))
    ]
  ]
]

-- The hart is suspended, whatever was saved.
asleep-Moved :
    (d e : HsmData)
    → Sound d
    → d.state ≡ started
    → e.state ≡ suspended
    → e.start_ticket ≡ d.start_ticket
    → Moved d e
asleep-Moved d e s from to same = leaving-Moved d e started s (omega arith) from same

suspend_end-Moved :
    (suspend_type : ℕ) (h : Hart) (r : Option Status)
    → Sound h.hdata
    → h.hdata.state ≡ suspended
    → Moved h.hdata (suspend_end suspend_type h r).1.hdata
unfolding change_state
suspend_end-Moved suspend_type h none s e = still h.hdata s
suspend_end-Moved suspend_type h (some r) s e =
    elim (Bool-cases (is_ok (or_default suspend_type r) && is_non_ret suspend_type)) [
      | inl warm ↦ rw warm (still h.hdata s)
      | inr returns ↦ elim (Bool-cases (h.hdata.state == suspended)) [
        | inl asleep ↦
            rw (returns, asleep) (leaving-Moved h.hdata _ suspended s (omega arith) e refl)
        | inr other ↦ absurd (==-ne other e)
      ]
    ]

suspended-Moved :
    (d : HsmData) (suspend_type : ℕ) (g : Hart) (r : Option Status)
    → Sound d
    → d.state ≡ started
    → g.hdata.state ≡ suspended
    → g.hdata.start_ticket ≡ d.start_ticket
    → Moved d (suspend_end suspend_type g r).1.hdata
suspended-Moved d suspend_type g r s from to same =
    let m = asleep-Moved d g.hdata s from to same in
    Moved-trans d g.hdata _ m (suspend_end-Moved suspend_type g r m.sound to)

pub suspend-Moved :
    (pl : Platform) (suspend_type raddr rmode arg1 : ℕ) (h : Hart)
    → Sound h.hdata
    → Moved h.hdata (sbi_hsm_hart_suspend pl suspend_type raddr rmode arg1 h).1.hdata
unfolding sbi_hsm_hart_suspend change_state non_ret_save
suspend-Moved pl suspend_type raddr rmode arg1 h s =
    elim (Option-cases (suspend_refused pl suspend_type raddr rmode)) [
      | inr (rc, refused) ↦ rw refused (still h.hdata s)
      | inl fine ↦ elim (Bool-cases (h.hdata.state == started)) [
        | inr other ↦ rw (fine, other) (still h.hdata s)
        | inl runs ↦ elim (Bool-cases (is_non_ret suspend_type)) [
          | inl deep ↦
              rw (fine, runs, deep)
                (suspended-Moved h.hdata suspend_type _ _ s (==-eq runs) refl refl)
          | inr light ↦
              rw (fine, runs, light)
                (suspended-Moved h.hdata suspend_type _ _ s (==-eq runs) refl refl)
        ]
      ]
    ]

launched-Moved :
    (h : Hart) (rc : Status)
    → h.hdata.state ≡ start_pending
    → h.hdata.start_ticket ≡ 1
    → Moved h.hdata (launched h rc).1.hdata
unfolding change_state
launched-Moved h rc e t = elim (Bool-cases (is_ok rc)) [
  | inl fine ↦ rw fine (still h.hdata (inr (t, e)))
  | inr failed ↦ elim (Bool-cases (h.hdata.state == start_pending)) [
    | inl pending ↦ rw (failed, pending) (record { sound = inl refl })
    | inr other ↦ absurd (==-ne other e)
  ]
]

pub start-Moved :
    (pl : Platform) (hartid saddr smode arg1 : ℕ) (h : Hart)
    → Sound h.hdata
    → Moved h.hdata (start_ticketed pl hartid saddr smode arg1 h).1.hdata
unfolding start_ticketed change_state ticket_acquire
start-Moved pl hartid saddr smode arg1 h s = elim (Bool-cases (h.hdata.start_ticket == 0)) [
  | inr held ↦ rw held (still h.hdata s)
  | inl free ↦ elim (Bool-cases (h.hdata.state == stopped)) [
    | inl halted ↦
        rw (free, halted, not_started (==-eq halted))
          (let ready : Hart =
              prepared h (record h.hdata { state = start_pending; start_ticket = 1 }) saddr smode
                arg1 in
            Moved-trans h.hdata ready.hdata _ (record { sound = inr (refl, refl) })
              (launched-Moved ready (launch pl hartid) refl refl))
    | inr other ↦ elim (Bool-cases (h.hdata.state == started)) [
      | inl runs ↦ rw (free, other, runs) (released refl)
      | inr elsewhere ↦ rw (free, other, elsewhere) (released refl)
    ]
  ]
]
  where
    not_started : h.hdata.state ≡ stopped → (h.hdata.state == started) ≡ false
    not_started e = ground (arith, e)

    released : {e : HsmData} → e ≡ record h.hdata { start_ticket = 0 } → Moved h.hdata e
    released q = subst (Moved h.hdata) (sym q) (record { sound = inl refl })
