-- ===== src/CrazyOs/Turns.antt =====
-- The scheduler of crazy-os.c: turns in order, and what a turn leaves alone.
use native.Mathlib.Nat.{mod-add-mod, mod-eq_of_lt, mod-lt, mod-le, add-zero}
use inside_system.Prelude.{
  ℕ, zero, suc, ◌+◌, ◌%◌, ◌<◌, ◌≤◌, ◌≡◌, ◌≢◌, refl, sym, ap, ap₂, subst, ◌∙◌, List, [], ◌∷◌, some,
  arith, length, get_elem?, set, get_elem?-ne-none, length-set, get_elem?-set_ne,
  get_elem?-set_self, Option-cases, inl, inr, Bool-cases, eq-of-some, ℕ_discrete, ◌==◌,
}
use inside_system.Rv32.Step.{rv32ima_step}
use inside_system.Rv32.State.{reg_a0, reg_a7}
use inside_system.CrazyOs.{
  Proc, System, handle_ecall, run_proc, turn, turns, after_turn, sys_putchar, proc_init, init_all,
  boot,
}
use inside_system.CrazyOs.Console.{HasRoom, Printed, sys_putchar-Printed}

get_elem?_of_lt {ℓ} :
    {A : Type ℓ} (xs : List A) (i : ℕ) → i < length xs → (x : A) × (get_elem? xs i ≡ some x)
get_elem?_of_lt xs i h = elim (Option-cases (get_elem? xs i)) [
  | inl e ↦ absurd (get_elem?-ne-none xs i h e)
  | inr s ↦ s
]

handle_ecall-HasRoom : (p : Proc) (out : List ℕ) → HasRoom p → HasRoom (handle_ecall p out).0
unfolding handle_ecall
handle_ecall-HasRoom p out h = elim (Bool-cases (p.cpu.regs reg_a7 == 42)) [
  | inl e ↦ rw e (printed.room)
  | inr n ↦ rw n h
]
  where
    printed : Printed p (p.cpu.regs reg_a0 % 256) out (sys_putchar p (p.cpu.regs reg_a0 % 256) out)
    printed = sys_putchar-Printed p (p.cpu.regs reg_a0 % 256) out h

run_proc-HasRoom : (p : Proc) (out : List ℕ) → HasRoom p → HasRoom (run_proc p out).0
unfolding run_proc
run_proc-HasRoom p out h =
    ground (arith, handle_ecall-HasRoom (record p { cpu = (rv32ima_step p.cpu 1).1 }) out h)

-- A process has the turn, and every buffer has room.
pub record Ready (s : System) : Type 0 where
  pub has_turn : s.cur < length s.procs
  pub room : (j : ℕ) (p : Proc) → get_elem? s.procs j ≡ some p → HasRoom p

-- A turn goes to the process at `cur`, and the next one to the process behind it, round the end.
pub record Turned (s s' : System) : Type 0 where
  pub same_count : length s'.procs ≡ length s.procs
  pub next_cur : s'.cur ≡ (s.cur + 1) % length s.procs
  pub others : (j : ℕ) → j ≢ s.cur → get_elem? s'.procs j ≡ get_elem? s.procs j

after_turn-Turned : (s : System) (p : Proc) (out : List ℕ) → Turned s (after_turn s (p, out))
after_turn-Turned s p out = record {
  same_count = length-set s.procs s.cur p;
  next_cur = refl;
  others = λ j ne. get_elem?-set_ne s.procs p (λ e. ne (sym e));
}

after_turn-Ready :
    (s : System) (p : Proc) (out : List ℕ) → Ready s → HasRoom p → Ready (after_turn s (p, out))
after_turn-Ready s p out r h = record {
  has_turn = rw (length-set s.procs s.cur p) (mod-lt (s.cur + 1) (omega (arith, r.has_turn)));
  room = λ j q e. elim (ℕ_discrete j s.cur) [
    | yes same ↦
        subst HasRoom
          (eq-of-some (
            sym (get_elem?-set_self s.procs s.cur p r.has_turn)
            ∙ (ap (get_elem? (set s.procs s.cur p)) (sym same) ∙ e)))
          h
    | no ne ↦ r.room j q (sym (get_elem?-set_ne s.procs p (λ d. ne (sym d))) ∙ e)
  ];
}

-- From a ready state a turn is taken, to a ready state; no process but the one whose turn it was has
-- changed in anything, registers and memory included.
turn-Turned : (s : System) → Ready s → (s' : System) × (turn s ≡ some s') × Turned s s' × Ready s'
unfolding turn
turn-Turned s r =
    let (p, e) = get_elem?_of_lt s.procs s.cur r.has_turn in
    let q : Proc = (run_proc p s.stdout).0 in
    let out : List ℕ = (run_proc p s.stdout).1 in
    (
      after_turn s (q, out),
      rw e,
      after_turn-Turned s q out,
      after_turn-Ready s q out r (run_proc-HasRoom p s.stdout (r.room s.cur p e)),
    )

-- Any number of rounds of the loop can be taken: no buffer overflows and no turn goes astray; after
-- `n` rounds the turn has moved on by `n`, modulo the number of processes, and the processes from
-- `cur + n` on are as they were.
turns-Ready :
    (n : ℕ) (s : System)
    → Ready s
    → (s' : System) × (turns n s ≡ some s')
      × Ready s'
      × (length s'.procs ≡ length s.procs)
      × (s'.cur ≡ (s.cur + n) % length s.procs)
      × ((j : ℕ) → s.cur + n ≤ j → get_elem? s'.procs j ≡ get_elem? s.procs j)
unfolding turns
turns-Ready zero s r = (
  s,
  refl,
  r,
  refl,
  sym (ap (λ k. k % length s.procs) (add-zero s.cur) ∙ mod-eq_of_lt r.has_turn),
  λ j le. refl,
)
turns-Ready (suc n) s r =
    let (t, turned, changed, ready) = turn-Turned s r in
    let (u, rest, ready', count, at_cur, later) = turns-Ready n t ready in
    let step : t.cur ≤ s.cur + 1 = rw changed.next_cur (mod-le (s.cur + 1) (length s.procs)) in
    (
      u,
      rw turned rest,
      ready',
      count ∙ changed.same_count,
      at_cur ∙ shift t changed,
      λ j le.
          later j (omega (arith, step, le)) ∙ changed.others j (λ e. absurd (omega (arith, e, le))),
    )
  where
    shift :
        (t : System) → Turned s t → (t.cur + n) % length t.procs ≡ (s.cur + suc n) % length s.procs
    shift t c =
        ap₂ (λ x y. (x + n) % y) c.next_cur c.same_count
        ∙ (mod-add-mod (s.cur + 1) (length s.procs) n ∙ ap (λ k. k % length s.procs) (omega arith))

init_all-room :
    (images : List (List ℕ)) (j : ℕ) (p : Proc) → get_elem? (init_all images) j ≡ some p → HasRoom p
unfolding proc_init
init_all-room [] j p e = cc
init_all-room (i ∷ is) zero p e = subst HasRoom (eq-of-some e) (omega arith)
init_all-room (i ∷ is) (suc j) p e = init_all-room is j p e

-- `main` starts in a ready state, if it is given an image at all.
pub boot-Ready : (images : List (List ℕ)) → images ≢ [] → Ready (boot images)
unfolding boot
boot-Ready [] h = absurd (h refl)
boot-Ready (i ∷ is) h = record { has_turn = omega arith; room = init_all-room (i ∷ is) }

length-init_all : (images : List (List ℕ)) → length (init_all images) ≡ length images
length-init_all [] = refl
length-init_all (i ∷ is) = ap suc (length-init_all is)

init_all-get :
    (images : List (List ℕ)) (j : ℕ) (image : List ℕ)
    → get_elem? images j ≡ some image
    → get_elem? (init_all images) j ≡ some (proc_init image)
init_all-get [] j image e = cc
init_all-get (i ∷ is) zero image e = ap (λ x. some (proc_init x)) (eq-of-some e)
init_all-get (i ∷ is) (suc j) image e = init_all-get is j image e

-- The system of `main` after `n` rounds of its loop.
pub record Running (n : ℕ) (images : List (List ℕ)) (s : System) : Type 0 where
  pub ready : Ready s
  pub count : length s.procs ≡ length images
  pub at_cur : s.cur ≡ n % length images
  pub untouched :
      (j : ℕ) (image : List ℕ)
      → n ≤ j
      → get_elem? images j ≡ some image
      → get_elem? s.procs j ≡ some (proc_init image)

-- `main`, if it is given an image at all, can take any number of rounds of its loop: no buffer
-- overflows and the turn is that of a process. After `n` rounds there are as many processes as images,
-- the turn is that of process `n` modulo their number, and a process that has not had a turn yet is the
-- one that `proc_init` makes of its image.
pub turns-boot :
    (n : ℕ) (images : List (List ℕ))
    → images ≢ []
    → (s : System) × (turns n (boot images) ≡ some s) × Running n images s
unfolding boot
turns-boot n images h =
    let (s, e, r, count, at_cur, later) = turns-Ready n (boot images) (boot-Ready images h) in
    (
      s,
      e,
      record {
        ready = r;
        count = count ∙ length-init_all images;
        at_cur = at_cur ∙ ap₂ (λ a k. a % k) (omega arith) (length-init_all images);
        untouched = λ j image le g. later j (omega (arith, le)) ∙ init_all-get images j image g;
      },
    )
