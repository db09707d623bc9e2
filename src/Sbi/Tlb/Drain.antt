-- ===== src/Sbi/Tlb/Drain.antt =====
-- `tlb_process` of sbi_tlb.c: a hart works off its fifo.
use inside_system.Prelude.{
  ℕ, zero, suc, ◌<◌, ◌≡◌, refl, sym, ap, subst, ◌∙◌, true, false, List, [], ◌∷◌, ◌++◌, Option, some,
  arith, length, ◌==◌, if◌then◌else◌, inl, inr, Bool-cases, ==-eq,
}
use mathlib.Core.List.{append_assoc, append-nil}
use inside_system.Sbi.Status.{Status}
use inside_system.Sbi.Word64.{sub64}
use inside_system.Sbi.Fifo.{Fifo}
use inside_system.Sbi.Fifo.Queue
use inside_system.Sbi.Fifo.Refine.{IsValid, contents, sbi_fifo_dequeue-Dequeues}
use inside_system.Sbi.Tlb.{TlbInfo}
use inside_system.Sbi.Tlb.Local.{Fence, local_process}
use inside_system.Sbi.Tlb.Harts.{
  Harts, executed, release_all, tlb_entry_process, with_fifo, dequeued, tlb_process_once,
  tlb_process,
}

-- What the requests ask of a hart, in their order; none where the fuel is too small for one of them.
abbrev pub Works : ℕ → List TlbInfo → List Fence → Type 0
Works fuel [] fs = fs ≡ []
Works fuel (t ∷ ts) fs =
    (gs : List Fence) × (hs : List Fence) × (local_process fuel t ≡ some gs)
    × Works fuel ts hs
    × (fs ≡ gs ++ hs)

-- The answers that a hart gets from the requests that it waits for.
abbrev pub answers : List TlbInfo → ℕ → ℕ → ℕ
answers [] i n = n
answers (t ∷ ts) i n = answers ts i (if t.smask i then sub64 n 1 else n)

-- The fifo is empty, the hart has executed the fences, and each other hart counts its answers.
pub record Drained (me : ℕ) (hs : Harts) (ts : List TlbInfo) (fs : List Fence) (out : Option Harts)
    : Type 0 where
  pub after : Harts
  pub result : out ≡ some after
  pub empty : contents (after me).fifo ≡ []
  pub fences : (after me).fences ≡ (hs me).fences ++ fs
  pub answered : (i : ℕ) → (after i).sync ≡ answers ts i (hs i).sync

-- The harts once `me` has taken a request from its fifo, which is then `f`, and executed `gs` for it.
abbrev taken : ℕ → TlbInfo → Harts → Fifo TlbInfo → List Fence → Harts
taken me t hs f gs = release_all t.smask (executed (with_fifo hs me (some f)) me gs)

taken_fifo :
    (me : ℕ) (t : TlbInfo) (hs : Harts) (f : Fifo TlbInfo) (gs : List Fence)
    → (taken me t hs f gs me).fifo ≡ f
taken_fifo me t hs f gs =
    let here : (me == me) ≡ true = ground arith in
    elim (Bool-cases (t.smask me)) [ inl y ↦ rw (y, here) refl | inr n ↦ rw (n, here) refl ]

taken_fences :
    (me : ℕ) (t : TlbInfo) (hs : Harts) (f : Fifo TlbInfo) (gs : List Fence)
    → (taken me t hs f gs me).fences ≡ (hs me).fences ++ gs
taken_fences me t hs f gs =
    let here : (me == me) ≡ true = ground arith in
    elim (Bool-cases (t.smask me)) [ inl y ↦ rw (y, here) refl | inr n ↦ rw (n, here) refl ]

-- What a hart other than `me`, or `me` itself, then counts.
taken_sync :
    (me i : ℕ) (t : TlbInfo) (hs : Harts) (f : Fifo TlbInfo) (gs : List Fence)
    → (taken me t hs f gs i).sync ≡ (if t.smask i then sub64 (hs i).sync 1 else (hs i).sync)
taken_sync me i t hs f gs =
    let here : (me == me) ≡ true = ground arith in
    elim (Bool-cases (i == me)) [
      | inl own ↦
          let same = ap (λ j. (hs j).sync) (==-eq own) in
          elim (Bool-cases (t.smask i)) [
            | inl y ↦ rw (y, own, here) (ap (λ n. sub64 n 1) (sym same))
            | inr n ↦ rw (n, own, here) (sym same)
          ]
      | inr other ↦ elim (Bool-cases (t.smask i)) [
        | inl y ↦ rw (y, other) refl
        | inr n ↦ rw (n, other) refl
      ]
    ]

once-empty :
    (fuel me : ℕ) (hs : Harts) (v : IsValid (hs me).fifo)
    → contents (hs me).fifo ≡ []
    → (f : Fifo TlbInfo) × (tlb_process_once fuel me hs ≡ some (false, with_fifo hs me (some f)))
      × (contents f ≡ [])
unfolding tlb_process_once
once-empty fuel me hs v e =
    let d = sbi_fifo_dequeue-Dequeues (hs me).fifo v in
    let spec = ap Queue.dequeue e in
    (
      d.after,
      ap (dequeued fuel me hs) (
          d.result
          ∙ ap (λ (s : Status × Option TlbInfo × List TlbInfo). (s.0, s.1, some d.after)) spec),
      d.state.entries ∙ ap (λ (s : Status × Option TlbInfo × List TlbInfo). s.2) spec,
    )

once-taken :
    (fuel me : ℕ) (hs : Harts) (t : TlbInfo) (ts : List TlbInfo) (gs : List Fence)
    (v : IsValid (hs me).fifo)
    → contents (hs me).fifo ≡ t ∷ ts
    → local_process fuel t ≡ some gs
    → (f : Fifo TlbInfo) × (tlb_process_once fuel me hs ≡ some (true, taken me t hs f gs))
      × (contents f ≡ ts)
      × IsValid f
unfolding tlb_process_once tlb_entry_process
once-taken fuel me hs t ts gs v e w =
    let d = sbi_fifo_dequeue-Dequeues (hs me).fifo v in
    let spec = ap Queue.dequeue e in
    (
      d.after,
      ap (dequeued fuel me hs) (
            d.result
            ∙ ap (λ (s : Status × Option TlbInfo × List TlbInfo). (s.0, s.1, some d.after)) spec)
          ∙ rw w refl,
      d.state.entries ∙ ap (λ (s : Status × Option TlbInfo × List TlbInfo). s.2) spec,
      d.state.valid,
    )

with_fifo_sync :
    (me i : ℕ) (hs : Harts) (f : Fifo TlbInfo) → (with_fifo hs me (some f) i).sync ≡ (hs i).sync
with_fifo_sync me i hs f = elim (Bool-cases (i == me)) [
  | inl own ↦ rw own (ap (λ j. (hs j).sync) (sym (==-eq own)))
  | inr other ↦ rw other refl
]

-- Let the fifo of a hart be valid and hold the requests `ts`, which ask for the fences `fs`. In one round
-- more than there are requests the hart empties its fifo, executes just these fences, in their order,
-- and takes one from the count of each hart for each request that this hart waits for.
pub tlb_process-Drained :
    (fuel me rounds : ℕ) (ts : List TlbInfo) (fs : List Fence) (hs : Harts)
    → IsValid (hs me).fifo
    → contents (hs me).fifo ≡ ts
    → Works fuel ts fs
    → length ts < rounds
    → Drained me hs ts fs (tlb_process rounds fuel me hs)
unfolding tlb_process
tlb_process-Drained fuel me zero ts fs hs v e w h = absurd (omega (arith, h))
tlb_process-Drained fuel me (suc rounds) [] fs hs v e w h =
    let (f, r, c) = once-empty fuel me hs v e in
    let here : (me == me) ≡ true = ground arith in
    rw r (record {
      after = with_fifo hs me (some f);
      result = refl;
      empty = rw here c;
      fences = rw (here, w) (sym (append-nil (hs me).fences));
      answered = λ i. with_fifo_sync me i hs f;
    })
tlb_process-Drained fuel me (suc rounds) (t ∷ ts) fs hs v e (gs, more, w, ws, all) h =
    let (f, r, c, vf) = once-taken fuel me hs t ts gs v e w in
    let next = taken me t hs f gs in
    let is_f : (next me).fifo ≡ f = taken_fifo me t hs f gs in
    let rest =
      tlb_process-Drained fuel me rounds ts more next (subst IsValid (sym is_f) vf)
        (ap contents is_f ∙ c) ws (omega (arith, h)) in
    rw r (record {
      after = rest.after;
      result = rest.result;
      empty = rest.empty;
      fences =
          rest.fences
          ∙ (ap (λ xs. xs ++ more) (taken_fences me t hs f gs)
              ∙ (append_assoc (hs me).fences gs more ∙ ap (λ xs. (hs me).fences ++ xs) (sym all)));
      answered = λ i. rest.answered i ∙ ap (answers ts i) (taken_sync me i t hs f gs);
    })
