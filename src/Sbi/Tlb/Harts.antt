-- ===== src/Sbi/Tlb/Harts.antt =====
-- The harts of sbi_tlb.c: `tlb_entry_process`, `tlb_process_once`, `tlb_process` and `tlb_update`.
use inside_system.Prelude.{
  ℕ, zero, suc, Bool, true, false, List, ◌++◌, Option, none, some, ◌==◌, if◌then◌else◌,
}
use inside_system.Sbi.Status.{Status, Status.code}
use inside_system.Sbi.Word64.{add64, sub64}
use inside_system.Sbi.Fifo.{
  Fifo, fifo_unchanged, sbi_fifo_enqueue, sbi_fifo_dequeue, sbi_fifo_inplace_update,
}
use inside_system.Sbi.Tlb.{TlbInfo}
use inside_system.Sbi.Tlb.Local.{Fence, local_process}
use inside_system.Sbi.Tlb.Merge.{tlb_update_cb}

-- The scratch space of a hart as far as this file goes, and the fences that the hart has executed.
pub record TlbScratch : Type 0 where
  pub fifo : Fifo TlbInfo
  pub sync : ℕ
  pub fences : List Fence

-- By hart index. Each hart has a scratch space, and its hart id is its own.
abbrev pub Harts : Type 0
Harts = ℕ → TlbScratch

abbrev pub put : Harts → ℕ → TlbScratch → Harts
put hs i s j = if j == i then s else hs j

abbrev pub executed : Harts → ℕ → List Fence → Harts
executed hs me fs = put hs me (let s = hs me in record s { fences = s.fences ++ fs })

-- The loop of `tlb_entry_process` over the mask: one less to wait for.
abbrev pub release_all : (ℕ → Bool) → Harts → Harts
release_all smask hs i = let s = hs i in if smask i then record s { sync = sub64 s.sync 1 } else s

abbrev pub processed : ℕ → TlbInfo → Harts → Option (List Fence) → Option Harts
processed me t hs none = none
processed me t hs (some fs) = some (release_all t.smask (executed hs me fs))

-- `tlb_entry_process` on the hart `me`; `none` where the fuel of the local loop is too small.
unfoldable pub tlb_entry_process : ℕ → ℕ → TlbInfo → Harts → Option Harts
tlb_entry_process fuel me t hs = processed me t hs (local_process fuel t)

abbrev pub with_fifo : Harts → ℕ → Option (Fifo TlbInfo) → Harts
with_fifo hs me none = hs
with_fifo hs me (some f) = put hs me (let s = hs me in record s { fifo = f })

abbrev pub tell : Bool → Option Harts → Option (Bool × Harts)
tell b none = none
tell b (some hs) = some (b, hs)

abbrev pub dequeued :
    ℕ → ℕ → Harts → Status × Option TlbInfo × Option (Fifo TlbInfo) → Option (Bool × Harts)
dequeued fuel me hs (r, none, f) = some (false, with_fifo hs me f)
dequeued fuel me hs (r, some t, f) = tell true (tlb_entry_process fuel me t (with_fifo hs me f))

-- `tlb_process_once`
unfoldable pub tlb_process_once : ℕ → ℕ → Harts → Option (Bool × Harts)
tlb_process_once fuel me hs = dequeued fuel me hs (sbi_fifo_dequeue (some (hs me).fifo) true)

abbrev pub again : (Harts → Option Harts) → Option (Bool × Harts) → Option Harts
again loop none = none
again loop (some (true, hs)) = loop hs
again loop (some (false, hs)) = some hs

-- `tlb_process`, for at most `rounds` rounds.
unfoldable pub tlb_process : ℕ → ℕ → ℕ → Harts → Option Harts
tlb_process zero fuel me hs = none
tlb_process (suc rounds) fuel me hs =
    again (tlb_process rounds fuel me) (tlb_process_once fuel me hs)

-- `SBI_IPI_UPDATE_SUCCESS`, `SBI_IPI_UPDATE_BREAK`, `SBI_IPI_UPDATE_RETRY`
pub data Update : Type 0 where
  success break retry : Update

abbrev pub count_one : ℕ → Harts → Option (Update × Harts)
count_one me hs = some (success, put hs me (let s = hs me in record s { sync = add64 s.sync 1 }))

abbrev pub retried : Option (Bool × Harts) → Option (Update × Harts)
retried none = none
retried (some (b, hs)) = some (retry, hs)

abbrev pub broken : ℕ → Harts → Option (List Fence) → Option (Update × Harts)
broken me hs none = none
broken me hs (some fs) = some (break, executed hs me fs)

-- What follows `sbi_fifo_enqueue`, whose failures are the codes below 0.
abbrev pub enqueued : ℕ → ℕ → ℕ → Harts → Status × Option (Fifo TlbInfo) → Option (Update × Harts)
enqueued fuel me remote hs (code n, f) = count_one me (with_fifo hs remote f)
enqueued fuel me remote hs (r, f) = retried (tlb_process_once fuel me (with_fifo hs remote f))

abbrev pub offered :
    ℕ → ℕ → ℕ → TlbInfo → Harts → ℕ × Option (Fifo TlbInfo) → Option (Update × Harts)
offered fuel me remote t hs (r, f) =
    if r == fifo_unchanged
    then enqueued fuel me remote hs (sbi_fifo_enqueue f (some t) false)
    else count_one me (with_fifo hs remote f)

-- `tlb_update` on the hart `me` for the hart `remote`.
unfoldable pub tlb_update : ℕ → ℕ → ℕ → TlbInfo → Harts → Option (Update × Harts)
tlb_update fuel me remote t hs =
    if remote == me
    then broken me hs (local_process fuel t)
    else offered fuel me remote t hs
        (sbi_fifo_inplace_update (some (hs remote).fifo) (some (tlb_update_cb t)))
