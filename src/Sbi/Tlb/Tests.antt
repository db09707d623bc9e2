-- ===== src/Sbi/Tlb/Tests.antt =====
-- Runs of the requests, and their theorems at concrete inputs.
use inside_system.Prelude.{◌≡◌, ◌==◌, refl, sym, subst, true, false, [], ◌∷◌, some, arith, inr}
use inside_system.Sbi.Status.{ok}
use inside_system.Sbi.Fifo.{Fifo, fifo_skip, fifo_updated}
use inside_system.Sbi.Fifo.Refine.{IsValid, contents}
use inside_system.Sbi.Tlb.{TlbInfo, sbi_tlb_request}
use inside_system.Sbi.Tlb.Local.{Fence.page, pages_from, local_process}
use inside_system.Sbi.Tlb.Hits.{IsPlain, flushes}
use inside_system.Sbi.Tlb.Merge.{tlb_update_cb}
use inside_system.Sbi.Tlb.Harts.{Harts, tlb_process, tlb_update}
use inside_system.Sbi.Tlb.Pending.{
  AllPlain, AllPlain.none_waits, AllPlain.one_waits, Sent, tlb_update-Sent,
}
use inside_system.Sbi.Tlb.Drain.{Drained, tlb_process-Drained}
use inside_system.Sbi.Tlb.Lost.{flush_all-lost}
use inside_system.Sbi.Tlb.Request.{Sends, sbi_tlb_request-Sends}

-- Two pages, for hart 2; and a range of three pages that holds them, for hart 0.
abbrev waiting : TlbInfo
waiting = record { start = 0; size = 8192; asid = 0; vmid = 0; type = 1; smask = λ i. i == 2 }

abbrev wider : TlbInfo
wider = record { start = 0; size = 12288; asid = 0; vmid = 0; type = 1; smask = λ i. i == 0 }

abbrev everything : TlbInfo
everything = record { start = 0; size = 0; asid = 0; vmid = 0; type = 1; smask = λ i. i == 0 }

waiting-IsPlain : IsPlain waiting
waiting-IsPlain = record { aligned = refl; fits = inr (omega arith, omega arith) }

wider-IsPlain : IsPlain wider
wider-IsPlain = record { aligned = refl; fits = inr (omega arith, omega arith) }

abbrev one_entry : Fifo TlbInfo
one_entry = record { queue = λ _. waiting; locked = false; num_entries = 8; avail = 1; tail = 0 }

abbrev harts : Harts
harts _ = record { fifo = one_entry; sync = 1; fences = [] }

one_entry-IsValid : IsValid one_entry
one_entry-IsValid = record {
  some_entries = omega arith;
  small = omega arith;
  tail_in = omega arith;
  avail_in = omega arith;
}

one_entry-contents : contents one_entry ≡ waiting ∷ []
one_entry-contents = refl

one_entry-AllPlain : AllPlain 5 (contents one_entry)
one_entry-AllPlain =
    subst (AllPlain 5) (sym one_entry-contents)
      (one_waits waiting [] waiting-IsPlain (inr (omega arith)) none_waits)

-- The entry is widened, and hart 1 then flushes three pages.
widened : (tlb_update_cb wider waiting).0 ≡ fifo_updated
unfolding tlb_update_cb
widened = refl

three_pages : local_process 5 wider ≡ some (page 0 ∷ page 4096 ∷ page 8192 ∷ [])
unfolding local_process pages_from
three_pages = refl

two_pages : local_process 5 waiting ≡ some (page 0 ∷ page 4096 ∷ [])
unfolding local_process pages_from
two_pages = refl

tlb_update-Sent_example :
    Sent 5 wider 0 8192 wider-IsPlain
      (inr (omega arith))
      (omega arith)
      0
      1
      harts
      (tlb_update 5 0 1 wider harts)
tlb_update-Sent_example =
    tlb_update-Sent 5 wider 0 8192 wider-IsPlain (inr (omega arith)) (omega arith) 0 1 harts
      (λ e. omega (arith, e)) one_entry-IsValid one_entry-AllPlain (omega arith)

tlb_process-Drained_example :
    Drained 1 harts (waiting ∷ []) (page 0 ∷ page 4096 ∷ []) (tlb_process 2 5 1 harts)
tlb_process-Drained_example =
    tlb_process-Drained 5 1 2 (waiting ∷ []) (page 0 ∷ page 4096 ∷ []) harts one_entry-IsValid
      one_entry-contents (page 0 ∷ page 4096 ∷ [], [], two_pages, refl, refl) (omega arith)

flush_all-lost_example :
    ((tlb_update_cb everything waiting).0 ≡ fifo_skip)
    × (flushes 5 everything 0 8192 ≡ true)
    × (flushes 5 (tlb_update_cb everything waiting).1 0 8192 ≡ false)
flush_all-lost_example =
    flush_all-lost 5 waiting everything 0 8192 refl refl refl refl refl (omega arith) (omega arith)
      (inr (omega arith)) (omega arith)

sbi_tlb_request-Sends_example :
    (s : TlbInfo) × (sbi_tlb_request (λ _. ok) 4096 wider ≡ ok) × Sends 4096 wider s
sbi_tlb_request-Sends_example =
    sbi_tlb_request-Sends (λ _. ok) 4096 wider (omega arith) refl (omega arith) (omega arith)
