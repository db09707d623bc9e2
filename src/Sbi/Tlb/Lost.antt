-- ===== src/Sbi/Tlb/Lost.antt =====
-- A request of sbi_tlb.c for everything, in the form start 0 and size 0, against one that waits.
use inside_system.Prelude.{ℕ, ◌+◌, ◌^◌, ◌≤◌, ◌<◌, ◌≡◌, refl, ap, ◌∙◌, true, false, arith, inr}
use inside_system.Sbi.Fifo.{fifo_skip}
use inside_system.Sbi.Tlb.{TlbInfo, sfence_vma}
use inside_system.Sbi.Tlb.Local.{local_process}
use inside_system.Sbi.Tlb.Hits.{page_of, wants, IsPlain, HasFuel, flushes, flushes-wants}
use inside_system.Sbi.Tlb.Merge.{mask_or, tlb_update_cb}

-- The waiting request takes the new one for a part of its range.
skipped :
    (curr next : TlbInfo)
    → curr.type ≡ sfence_vma
    → next.type ≡ sfence_vma
    → next.start ≡ 0
    → next.size ≡ 0
    → curr.start ≡ 0
    → curr.size < 2 ^ 64
    → tlb_update_cb next curr ≡ (fifo_skip, record curr { smask = mask_or curr.smask next.smask })
unfolding tlb_update_cb
skipped curr next tc tn s z c small = ground (arith, tc, tn, s, z, c, small)

-- Where a request of the type sfence.vma for everything, by start 0 and size 0, meets a waiting
-- request of that type for a range from 0 on that ends before the last page, it is skipped. A hart
-- that takes the first drops every address, but one that takes what then waits, with enough fuel
-- for its pages, drops no page behind the range.
pub flush_all-lost :
    (fuel : ℕ) (curr next : TlbInfo) (asid va : ℕ)
    → curr.type ≡ sfence_vma
    → next.type ≡ sfence_vma
    → next.start ≡ 0
    → next.size ≡ 0
    → curr.start ≡ 0
    → 0 < curr.size
    → curr.size + 4096 ≤ 2 ^ 64
    → HasFuel fuel curr
    → curr.size ≤ page_of va
    → ((tlb_update_cb next curr).0 ≡ fifo_skip)
      × (flushes fuel next asid va ≡ true)
      × (flushes fuel (tlb_update_cb next curr).1 asid va ≡ false)
unfolding local_process
flush_all-lost fuel curr next asid va tc tn s z c some_size small h far =
    let e = skipped curr next tc tn s z c (omega (arith, small)) in
    let curr' : TlbInfo = record curr { smask = mask_or curr.smask next.smask } in
    let plain : IsPlain curr' = record {
      aligned = omega (arith, c);
      fits = inr (omega (arith, some_size), omega (arith, c, small));
    } in
    let kept : flushes fuel curr' asid va ≡ wants curr' va =
      (flushes-wants fuel curr' asid va plain h).0 tc in
    let nothing : wants curr' va ≡ false = ground (arith, c, some_size, small, far) in
    (
      ap (λ (r : ℕ × TlbInfo). r.0) e,
      rw (tn, s, z) refl,
      ap (λ (r : ℕ × TlbInfo). flushes fuel r.1 asid va) e ∙ (kept ∙ nothing),
    )
