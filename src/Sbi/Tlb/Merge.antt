-- ===== src/Sbi/Tlb/Merge.antt =====
-- `tlb_range_check` and `tlb_update_cb` of sbi_tlb.c: a request against one that waits.
use inside_system.Prelude.{ℕ, Bool, ltb, leb, ◌==◌, ◌&&◌, ◌||◌, if◌then◌else◌}
use inside_system.Sbi.Word64.{add64}
use inside_system.Sbi.Fifo.{fifo_skip, fifo_updated, fifo_unchanged}
use inside_system.Sbi.Tlb.{TlbInfo, sfence_vma, sfence_vma_asid}

-- `sbi_hartmask_or`
abbrev pub mask_or : (ℕ → Bool) → (ℕ → Bool) → ℕ → Bool
mask_or a b i = a i || b i

-- The result, and `curr` as it is left.
unfoldable pub tlb_range_check : TlbInfo → TlbInfo → ℕ × TlbInfo
tlb_range_check curr next =
    let next_end = add64 next.start next.size in
    let curr_end = add64 curr.start curr.size in
    if leb next.start curr.start && ltb curr_end next_end
    then (
      fifo_updated,
      record curr { start = next.start; size = next.size; smask = mask_or curr.smask next.smask },
    )
    else if leb curr.start next.start && leb next_end curr_end
    then (fifo_skip, record curr { smask = mask_or curr.smask next.smask })
    else (fifo_unchanged, curr)

unfoldable pub tlb_update_cb : TlbInfo → TlbInfo → ℕ × TlbInfo
unfolding tlb_range_check
tlb_update_cb next curr =
    if next.type == sfence_vma_asid && curr.type == sfence_vma_asid
    then if next.asid == curr.asid then tlb_range_check curr next else (fifo_unchanged, curr)
    else if next.type == sfence_vma && curr.type == sfence_vma
    then tlb_range_check curr next
    else (fifo_unchanged, curr)
