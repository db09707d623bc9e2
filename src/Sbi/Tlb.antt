-- ===== src/Sbi/Tlb.antt =====
-- OS_Spring_2026/course_3/opensbi/lib/sbi/sbi_tlb.c: requests to flush the translation caches of other
-- harts, in a fifo for each hart. unsigned long has 64 bits.
pub mod Local
pub mod Hits
pub mod Merge
pub mod Harts
pub mod Lost
pub mod Sound
pub mod Pending
pub mod Request
pub mod Drain
mod Tests
use inside_system.Prelude.{
  ℕ, zero, suc, ◌+◌, ◌-◌, ◌^◌, Bool, true, false, ◌&&◌, ◌||◌, ltb, leb, ◌==◌, if◌then◌else◌,
}
use inside_system.Sbi.Status.{Status, Status.einval}
use inside_system.Sbi.Word64.{add64}

-- `struct sbi_tlb_info`; the type is its number, `smask` the harts that wait for the request.
pub record TlbInfo : Type 0 where
  pub start : ℕ
  pub size : ℕ
  pub asid : ℕ
  pub vmid : ℕ
  pub type : ℕ
  pub smask : ℕ → Bool

-- `enum sbi_tlb_type`
abbrev pub fence_i : ℕ
fence_i = 0

abbrev pub sfence_vma : ℕ
sfence_vma = 1

abbrev pub sfence_vma_asid : ℕ
sfence_vma_asid = 2

abbrev pub hfence_gvma_vmid : ℕ
hfence_gvma_vmid = 3

abbrev pub hfence_gvma : ℕ
hfence_gvma = 4

abbrev pub hfence_vvma_asid : ℕ
hfence_vvma_asid = 5

abbrev pub hfence_vvma : ℕ
hfence_vvma = 6

abbrev pub tlb_type_max : ℕ
tlb_type_max = 7

-- `SBI_TLB_FLUSH_ALL`
abbrev pub flush_all : ℕ
flush_all = 2 ^ 64 - 1

-- `sbi_tlb_request`: the request that is sent. `send` is what `sbi_ipi_send_many` returns for it, and
-- `limit` is `tlb_range_flush_limit`. The type, which is unsigned, is not below 0.
unfoldable pub limited : ℕ → TlbInfo → TlbInfo
limited limit t = if ltb limit t.size then record t { start = 0; size = flush_all } else t

unfoldable pub sbi_tlb_request : (TlbInfo → Status) → ℕ → TlbInfo → Status
unfolding limited
sbi_tlb_request send limit t = if leb tlb_type_max t.type then einval else send (limited limit t)
