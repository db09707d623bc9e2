-- ===== src/Sbi/Tlb/Local.antt =====
-- What a hart does for a request: `tlb_entry_local_process` of sbi_tlb.c, as the fences it executes.
use mathlib.Core.Option
use inside_system.Prelude.{
  ℕ, zero, suc, ◌/◌, ◌%◌, ◌^◌, Bool, List, [], ◌∷◌, Option, none, some, ltb, ◌==◌, ◌&&◌, ◌||◌,
  if◌then◌else◌,
}
use inside_system.Sbi.Word64.{add64}
use inside_system.Sbi.Tlb.{
  TlbInfo, fence_i, sfence_vma, sfence_vma_asid, hfence_gvma_vmid, hfence_gvma, hfence_vvma_asid,
  hfence_vvma, flush_all,
}

-- The fence instructions, with the operands they are given. Those of the hypervisor for guest virtual
-- addresses run under the VMID that is put in hgatp.
pub data Fence : Type 0 where
  instructions : Fence
  all_pages : Fence
  page : ℕ → Fence
  all_asid : ℕ → Fence
  page_asid : ℕ → ℕ → Fence
  guest_all_vmid : ℕ → Fence
  guest_page_vmid : ℕ → ℕ → Fence
  guest_all : Fence
  guest_page : ℕ → Fence
  virtual_all_asid : ℕ → ℕ → Fence
  virtual_page_asid : ℕ → ℕ → ℕ → Fence
  virtual_all : ℕ → Fence
  virtual_page : ℕ → ℕ → Fence

-- `PAGE_SIZE`
abbrev pub page_size : ℕ
page_size = 4096

-- `vmid << HGATP_VMID_SHIFT & HGATP_VMID_MASK`, as the VMID that it sets.
abbrev pub hgatp_vmid : ℕ → ℕ
hgatp_vmid vmid = vmid % 2 ^ 14

-- The test that each of the functions begins with.
abbrev pub is_all : TlbInfo → Bool
is_all t = (t.start == 0 && t.size == 0) || t.size == flush_all

-- `for (i = 0; i < size; i += PAGE_SIZE)`, from `i` on, for at most `fuel` tests; `none` needs more.
unfoldable pub pages_from : ℕ → ℕ → ℕ → (ℕ → Fence) → Option (List Fence)
pages_from zero i size at = none
pages_from (suc fuel) i size at =
    let rest = pages_from fuel (add64 i page_size) size at in
    if ltb i size then Option.map (λ fs. at i ∷ fs) rest else some []

abbrev pub ranged : ℕ → TlbInfo → Fence → (ℕ → Fence) → Option (List Fence)
ranged fuel t all at =
    if is_all t then some (all ∷ []) else pages_from fuel 0 t.size (λ i. at (add64 t.start i))

abbrev pub local_sfence_vma : ℕ → TlbInfo → Option (List Fence)
local_sfence_vma fuel t = ranged fuel t all_pages page

abbrev pub local_sfence_vma_asid : ℕ → TlbInfo → Option (List Fence)
local_sfence_vma_asid fuel t = ranged fuel t (all_asid t.asid) (λ a. page_asid a t.asid)

abbrev pub local_hfence_gvma_vmid : ℕ → TlbInfo → Option (List Fence)
local_hfence_gvma_vmid fuel t =
    ranged fuel t (guest_all_vmid t.vmid) (λ a. guest_page_vmid (a / 4) t.vmid)

abbrev pub local_hfence_gvma : ℕ → TlbInfo → Option (List Fence)
local_hfence_gvma fuel t = ranged fuel t guest_all (λ a. guest_page (a / 4))

abbrev pub local_hfence_vvma_asid : ℕ → TlbInfo → Option (List Fence)
local_hfence_vvma_asid fuel t =
    ranged fuel t (virtual_all_asid (hgatp_vmid t.vmid) t.asid)
      (λ a. virtual_page_asid (hgatp_vmid t.vmid) a t.asid)

abbrev pub local_hfence_vvma : ℕ → TlbInfo → Option (List Fence)
local_hfence_vvma fuel t =
    ranged fuel t (virtual_all (hgatp_vmid t.vmid)) (λ a. virtual_page (hgatp_vmid t.vmid) a)

-- `tlb_entry_local_process`
unfoldable pub local_process : ℕ → TlbInfo → Option (List Fence)
local_process fuel t =
    if t.type == fence_i
    then some (instructions ∷ [])
    else if t.type == sfence_vma
    then local_sfence_vma fuel t
    else if t.type == sfence_vma_asid
    then local_sfence_vma_asid fuel t
    else if t.type == hfence_gvma_vmid
    then local_hfence_gvma_vmid fuel t
    else if t.type == hfence_gvma
    then local_hfence_gvma fuel t
    else if t.type == hfence_vvma_asid
    then local_hfence_vvma_asid fuel t
    else if t.type == hfence_vvma
    then local_hfence_vvma fuel t
    else some []
