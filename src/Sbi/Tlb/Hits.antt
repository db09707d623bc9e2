-- ===== src/Sbi/Tlb/Hits.antt =====
-- Which virtual addresses the fences of a request of sbi_tlb.c reach.
use inside_system.Prelude.{
  ℕ, zero, suc, ◌+◌, ◌*◌, ◌/◌, ◌%◌, ◌^◌, ◌≤◌, ◌<◌, ◌≡◌, ◌⊎◌, refl, ap, ap₂, ◌∙◌, Bool, true, false,
  List, [], ◌∷◌, Option, none, some, arith, ltb, leb, ◌==◌, ◌&&◌, ◌||◌, inl, inr, Bool-cases,
}
use inside_system.Sbi.Word64.{add64}
use inside_system.Sbi.Tlb.{TlbInfo, sfence_vma, sfence_vma_asid, flush_all}
use inside_system.Sbi.Tlb.Local.{
  Fence, Fence.all_pages, Fence.page, Fence.all_asid, Fence.page_asid, is_all, pages_from, ranged,
  local_process,
}

-- Whether a fence drops what the hart knows of the page of `va` in the address space `asid`. The
-- fences of the hypervisor and those for instructions are left out.
abbrev pub hits : Fence → ℕ → ℕ → Bool
hits all_pages asid va = true
hits (page a) asid va = a / 4096 == va / 4096
hits (all_asid x) asid va = x == asid
hits (page_asid a x) asid va = a / 4096 == va / 4096 && x == asid
hits f asid va = false

abbrev pub hits_any : List Fence → ℕ → ℕ → Bool
hits_any [] asid va = false
hits_any (f ∷ fs) asid va = hits f asid va || hits_any fs asid va

abbrev pub hits_option : Option (List Fence) → ℕ → ℕ → Bool
hits_option none asid va = false
hits_option (some fs) asid va = hits_any fs asid va

-- What a hart drops for a request.
abbrev pub flushes : ℕ → TlbInfo → ℕ → ℕ → Bool
flushes fuel t asid va = hits_option (local_process fuel t) asid va

abbrev pub page_of : ℕ → ℕ
page_of va = va / 4096 * 4096

-- The same, read off the request: everything, or the pages that start in its range.
abbrev pub wants : TlbInfo → ℕ → Bool
wants t va = is_all t || (leb t.start (page_of va) && ltb (page_of va) (t.start + t.size))

-- A request that starts at a page and ends before the last page of the address space, or is for
-- everything by its size.
pub record IsPlain (t : TlbInfo) : Type 0 where
  pub aligned : t.start % 4096 ≡ 0
  pub fits :
      ((t.start ≡ 0) × (t.size ≡ flush_all))
      ⊎ ((0 < t.start + t.size) × (t.start + t.size + 4096 ≤ 2 ^ 64))

pages_from-stop :
    (fuel i size : ℕ) (at : ℕ → Fence)
    → ltb i size ≡ false
    → pages_from (suc fuel) i size at ≡ some []
unfolding pages_from
pages_from-stop fuel i size at done = rw done refl

pages_from-step :
    (fuel i size : ℕ) (at : ℕ → Fence) (fs : List Fence)
    → size + 4096 ≤ 2 ^ 64
    → ltb i size ≡ true
    → pages_from fuel (i + 4096) size at ≡ some fs
    → pages_from (suc fuel) i size at ≡ some (at i ∷ fs)
unfolding pages_from
pages_from-step fuel i size at fs fit more e =
    let next : add64 i 4096 ≡ i + 4096 = ground (arith, more, fit) in rw (more, next, e) refl

-- Enough fuel: one test more than there are pages.
abbrev Enough : ℕ → ℕ → ℕ → Type 0
Enough fuel i size = (i ≤ size + 4095) × (size + 4096 ≤ i + fuel * 4096)

-- One round of the loop, and what is left.
split_range :
    (s e v : ℕ) (own : Bool)
    → s % 4096 ≡ 0
    → s < e
    → (((s / 4096 == v / 4096) && own)
        || ((leb (s + 4096) (page_of v) && ltb (page_of v) e) && own))
      ≡ ((leb s (page_of v) && ltb (page_of v) e) && own)
split_range s e v own a lt =
    let whole : s ≡ s / 4096 * 4096 = omega (arith, a) in ground (arith, whole, lt)

first_page :
    (s e s' v a asid : ℕ) (own : Bool) (at : ℕ → Fence)
    → ((a : ℕ) → hits (at a) asid v ≡ (a / 4096 == v / 4096 && own))
    → a ≡ s
    → s' ≡ s + 4096
    → s % 4096 ≡ 0
    → s < e
    → (hits (at a) asid v || ((leb s' (page_of v) && ltb (page_of v) e) && own))
      ≡ ((leb s (page_of v) && ltb (page_of v) e) && own)
first_page s e s' v a asid own at f here next al lt =
    ap (λ b. b || ((leb s' (page_of v) && ltb (page_of v) e) && own)) (f a)
    ∙ (ap₂
          (λ x y.
            ((x / 4096 == v / 4096) && own) || ((leb y (page_of v) && ltb (page_of v) e) && own))
          here next
        ∙ split_range s e v own al lt)

-- The loop from `i` on ends, and reaches the pages from `start + i` to the end of the range.
pages_from-hits :
    (fuel i size start asid va : ℕ) (own : Bool) (at : ℕ → Fence)
    → ((a : ℕ) → hits (at a) asid va ≡ (a / 4096 == va / 4096 && own))
    → start % 4096 ≡ 0
    → i % 4096 ≡ 0
    → start + size + 4096 ≤ 2 ^ 64
    → Enough fuel i size
    → (fs : List Fence) × (pages_from fuel i size (λ k. at (add64 start k)) ≡ some fs)
      × (hits_any fs asid va
          ≡ ((leb (start + i) (page_of va) && ltb (page_of va) (start + size)) && own))
pages_from-hits zero i size start asid va own at f ha hi fit h = absurd (omega (arith, h))
pages_from-hits (suc fuel) i size start asid va own at f ha hi fit h =
    elim (Bool-cases (ltb i size)) [
      | inr done ↦
          ([], pages_from-stop fuel i size (λ k. at (add64 start k)) done, ground (arith, done))
      | inl more ↦
          let (fs, e, rest) =
            pages_from-hits fuel (i + 4096) size start asid va own at f ha (omega (arith, hi)) fit
              (ground (arith, more), omega (arith, h.1)) in
          let here : add64 start i ≡ start + i = ground (arith, more, fit) in
          (
            at (add64 start i) ∷ fs,
            pages_from-step fuel i size (λ k. at (add64 start k)) fs (omega (arith, fit)) more e,
            ap (λ b. hits (at (add64 start i)) asid va || b) rest
                ∙ first_page (start + i) (start + size) (start + (i + 4096)) va (add64 start i) asid
                    own at f here (omega arith) (omega (arith, ha, hi)) (ground (arith, more)),
          )
    ]

-- The tests of the local loop for a request.
abbrev pub HasFuel : ℕ → TlbInfo → Type 0
HasFuel fuel t = (t.size ≡ flush_all) ⊎ (t.size + 4096 ≤ fuel * 4096)

-- Everything, or what the loop reaches: either way the pages of the range.
ranged-hits :
    (fuel : ℕ) (t : TlbInfo) (asid va : ℕ) (own : Bool) (all : Fence) (at : ℕ → Fence)
    → hits all asid va ≡ own
    → ((a : ℕ) → hits (at a) asid va ≡ (a / 4096 == va / 4096 && own))
    → IsPlain t
    → HasFuel fuel t
    → hits_option (ranged fuel t all at) asid va ≡ (wants t va && own)
ranged-hits fuel t asid va own all at g f p h = elim (Bool-cases (is_all t)) [
  | inl every ↦ rw (every, g) (elim (Bool-cases own) [ inl y ↦ rw y refl | inr n ↦ rw n refl ])
  | inr some_pages ↦
      let fit : t.start + t.size + 4096 ≤ 2 ^ 64 = ground (arith, p.fits, some_pages) in
      let turns : t.size + 4096 ≤ fuel * 4096 = ground (arith, h, some_pages) in
      let (fs, e, q) =
        pages_from-hits fuel 0 t.size t.start asid va own at f p.aligned refl fit
          (omega arith, omega (arith, turns)) in
      rw (some_pages, e, q)
        (ap (λ z. (leb z (page_of va) && ltb (page_of va) (t.start + t.size)) && own) (omega arith))
]

-- A hart drops, for a request of the two types of sfence.vma, the pages of its range in the address
-- space, or in all of them.
pub flushes-wants :
    (fuel : ℕ) (t : TlbInfo) (asid va : ℕ)
    → IsPlain t
    → HasFuel fuel t
    → ((t.type ≡ sfence_vma) → flushes fuel t asid va ≡ wants t va)
      × ((t.type ≡ sfence_vma_asid) → flushes fuel t asid va ≡ (wants t va && t.asid == asid))
unfolding local_process
flushes-wants fuel t asid va p h = (
  (λ e.
      rw e (
        ranged-hits fuel t asid va true all_pages page refl (λ a. ground arith) p h
        ∙ ground arith)),
  λ e. rw e (
      ranged-hits fuel t asid va (t.asid == asid) (all_asid t.asid) (λ a. page_asid a t.asid) refl
        (λ a. refl) p h),
)
