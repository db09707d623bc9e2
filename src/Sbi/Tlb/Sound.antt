-- ===== src/Sbi/Tlb/Sound.antt =====
-- A request of sbi_tlb.c that is merged with one that waits: nothing that was asked for is lost.
use inside_system.Prelude.{
  ℕ, ◌+◌, ◌-◌, ◌^◌, ◌≤◌, ◌<◌, ◌≡◌, ◌⊎◌, refl, sym, ap, ap₂, ◌∙◌, Bool, true, false, arith, ltb, leb,
  ◌==◌, ◌&&◌, ◌||◌, inl, inr, Bool-cases, ==-eq,
}
use native.Mathlib.Nat.{mod-eq_of_lt}
use inside_system.Sbi.Word64.{add64}
use inside_system.Sbi.Fifo.{fifo_unchanged, fifo_skip, fifo_updated}
use inside_system.Sbi.Tlb.{TlbInfo, sfence_vma, sfence_vma_asid}
use inside_system.Sbi.Tlb.Hits.{page_of, wants, IsPlain, HasFuel, flushes, flushes-wants}
use inside_system.Sbi.Tlb.Merge.{tlb_range_check, tlb_update_cb}

-- The end of a request, which does not wrap.
plain_end :
    (t : TlbInfo)
    → IsPlain t
    → (add64 t.start t.size ≡ t.start + t.size) × (t.start + t.size < 2 ^ 64)
plain_end t p =
    let small : t.start + t.size < 2 ^ 64 = ground (arith, p.fits) in (mod-eq_of_lt small, small)

-- The range of `a` lies in that of `b`.
abbrev Within : TlbInfo → TlbInfo → Type 0
Within a b = (b.start ≤ a.start) × (a.start + a.size ≤ b.start + b.size)

Within-wants :
    (a b : TlbInfo) (va : ℕ)
    → IsPlain a
    → IsPlain b
    → Within a b
    → va < 2 ^ 64
    → (wants a va || wants b va) ≡ wants b va
Within-wants a b va p q w h = ground (arith, p.fits, q.fits, w.0, w.1, h)

-- What the check of the ranges did.
record Merged (curr next : TlbInfo) (out : ℕ × TlbInfo) : Type 0 where
  stops : (out.0 == fifo_skip || out.0 == fifo_updated) ≡ true
  keeps : (out.1.type ≡ curr.type) × (out.1.asid ≡ curr.asid)
  masks : (i : ℕ) → out.1.smask i ≡ (curr.smask i || next.smask i)
  larger :
      ((out.1.start ≡ next.start) × (out.1.size ≡ next.size) × Within curr next)
      ⊎ ((out.1.start ≡ curr.start) × (out.1.size ≡ curr.size) × Within next curr)

tlb_range_check-Merged :
    (curr next : TlbInfo)
    → IsPlain curr
    → IsPlain next
    → (tlb_range_check curr next ≡ (fifo_unchanged, curr))
      ⊎ Merged curr next (tlb_range_check curr next)
unfolding tlb_range_check
tlb_range_check-Merged curr next p q =
    let ce = plain_end curr p in
    let ne = plain_end next q in
    elim (Bool-cases (
      leb next.start curr.start && ltb (add64 curr.start curr.size) (add64 next.start next.size))) [
        | inl over ↦ rw over (
            inr (record {
              stops = refl;
              keeps = (refl, refl);
              masks = λ i. refl;
              larger = inl (refl, refl, ground (arith, over, ce.0, ne.0));
            }))
        | inr not_over ↦
            rw not_over
              (elim (Bool-cases (
                leb curr.start next.start
                && leb (add64 next.start next.size) (add64 curr.start curr.size))) [
                  | inl under ↦ rw under (
                      inr (record {
                        stops = refl;
                        keeps = (refl, refl);
                        masks = λ i. refl;
                        larger = inr (refl, refl, ground (arith, under, ce.0, ne.0));
                      }))
                  | inr apart ↦ rw apart (inl refl)
                ])
      ]

-- The range of a request decides.
same-wants :
    (a b : TlbInfo) (va : ℕ) → a.start ≡ b.start → a.size ≡ b.size → wants a va ≡ wants b va
same-wants a b va s z =
    ap₂
      (λ x y.
        (x == 0 && y == 0 || y == 2 ^ 64 - 1) || (leb x (page_of va) && ltb (page_of va) (x + y)))
      s z

same-IsPlain : (a b : TlbInfo) → a.start ≡ b.start → a.size ≡ b.size → IsPlain b → IsPlain a
same-IsPlain a b s z p = record {
  aligned = omega (arith, s, p.aligned);
  fits = ground (arith, s, z, p.fits);
}

record Ready (fuel : ℕ) (curr next t : TlbInfo) (va : ℕ) : Type 0 where
  plain : IsPlain t
  enough : HasFuel fuel t
  joined : wants t va ≡ (wants curr va || wants next va)

or_comm : (a b : Bool) → (a || b) ≡ (b || a)
or_comm true true = refl
or_comm true false = refl
or_comm false b = ground arith

Merged-Ready :
    (fuel : ℕ) (curr next : TlbInfo) (out : ℕ × TlbInfo) (va : ℕ)
    → IsPlain curr
    → IsPlain next
    → HasFuel fuel curr
    → HasFuel fuel next
    → va < 2 ^ 64
    → Merged curr next out
    → Ready fuel curr next out.1 va
Merged-Ready fuel curr next out va p q h k lt m = elim m.larger [
  | inl (s, z, w) ↦ record {
    plain = same-IsPlain out.1 next s z q;
    enough = ground (arith, z, k);
    joined = same-wants out.1 next va s z ∙ sym (Within-wants curr next va p q w lt);
  }
  | inr (s, z, w) ↦ record {
    plain = same-IsPlain out.1 curr s z p;
    enough = ground (arith, z, h);
    joined =
        same-wants out.1 curr va s z
        ∙ (sym (Within-wants next curr va q p w lt) ∙ or_comm (wants next va) (wants curr va));
  }
]

-- One of the two types that `tlb_update_cb` may merge.
abbrev pub is_sfence : TlbInfo → Bool
is_sfence t = t.type == sfence_vma || t.type == sfence_vma_asid

is_sfence_vma : (t : TlbInfo) → t.type ≡ sfence_vma → is_sfence t ≡ true
is_sfence_vma t e = rw e refl

is_sfence_asid : (t : TlbInfo) → t.type ≡ sfence_vma_asid → is_sfence t ≡ true
is_sfence_asid t e = rw e refl

-- What a call of the callback leaves: the waiting request as it was, or one that the hart drops as much
-- for as for the two together, and that the harts of both wait for.
pub record Joined (fuel : ℕ) (curr next : TlbInfo) (asid va : ℕ) (out : ℕ × TlbInfo) : Type 0 where
  pub stops : (out.0 == fifo_skip || out.0 == fifo_updated) ≡ true
  pub all_dropped :
      flushes fuel out.1 asid va ≡ (flushes fuel curr asid va || flushes fuel next asid va)
  pub all_wait : (i : ℕ) → out.1.smask i ≡ (curr.smask i || next.smask i)
  pub own_kind : (is_sfence curr ≡ true) × (is_sfence next ≡ true) × (is_sfence out.1 ≡ true)

or_and : (a b c : Bool) → ((a || b) && c) ≡ ((a && c) || (b && c))
or_and true b true = refl
or_and true b false = ground arith
or_and false b c = ground arith

module _ (fuel : ℕ) (next curr : TlbInfo) (asid va : ℕ) (p : IsPlain curr) (q : IsPlain next)
    (h : HasFuel fuel curr) (k : HasFuel fuel next) (lt : va < 2 ^ 64) where
  Merged-vma :
      (out : ℕ × TlbInfo)
      → curr.type ≡ sfence_vma
      → next.type ≡ sfence_vma
      → Merged curr next out
      → Joined fuel curr next asid va out
  Merged-vma out tc tn m =
      let r = Merged-Ready fuel curr next out va p q h k lt m in
      record {
        stops = m.stops;
        all_dropped =
            (flushes-wants fuel out.1 asid va r.plain r.enough).0 (m.keeps.0 ∙ tc)
            ∙ (r.joined
                ∙ ap₂ ◌||◌ (sym ((flushes-wants fuel curr asid va p h).0 tc))
                    (sym ((flushes-wants fuel next asid va q k).0 tn)));
        all_wait = m.masks;
        own_kind =
            (is_sfence_vma curr tc, is_sfence_vma next tn, is_sfence_vma out.1 (m.keeps.0 ∙ tc));
      }

  Merged-asid :
      (out : ℕ × TlbInfo)
      → curr.type ≡ sfence_vma_asid
      → next.type ≡ sfence_vma_asid
      → next.asid ≡ curr.asid
      → Merged curr next out
      → Joined fuel curr next asid va out
  Merged-asid out tc tn same m =
      let r = Merged-Ready fuel curr next out va p q h k lt m in
      record {
        stops = m.stops;
        all_dropped =
            (flushes-wants fuel out.1 asid va r.plain r.enough).1 (m.keeps.0 ∙ tc)
            ∙ (ap₂ (λ w x. w && x == asid) r.joined m.keeps.1
                ∙ (or_and (wants curr va) (wants next va) (curr.asid == asid)
                    ∙ ap₂ ◌||◌ (sym ((flushes-wants fuel curr asid va p h).1 tc)) (
                        ap (λ x. wants next va && x == asid) (sym same)
                        ∙ sym ((flushes-wants fuel next asid va q k).1 tn))));
        all_wait = m.masks;
        own_kind =
            (is_sfence_asid curr tc, is_sfence_asid next tn, is_sfence_asid out.1 (m.keeps.0 ∙ tc));
      }

  -- For requests that start at a page, end before the last page and are not for everything by start 0
  -- and size 0: either the waiting request is as it was, and SBI_FIFO_UNCHANGED is returned, or the hart
  -- that takes it drops an address of an address space exactly when it would for one of the two, and it
  -- lets the harts of both go on.
  pub tlb_update_cb-Joined :
      (tlb_update_cb next curr ≡ (fifo_unchanged, curr))
      ⊎ Joined fuel curr next asid va (tlb_update_cb next curr)
  unfolding tlb_update_cb
  tlb_update_cb-Joined =
      elim (Bool-cases (next.type == sfence_vma_asid && curr.type == sfence_vma_asid)) [
        | inl both ↦ rw both (elim (Bool-cases (next.asid == curr.asid)) [
          | inr other ↦ rw other (inl refl)
          | inl same ↦ rw same (elim (tlb_range_check-Merged curr next p q) [
            | inl e ↦ inl e
            | inr m ↦ inr (
                Merged-asid (tlb_range_check curr next) (ground (arith, both))
                  (ground (arith, both)) (==-eq same) m)
          ])
        ])
        | inr not_asid ↦
            rw not_asid (elim (Bool-cases (next.type == sfence_vma && curr.type == sfence_vma)) [
              | inr other ↦ rw other (inl refl)
              | inl both ↦ rw both (elim (tlb_range_check-Merged curr next p q) [
                | inl e ↦ inl e
                | inr m ↦ inr (
                    Merged-vma (tlb_range_check curr next) (ground (arith, both))
                      (ground (arith, both)) m)
              ])
            ])
      ]
