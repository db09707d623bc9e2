-- ===== src/Sbi/Tlb/Request.antt =====
-- `sbi_tlb_request` of sbi_tlb.c.
use inside_system.Prelude.{
  ℕ, ◌+◌, ◌*◌, ◌/◌, ◌%◌, ◌^◌, ◌≤◌, ◌<◌, ◌≡◌, refl, true, false, arith, ltb, leb, inl, inr,
  Bool-cases,
}
use inside_system.Sbi.Status.{Status}
use inside_system.Sbi.Tlb.{TlbInfo, tlb_type_max, flush_all, limited, sbi_tlb_request}
use inside_system.Sbi.Tlb.Hits.{wants, IsPlain, HasFuel}

-- What is sent for a request: of the same kind, the request itself up to the limit and one for
-- everything above it, and for all that was asked.
pub record Sends (limit : ℕ) (t s : TlbInfo) : Type 0 where
  pub same_kind : (s.type ≡ t.type) × (s.asid ≡ t.asid) × (s.vmid ≡ t.vmid)
  pub short_kept : t.size ≤ limit → s ≡ t
  pub long_all : limit < t.size → (s.start ≡ 0) × (s.size ≡ flush_all)
  pub plain : IsPlain s
  pub enough : HasFuel (limit / 4096 + 2) s
  pub wanted : (va : ℕ) → va < 2 ^ 64 → wants t va ≡ true → wants s va ≡ true

limited-Sends :
    (limit : ℕ) (t : TlbInfo)
    → t.start % 4096 ≡ 0
    → 0 < t.start + t.size
    → t.start + t.size + 4096 ≤ 2 ^ 64
    → Sends limit t (limited limit t)
unfolding limited
limited-Sends limit t a pos fit = elim (Bool-cases (ltb limit t.size)) [
  | inl long ↦ rw long (record {
    same_kind = (refl, refl, refl);
    short_kept = λ le. absurd (ground (arith, long, le));
    long_all = λ lt. (refl, refl);
    plain = record { aligned = refl; fits = inl (refl, refl) };
    enough = inl refl;
    wanted = λ va lt w. refl;
  })
  | inr short ↦
      let some_turns : t.size + 4096 ≤ (limit / 4096 + 2) * 4096 = ground (arith, short) in
      rw short (record {
        same_kind = (refl, refl, refl);
        short_kept = λ le. refl;
        long_all = λ lt. absurd (ground (arith, short, lt));
        plain = record { aligned = a; fits = inr (pos, fit) };
        enough = inr some_turns;
        wanted = λ va lt w. w;
      })
]

-- For a request of a known type that starts at a page, ends before the last page and is not for
-- everything by start 0 and size 0, the result is that of one send. What is sent is the request itself
-- where its size is at most the limit, and else one of the same kind with start 0 and the size for
-- everything. A hart needs at most two tests more than the limit has pages for it, and it asks for each
-- address that the request asks for.
pub sbi_tlb_request-Sends :
    (send : TlbInfo → Status) (limit : ℕ) (t : TlbInfo)
    → t.type < tlb_type_max
    → t.start % 4096 ≡ 0
    → 0 < t.start + t.size
    → t.start + t.size + 4096 ≤ 2 ^ 64
    → (s : TlbInfo) × (sbi_tlb_request send limit t ≡ send s) × Sends limit t s
unfolding sbi_tlb_request
sbi_tlb_request-Sends send limit t known a pos fit =
    let valid : leb tlb_type_max t.type ≡ false = ground (arith, known) in
    (limited limit t, rw valid refl, limited-Sends limit t a pos fit)
