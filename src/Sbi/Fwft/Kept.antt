-- ===== src/Sbi/Fwft/Kept.antt =====
-- A write of one firmware feature of sbi_fwft.c leaves the others.
use inside_system.Prelude.{
  ℕ, ◌/◌, ◌%◌, ◌^◌, ◌≤◌, ◌≡◌, ◌≢◌, refl, ap, ◌∙◌, true, arith, ltb, leb, ◌==◌, inl, inr, Bool-cases,
  ==-eq,
}
use inside_system.Rv32.Words.{bit}
use inside_system.Sbi.Status.{Status, ok}
use inside_system.Sbi.Fwft.Csr.{Hart, pmm, with_pmm, clear_pmm, set_pmm, write_back}
use inside_system.Sbi.Fwft.Pmlen.{
  pmlen_7, pmlen_16, fwft_try_to_set_pmm, try_16, try_7, set_pmlen, get_pmlen,
}

-- The two values have the same bits for the features from 1 to 4.
pub record SameBits (m n : ℕ) : Type 0 where
  pub lpe : m / 2 ^ 2 % 2 ≡ n / 2 ^ 2 % 2
  pub sse : m / 2 ^ 3 % 2 ≡ n / 2 ^ 3 % 2
  pub dte : m / 2 ^ 59 % 2 ≡ n / 2 ^ 59 % 2
  pub adue : m / 2 ^ 61 % 2 ≡ n / 2 ^ 61 % 2

SameBits-trans : {m n o : ℕ} → SameBits m n → SameBits n o → SameBits m o
SameBits-trans s t = record {
  lpe = s.lpe ∙ t.lpe;
  sse = s.sse ∙ t.sse;
  dte = s.dte ∙ t.dte;
  adue = s.adue ∙ t.adue;
}

with_pmm-SameBits : (m p : ℕ) → SameBits (with_pmm m p) m
with_pmm-SameBits m p = record {
  lpe = omega arith;
  sse = omega arith;
  dte = omega arith;
  adue = omega arith;
}

pub pmm-with_pmm : (m p : ℕ) → pmm (with_pmm m p) ≡ p % 4
pmm-with_pmm m p = omega arith

clear_pmm-SameBits : (h : Hart) (m : ℕ) → SameBits (clear_pmm h m) m
unfolding clear_pmm
clear_pmm-SameBits h m = with_pmm-SameBits m (h.legal_pmm (pmm m) 0)

set_pmm-SameBits : (h : Hart) (m p : ℕ) → SameBits (fwft_try_to_set_pmm h m p).0 m
unfolding fwft_try_to_set_pmm set_pmm
set_pmm-SameBits h m p = with_pmm-SameBits m _

try_16-SameBits : (h : Hart) (prev m : ℕ) → SameBits m prev → SameBits (try_16 h prev m).1 prev
unfolding try_16 write_back
try_16-SameBits h prev m s = elim (Bool-cases (fwft_try_to_set_pmm h m pmlen_16).1) [
  | inl done ↦ rw done (SameBits-trans (set_pmm-SameBits h m pmlen_16) s)
  | inr failed ↦ rw failed (with_pmm-SameBits prev _)
]

try_7-SameBits : (h : Hart) (prev m : ℕ) → SameBits m prev → SameBits (try_7 h prev m).1 prev
unfolding try_7
try_7-SameBits h prev m s =
    let there = SameBits-trans (set_pmm-SameBits h m pmlen_7) s in
    elim (Bool-cases (fwft_try_to_set_pmm h m pmlen_7).1) [
      | inl done ↦ rw done there
      | inr failed ↦ rw failed (
          try_16-SameBits h prev (clear_pmm h (fwft_try_to_set_pmm h m pmlen_7).0)
            (SameBits-trans (clear_pmm-SameBits h (fwft_try_to_set_pmm h m pmlen_7).0) there))
    ]

pub set_pmlen-SameBits : (h : Hart) (m value : ℕ) → SameBits (set_pmlen h m value).1 m
unfolding set_pmlen
set_pmlen-SameBits h m value =
    let pmm-clear_pmm = clear_pmm-SameBits h m in
    elim (Bool-cases (ltb 16 value)) [
      | inl big ↦ rw big (record { lpe = refl; sse = refl; dte = refl; adue = refl })
      | inr small ↦ rw small (elim (Bool-cases (value == 0)) [
        | inl off ↦ rw off pmm-clear_pmm
        | inr on ↦ rw on (elim (Bool-cases (leb value 7)) [
          | inl seven ↦ rw seven (try_7-SameBits h m (clear_pmm h m) pmm-clear_pmm)
          | inr more ↦ rw more (try_16-SameBits h m (clear_pmm h m) pmm-clear_pmm)
        ])
      ])
    ]

-- What the hart takes for the field: 0 always, and what it held before; of medeleg, the bits of the
-- misaligned accesses as they are written.
pub record IsLegal (h : Hart) (m : ℕ) : Type 0 where
  pub takes_zero : (old : ℕ) → h.legal_pmm old 0 ≡ 0
  pub takes_back : (old : ℕ) → h.legal_pmm old (pmm m) ≡ pmm m
  pub takes_loads : (old new : ℕ) → bit (h.legal_medeleg old new) 4 ≡ bit new 4
  pub takes_stores : (old new : ℕ) → bit (h.legal_medeleg old new) 6 ≡ bit new 6

-- What is read back after the length was set: no less than was asked for, or the old one.
pub record Length (m value : ℕ) (out : Status × ℕ) : Type 0 where
  pub reads : out.0 ≡ ok → (w : ℕ) × (get_pmlen out.1 ≡ (ok, w)) × (value ≤ w)
  pub keeps : out.0 ≢ ok → pmm out.1 ≡ pmm m

get_pmlen-pmm :
    (m : ℕ)
    → (pmm m ≡ 0 → get_pmlen m ≡ (ok, 0))
      × (pmm m ≡ 2 → get_pmlen m ≡ (ok, 7))
      × (pmm m ≡ 3 → get_pmlen m ≡ (ok, 16))
unfolding get_pmlen
get_pmlen-pmm m = ((λ e. rw e refl), (λ e. rw e refl), (λ e. rw e refl))

tried :
    (h : Hart) (m p : ℕ)
    → (fwft_try_to_set_pmm h m p).1 ≡ true
    → pmm (fwft_try_to_set_pmm h m p).0 ≡ p
unfolding fwft_try_to_set_pmm
tried h m p e = ==-eq e

pmm-clear_pmm : (h : Hart) (m prev : ℕ) → IsLegal h prev → pmm (clear_pmm h m) ≡ 0
unfolding clear_pmm
pmm-clear_pmm h m prev l = pmm-with_pmm m _ ∙ ap (λ z. z % 4) (l.takes_zero (pmm m))

written_back : (h : Hart) (m prev : ℕ) → IsLegal h prev → pmm (write_back h m prev) ≡ pmm prev
unfolding write_back
written_back h m prev l =
    pmm-with_pmm prev _ ∙ (ap (λ z. z % 4) (l.takes_back (pmm m)) ∙ omega arith)

try_16-Length :
    (h : Hart) (prev m value : ℕ)
    → IsLegal h prev
    → value ≤ 16
    → Length prev value (try_16 h prev m)
unfolding try_16
try_16-Length h prev m value l le = elim (Bool-cases (fwft_try_to_set_pmm h m pmlen_16).1) [
  | inl done ↦ rw done (record {
    reads = λ _.
        (16, (get_pmlen-pmm (fwft_try_to_set_pmm h m pmlen_16).0).2 (tried h m pmlen_16 done), le);
    keeps = λ ne. absurd (ne refl);
  })
  | inr failed ↦ rw failed (record {
    reads = λ e. absurd (cc);
    keeps = λ _. written_back h (fwft_try_to_set_pmm h m pmlen_16).0 prev l;
  })
]

try_7-Length :
    (h : Hart) (prev m value : ℕ) → IsLegal h prev → value ≤ 7 → Length prev value (try_7 h prev m)
unfolding try_7
try_7-Length h prev m value l le = elim (Bool-cases (fwft_try_to_set_pmm h m pmlen_7).1) [
  | inl done ↦ rw done (record {
    reads = λ _.
        (7, (get_pmlen-pmm (fwft_try_to_set_pmm h m pmlen_7).0).1 (tried h m pmlen_7 done), le);
    keeps = λ ne. absurd (ne refl);
  })
  | inr failed ↦ rw failed (
      try_16-Length h prev (clear_pmm h (fwft_try_to_set_pmm h m pmlen_7).0) value l
        (omega (arith, le)))
]

pub set_pmlen-pmm : (h : Hart) (m value : ℕ) → IsLegal h m → Length m value (set_pmlen h m value)
unfolding set_pmlen
set_pmlen-pmm h m value l = elim (Bool-cases (ltb 16 value)) [
  | inl big ↦ rw big (record { reads = λ e. absurd (cc); keeps = λ _. refl })
  | inr small ↦ rw small (elim (Bool-cases (value == 0)) [
    | inl off ↦ rw off (record {
      reads =
          λ _. (0, (get_pmlen-pmm (clear_pmm h m)).0 (pmm-clear_pmm h m m l), ground (arith, off));
      keeps = λ ne. absurd (ne refl);
    })
    | inr on ↦ rw on (elim (Bool-cases (leb value 7)) [
      | inl seven ↦ rw seven (try_7-Length h m (clear_pmm h m) value l (ground (arith, seven)))
      | inr more ↦ rw more (try_16-Length h m (clear_pmm h m) value l (ground (arith, small)))
    ])
  ])
]
