-- ===== src/Sbi/Fwft/Apart.antt =====
-- The firmware features of sbi_fwft.c stand in bits that are apart.
use inside_system.Prelude.{
  ℕ, zero, suc, ◌≤◌, ◌≡◌, ◌≢◌, ◌⊎◌, refl, sym, ap, ◌∙◌, true, false, arith, ◌==◌, ◌||◌, inl, inr,
  Bool-cases, ==-eq,
}
use inside_system.Rv32.Words.{bit, set_bit, clear_bit}
use inside_system.Sbi.Status.{Status, Status.einval, ok}
use inside_system.Sbi.Fwft.Csr.{Csrs, Hart, pmm}
use inside_system.Sbi.Fwft.Pmlen.{set_pmlen, get_pmlen}
use inside_system.Sbi.Fwft.Kept.{SameBits, IsLegal, set_pmlen-SameBits, set_pmlen-pmm}
use inside_system.Sbi.Fwft.{fwft_menvcfg_set_bit, set_misaligned, set_feature, get_feature, of_bit}

-- The features that are one bit of menvcfg, and all of them.
data EnvFeature : Type 0 where
  lpad sstack double_trap adue : EnvFeature

data Feature : Type 0 where
  misaligned pmlen : Feature
  env : EnvFeature → Feature

abbrev env_id : EnvFeature → ℕ
env_id lpad = 1
env_id sstack = 2
env_id double_trap = 3
env_id adue = 4

abbrev env_bit : EnvFeature → ℕ
env_bit lpad = 2
env_bit sstack = 3
env_bit double_trap = 59
env_bit adue = 61

abbrev number : Feature → ℕ
number misaligned = 0
number pmlen = 5
number (env e) = env_id e

feature_of : (f : ℕ) → f ≤ 5 → (a : Feature) × (f ≡ number a)
feature_of zero h = (misaligned, refl)
feature_of (suc zero) h = (env lpad, refl)
feature_of (suc (suc zero)) h = (env sstack, refl)
feature_of (suc (suc (suc zero))) h = (env double_trap, refl)
feature_of (suc (suc (suc (suc zero)))) h = (env adue, refl)
feature_of (suc (suc (suc (suc (suc n))))) h = (pmlen, omega (arith, h))

-- What a write of one bit does to another one.
bits_apart :
    (g f : EnvFeature) (m : ℕ)
    → env_id f ≢ env_id g
    → (bit (set_bit m (env_bit g)) (env_bit f) ≡ bit m (env_bit f))
      × (bit (clear_bit m (env_bit g)) (env_bit f) ≡ bit m (env_bit f))
bits_apart lpad lpad m h = absurd (h refl)
bits_apart sstack sstack m h = absurd (h refl)
bits_apart double_trap double_trap m h = absurd (h refl)
bits_apart adue adue m h = absurd (h refl)
bits_apart lpad f m h = (ground arith, ground arith)
bits_apart sstack f m h = (ground arith, ground arith)
bits_apart double_trap f m h = (ground arith, ground arith)
bits_apart adue f m h = (ground arith, ground arith)

bit_written :
    (g : EnvFeature) (m : ℕ)
    → (bit (set_bit m (env_bit g)) (env_bit g) ≡ true)
      × (bit (clear_bit m (env_bit g)) (env_bit g) ≡ false)
bit_written lpad m = (ground arith, ground arith)
bit_written sstack m = (ground arith, ground arith)
bit_written double_trap m = (ground arith, ground arith)
bit_written adue m = (ground arith, ground arith)

bits-pmm :
    (g : EnvFeature) (m : ℕ)
    → (pmm (set_bit m (env_bit g)) ≡ pmm m) × (pmm (clear_bit m (env_bit g)) ≡ pmm m)
bits-pmm lpad m = (ground arith, ground arith)
bits-pmm sstack m = (ground arith, ground arith)
bits-pmm double_trap m = (ground arith, ground arith)
bits-pmm adue m = (ground arith, ground arith)

bits-SameBits : (f : EnvFeature) (m n : ℕ) → SameBits m n → bit m (env_bit f) ≡ bit n (env_bit f)
bits-SameBits lpad m n s = ap (λ b. b == 1) s.lpe
bits-SameBits sstack m n s = ap (λ b. b == 1) s.sse
bits-SameBits double_trap m n s = ap (λ b. b == 1) s.dte
bits-SameBits adue m n s = ap (λ b. b == 1) s.adue

-- What is read of a feature.
abbrev read : Feature → Csrs → Status × ℕ
read misaligned c = (ok, of_bit (bit c.medeleg 4 || bit c.medeleg 6))
read pmlen c = get_pmlen c.menvcfg
read (env e) c = (ok, of_bit (bit c.menvcfg (env_bit e)))

get_feature-read : (f : Feature) (c : Csrs) → get_feature (number f) c ≡ read f c
unfolding get_feature
get_feature-read misaligned c = refl
get_feature-read pmlen c = refl
get_feature-read (env lpad) c = refl
get_feature-read (env sstack) c = refl
get_feature-read (env double_trap) c = refl
get_feature-read (env adue) c = refl

-- What is written for a feature.
abbrev written : Hart → Feature → ℕ → Csrs → Status × Csrs
written h misaligned v c =
    ((set_misaligned h c.medeleg v).0, record c { medeleg = (set_misaligned h c.medeleg v).1 })
written h pmlen v c =
    ((set_pmlen h c.menvcfg v).0, record c { menvcfg = (set_pmlen h c.menvcfg v).1 })
written h (env e) v c = (
  (fwft_menvcfg_set_bit c.menvcfg v (env_bit e)).0,
  record c { menvcfg = (fwft_menvcfg_set_bit c.menvcfg v (env_bit e)).1 },
)

set_feature-written :
    (h : Hart) (g : Feature) (v : ℕ) (c : Csrs) → set_feature h (number g) v c ≡ written h g v c
unfolding set_feature
set_feature-written h misaligned v c = refl
set_feature-written h pmlen v c = refl
set_feature-written h (env lpad) v c = refl
set_feature-written h (env sstack) v c = refl
set_feature-written h (env double_trap) v c = refl
set_feature-written h (env adue) v c = refl

get_pmlen-same : (m n : ℕ) → pmm m ≡ pmm n → get_pmlen m ≡ get_pmlen n
unfolding get_pmlen
get_pmlen-same m n e = rw e refl

set_bit-cases :
    (m v k : ℕ)
    → (fwft_menvcfg_set_bit m v k ≡ (ok, set_bit m k)) × (v ≡ 1)
      ⊎ ((fwft_menvcfg_set_bit m v k ≡ (ok, clear_bit m k)) × (v ≡ 0)
          ⊎ (fwft_menvcfg_set_bit m v k ≡ (einval, m)))
set_bit-cases m v k = elim (Bool-cases (v == 1)) [
  | inl on ↦ inl (rw on refl, ==-eq on)
  | inr not_on ↦ elim (Bool-cases (v == 0)) [
    | inl off ↦ inr (inl (rw (not_on, off) refl, ==-eq off))
    | inr other ↦ inr (inr (rw (not_on, other) refl))
  ]
]

-- The bits of medeleg that a write of the first feature leaves.
misaligned_written :
    (h : Hart) (d v m : ℕ)
    → IsLegal h m
    → ((set_misaligned h d v).0 ≡ ok
        → of_bit (bit (set_misaligned h d v).1 4 || bit (set_misaligned h d v).1 6) ≡ v)
      × ((set_misaligned h d v).0 ≢ ok → (set_misaligned h d v).1 ≡ d)
misaligned_written h d v m l = elim (Bool-cases (v == 1)) [
  | inl on ↦ rw on (
    (λ _. rw (l.takes_loads _ _, l.takes_stores _ _) (ground (arith, on))),
    λ ne. absurd (ne refl),
  )
  | inr not_on ↦ rw not_on (elim (Bool-cases (v == 0)) [
    | inl off ↦ rw off (
      (λ _. rw (l.takes_loads _ _, l.takes_stores _ _) (ground (arith, off))),
      λ ne. absurd (ne refl),
    )
    | inr other ↦ rw other ((λ e. absurd (cc)), λ _. refl)
  ])
]

-- A write of one feature leaves what is read of another one, whether it succeeds or not.
read-others :
    (h : Hart) (g f : Feature) (v : ℕ) (c : Csrs)
    → number f ≢ number g
    → read f (written h g v c).1 ≡ read f c
read-others h misaligned misaligned v c ne = absurd (ne refl)
read-others h misaligned pmlen v c ne = refl
read-others h misaligned (env e) v c ne = refl
read-others h pmlen misaligned v c ne = refl
read-others h pmlen pmlen v c ne = absurd (ne refl)
read-others h pmlen (env e) v c ne =
    ap (λ b. (ok, of_bit b))
      (bits-SameBits e (set_pmlen h c.menvcfg v).1 c.menvcfg (set_pmlen-SameBits h c.menvcfg v))
read-others h (env g) misaligned v c ne = refl
read-others h (env g) pmlen v c ne = elim (set_bit-cases c.menvcfg v (env_bit g)) [
  | inl (e, _) ↦ rw e (get_pmlen-same _ _ (bits-pmm g c.menvcfg).0)
  | inr (inl (e, _)) ↦ rw e (get_pmlen-same _ _ (bits-pmm g c.menvcfg).1)
  | inr (inr e) ↦ rw e refl
]
read-others h (env g) (env f) v c ne = elim (set_bit-cases c.menvcfg v (env_bit g)) [
  | inl (e, _) ↦ rw e (ap (λ b. (ok, of_bit b)) (bits_apart g f c.menvcfg ne).0)
  | inr (inl (e, _)) ↦ rw e (ap (λ b. (ok, of_bit b)) (bits_apart g f c.menvcfg ne).1)
  | inr (inr e) ↦ rw e refl
]

-- What is read of a feature once it was written.
record OwnRead (g : Feature) (v : ℕ) (c : Csrs) (out : Status × Csrs) : Type 0 where
  done : out.0 ≡ ok → (w : ℕ) × (read g out.1 ≡ (ok, w)) × (v ≤ w) × (number g ≢ 5 → w ≡ v)
  failed : out.0 ≢ ok → read g out.1 ≡ read g c

written-OwnRead :
    (h : Hart) (g : Feature) (v : ℕ) (c : Csrs)
    → IsLegal h c.menvcfg
    → OwnRead g v c (written h g v c)
written-OwnRead h misaligned v c l =
    let m = misaligned_written h c.medeleg v c.menvcfg l in
    record {
      done = λ e. (v, ap (λ w. (ok, w)) (m.0 e), omega arith, λ _. refl);
      failed = λ ne. ap (λ d. (ok, of_bit (bit d 4 || bit d 6))) (m.1 ne);
    }
written-OwnRead h pmlen v c l =
    let p = set_pmlen-pmm h c.menvcfg v l in
    record {
      done = λ e. let (w, r, le) = p.reads e in (w, r, le, λ ne. absurd (ne refl));
      failed = λ ne. get_pmlen-same _ _ (p.keeps ne);
    }
written-OwnRead h (env g) v c l = elim (set_bit-cases c.menvcfg v (env_bit g)) [
  | inl (e, one) ↦ rw e (record {
    done = λ _.
        (1, ap (λ b. (ok, of_bit b)) (bit_written g c.menvcfg).0, omega (arith, one), λ _. sym one);
    failed = λ ne. absurd (ne refl);
  })
  | inr (inl (e, none_set)) ↦ rw e (record {
    done = λ _. (
      0,
      ap (λ b. (ok, of_bit b)) (bit_written g c.menvcfg).1,
      omega (arith, none_set),
      λ _. sym none_set,
    );
    failed = λ ne. absurd (ne refl);
  })
  | inr (inr e) ↦ rw e (record { done = λ q. absurd (cc); failed = λ _. refl })
]

-- The same for the numbers of the features.
pub set_feature-others :
    (h : Hart) (g f v : ℕ) (c : Csrs)
    → g ≤ 5
    → f ≤ 5
    → f ≢ g
    → get_feature f (set_feature h g v c).1 ≡ get_feature f c
set_feature-others h g f v c hg hf ne =
    let (a, ga) = feature_of g hg in
    let (b, fb) = feature_of f hf in
    let out = set_feature-written h a v c in
    rw (ga, fb, out)
      (get_feature-read b (written h a v c).1
        ∙ (read-others h a b v c (λ e. ne (fb ∙ (e ∙ sym ga))) ∙ sym (get_feature-read b c)))

pub record Own (g v : ℕ) (c : Csrs) (out : Status × Csrs) : Type 0 where
  pub done : out.0 ≡ ok → (w : ℕ) × (get_feature g out.1 ≡ (ok, w)) × (v ≤ w) × (g ≢ 5 → w ≡ v)
  pub failed : out.0 ≢ ok → get_feature g out.1 ≡ get_feature g c

pub set_feature-Own :
    (h : Hart) (g v : ℕ) (c : Csrs) → g ≤ 5 → IsLegal h c.menvcfg → Own g v c (set_feature h g v c)
set_feature-Own h g v c hg l =
    let (a, ga) = feature_of g hg in
    let o = written-OwnRead h a v c l in
    let out = set_feature-written h a v c in
    rw (ga, out)
      (record {
        done = λ e.
            let (w, r, le, same) = o.done e in
            (w, get_feature-read a (written h a v c).1 ∙ r, le, same);
        failed = λ ne.
            get_feature-read a (written h a v c).1 ∙ (o.failed ne ∙ sym (get_feature-read a c));
      })
