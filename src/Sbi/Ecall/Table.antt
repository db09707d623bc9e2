-- ===== src/Sbi/Ecall/Table.antt =====
-- The table of extensions of sbi_ecall.c after an extension is registered.
use inside_system.Prelude.{
  ◌≡◌, ℕ, refl, ap, ◌∙◌, Bool, true, false, List, [], ◌∷◌, ◌++◌, some, if◌then◌else◌, ◌⊎◌, inl, inr,
  Bool-cases, ltb, leb, ltb→lt, ◌<◌, ◌≤◌, ◌≢◌, ◌&&◌, ◌||◌, none, arith,
}
use inside_system.Sbi.Status.{Status.einval, ok}
use inside_system.Sbi.Ecall.{
  Extension, serves, is_apart, sbi_ecall_find_extension, register_extension, has_handler,
}

apart-serves :
    {W : Type 0} (e : ℕ) (x t : Extension W) (ts : List (Extension W))
    → is_apart x (t ∷ ts) ≡ true
    → serves e t ≡ true
    → serves e x ≡ false
unfolding is_apart
apart-serves e x t ts a s = ground arith

find-append :
    {W : Type 0} (e : ℕ) (x : Extension W) (ts : List (Extension W))
    → is_apart x ts ≡ true
    → sbi_ecall_find_extension e (ts ++ (x ∷ []))
      ≡ (if serves e x then some x else sbi_ecall_find_extension e ts)
unfolding is_apart sbi_ecall_find_extension
find-append e x [] a = refl
find-append e x (t ∷ ts) a = elim (Bool-cases (serves e t)) [
  | inl s ↦ rw s (rw (apart-serves e x t ts a s) refl)
  | inr s ↦ rw s (find-append e x ts (ground (arith, a)))
]

-- Each range of the table has a number.
unfoldable pub are_ranges : {W : Type 0} → List (Extension W) → Bool
are_ranges [] = true
are_ranges (t ∷ ts) = leb t.extid_start t.extid_end && are_ranges ts

-- A number of both ranges.
both : {W : Type 0} → Extension W → Extension W → ℕ
both x t = if leb t.extid_start x.extid_start then x.extid_start else t.extid_start

both-serves :
    {W : Type 0} (x t : Extension W) (ts : List (Extension W))
    → are_ranges (t ∷ ts) ≡ true
    → x.extid_start ≤ x.extid_end
    → (ltb t.extid_end x.extid_start || ltb x.extid_end t.extid_start) ≡ false
    → (serves (both x t) x ≡ true) × (serves (both x t) t ≡ true)
unfolding are_ranges both
both-serves x t ts r v m = (ground arith, ground arith)

find-here :
    {W : Type 0} (e : ℕ) (t : Extension W) (ts : List (Extension W))
    → serves e t ≡ true
    → sbi_ecall_find_extension e (t ∷ ts) ≢ none
unfolding sbi_ecall_find_extension
find-here e t ts s h = absurd (ground (arith, h, s))

find-there :
    {W : Type 0} (e : ℕ) (t : Extension W) (ts : List (Extension W))
    → sbi_ecall_find_extension e ts ≢ none
    → sbi_ecall_find_extension e (t ∷ ts) ≢ none
unfolding sbi_ecall_find_extension
find-there e t ts f h = elim (Bool-cases (serves e t)) [
  | inl s ↦ find-here e t ts s h
  | inr s ↦ f (ground (arith, h, s))
]

abbrev pub Taken : {W : Type 0} → Extension W → List (Extension W) → Type 0
Taken x ts = (e : ℕ) × (serves e x ≡ true) × (sbi_ecall_find_extension e ts ≢ none)

meets-Taken :
    {W : Type 0} (x : Extension W) (ts : List (Extension W))
    → are_ranges ts ≡ true
    → x.extid_start ≤ x.extid_end
    → is_apart x ts ≡ false
    → Taken x ts
unfolding are_ranges is_apart
meets-Taken x [] r v m = absurd (cc)
meets-Taken x (t ∷ ts) r v m =
    elim (Bool-cases (ltb t.extid_end x.extid_start || ltb x.extid_end t.extid_start)) [
      | inr here ↦
          let s = both-serves x t ts r v here in (both x t, s.0, find-here (both x t) t ts s.1)
      | inl there ↦
          let k = meets-Taken x ts (ground (arith, r)) v (ground (arith, m, there)) in
          (k.0, k.1, find-there k.0 t ts k.2)
    ]

ranges-append :
    {W : Type 0} (x : Extension W) (ts : List (Extension W))
    → are_ranges ts ≡ true
    → x.extid_start ≤ x.extid_end
    → are_ranges (ts ++ (x ∷ [])) ≡ true
unfolding are_ranges
ranges-append x [] r v = ground arith
ranges-append x (t ∷ ts) r v =
    let rest = ranges-append x ts (ground (arith, r)) v in ground (arith, r, rest)

-- Why an extension is refused, and that the table is as it was.
pub record Refused {W : Type 0} (x : Extension W) (ts : List (Extension W)) : Type 0 where
  pub same : register_extension x ts ≡ (einval, ts)
  pub cause : (x.extid_end < x.extid_start) ⊎ ((has_handler x.handle ≡ false) ⊎ Taken x ts)

pub record Registered {W : Type 0} (x : Extension W) (ts : List (Extension W)) : Type 0 where
  pub done : (register_extension x ts).0 ≡ ok
  pub ranges : are_ranges (register_extension x ts).1 ≡ true
  pub finds :
      (e : ℕ)
      → sbi_ecall_find_extension e (register_extension x ts).1
        ≡ (if serves e x then some x else sbi_ecall_find_extension e ts)

added-Registered :
    {W : Type 0} (x : Extension W) (ts : List (Extension W))
    → are_ranges ts ≡ true
    → x.extid_start ≤ x.extid_end
    → is_apart x ts ≡ true
    → register_extension x ts ≡ (ok, ts ++ (x ∷ []))
    → Registered x ts
added-Registered x ts r v a added = record {
  done = ap (λ r. r.0) added;
  ranges = ap (λ r. are_ranges r.1) added ∙ ranges-append x ts r v;
  finds = λ e. ap (λ r. sbi_ecall_find_extension e r.1) added ∙ find-append e x ts a;
}

-- In a table where each range has a number, an extension is either refused with SBI_EINVAL and the
-- table is as it was, and then its range is empty, it has no handler or the table already serves one
-- of its numbers; or it is registered with the result 0: then it serves the numbers of its range, a
-- number outside is served as before, and each range has a number again.
pub register_extension-Outcome :
    {W : Type 0} (x : Extension W) (ts : List (Extension W))
    → are_ranges ts ≡ true
    → Refused x ts ⊎ Registered x ts
unfolding register_extension
register_extension-Outcome x ts r = elim (Bool-cases (ltb x.extid_end x.extid_start)) [
  | inl empty ↦
      inl (record { same = rw empty refl; cause = inl (ltb→lt x.extid_end x.extid_start empty) })
  | inr full ↦ elim (Bool-cases (has_handler x.handle)) [
    | inr silent ↦ inl (record { same = ground (arith, silent); cause = inr (inl silent) })
    | inl heard ↦ elim (Bool-cases (is_apart x ts)) [
      | inr meets ↦ inl (record {
        same = ground (arith, heard, meets);
        cause = inr (inr (meets-Taken x ts r (ground (arith, full)) meets));
      })
      | inl a ↦
          inr (added-Registered x ts r (ground (arith, full)) a (ground (arith, full, heard, a)))
    ]
  ]
]
