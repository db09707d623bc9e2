-- ===== src/Sbi/Fwft/Locked.antt =====
-- Calls of `sbi_fwft_set` and `sbi_fwft_get` of sbi_fwft.c in sequence.
use inside_system.Prelude.{
  ℕ, zero, suc, ◌+◌, ◌≤◌, ◌≡◌, ◌≢◌, ◌⊎◌, refl, sym, ap, subst, ◌∙◌, true, false, List, [], ◌∷◌,
  none, some, arith, leb, ◌==◌, if◌then◌else◌, inl, inr, Bool-cases, Option-cases, ==-eq,
  eq-of-some,
}
use inside_system.Sbi.Status.{
  Status, Status.code, Status.enotsupp, Status.einval, Status.edenied, Status.edenied_locked, ok,
}
use inside_system.Sbi.Fwft.Csr.{Csrs, Hart}
use inside_system.Sbi.Fwft.Apart.{set_feature-others}
use inside_system.Sbi.Fwft.{
  Config, Fwft, is_global, is_locked, supported, find_config, put_flags, fwft_get_feature, stored,
  set_found, set_feature, get_feature, sbi_fwft_set,
}

put_flags-other :
    (f flags k : ℕ) (cs : List Config)
    → k ≢ f
    → find_config k (put_flags f flags cs) ≡ find_config k cs
unfolding find_config put_flags
put_flags-other f flags k [] ne = refl
put_flags-other f flags k (c ∷ cs) ne = elim (Bool-cases (f == c.id)) [
  | inl here ↦ let apart : (k == c.id) ≡ false = ground (arith, here, ne) in rw (here, apart) refl
  | inr there ↦
      rw there (ap (λ o. if k == c.id then some c.flags else o) (put_flags-other f flags k cs ne))
]

put_flags-none :
    (f flags k : ℕ) (cs : List Config)
    → find_config k cs ≡ none
    → find_config k (put_flags f flags cs) ≡ none
unfolding find_config put_flags
put_flags-none f flags k [] e = refl
put_flags-none f flags k (c ∷ cs) e = elim (Bool-cases (k == c.id)) [
  | inl hit ↦ let e' = rw hit at e in absurd (cc)
  | inr miss ↦
      let less : find_config k cs ≡ none = rw miss at e in
      elim (Bool-cases (f == c.id)) [
        | inl here ↦ rw (here, miss) less
        | inr there ↦ rw (there, miss) (put_flags-none f flags k cs less)
      ]
]

-- Only the six features have a configuration.
abbrev pub IsKnown : Fwft → Type 0
IsKnown st = (k : ℕ) → 5 + 1 ≤ k → find_config k st.configs ≡ none

-- What a call leaves of the state.
pub data After (h : Hart) (g v flags : ℕ) (st : Fwft) : Status × Fwft → Type 0 where
  unmoved : (rc : Status) → rc ≢ ok → After h g v flags st (rc, st)
  refused :
      (rc : Status) (old : ℕ)
      → rc ≢ ok
      → find_config g st.configs ≡ some old
      → is_locked old ≡ false
      → (set_feature h g v st.csrs).0 ≡ rc
      → After h g v flags st (rc, record st { csrs = (set_feature h g v st.csrs).1 })
  moved :
      (old : ℕ)
      → find_config g st.configs ≡ some old
      → is_locked old ≡ false
      → is_global g ≡ false
      → supported h g ≡ ok
      → (set_feature h g v st.csrs).0 ≡ ok
      → After h g v flags st (
        ok,
        record { csrs = (set_feature h g v st.csrs).1; configs = put_flags g flags st.configs },
      )

ok-cases : (rc : Status) → (rc ≡ ok) ⊎ (rc ≢ ok)
ok-cases (code zero) = inl refl
ok-cases (code (suc n)) = inr (λ e. cc)
ok-cases rc = inr (λ e. cc)

stored_failed :
    (g flags : ℕ) (st : Fwft) (rc : Status) (c : Csrs)
    → rc ≢ ok
    → stored g flags st (rc, c) ≡ (rc, record st { csrs = c })
stored_failed g flags st (code zero) c ne = absurd (ne refl)
stored_failed g flags st (code (suc n)) c ne = refl
stored_failed g flags st rc c ne = refl

set_found_failed :
    (h : Hart) (g v flags : ℕ) (st : Fwft) (rc : Status) (old : ℕ)
    → rc ≢ ok
    → set_found h g v flags st (rc, old) ≡ (rc, st)
set_found_failed h g v flags st (code zero) old ne = absurd (ne refl)
set_found_failed h g v flags st (code (suc n)) old ne = refl
set_found_failed h g v flags st rc old ne = refl

stored-After :
    (h : Hart) (g v flags old : ℕ) (st : Fwft)
    → find_config g st.configs ≡ some old
    → is_locked old ≡ false
    → is_global g ≡ false
    → supported h g ≡ ok
    → After h g v flags st (stored g flags st (set_feature h g v st.csrs))
stored-After h g v flags old st e free local s =
    let out = set_feature h g v st.csrs in
    elim (ok-cases out.0) [
      | inl done ↦
          subst (λ rc. After h g v flags st (stored g flags st (rc, out.1))) (sym done)
            (moved old e free local s done)
      | inr bad ↦
          subst (After h g v flags st) (sym (stored_failed g flags st out.0 out.1 bad))
            (refused out.0 old bad e free refl)
    ]

set_found-After :
    (h : Hart) (g v flags old : ℕ) (st : Fwft)
    → find_config g st.configs ≡ some old
    → is_global g ≡ false
    → After h g v flags st (set_found h g v flags st (supported h g, old))
set_found-After h g v flags old st e local = elim (ok-cases (supported h g)) [
  | inr bad ↦
      subst (After h g v flags st) (sym (set_found_failed h g v flags st (supported h g) old bad))
        (unmoved (supported h g) bad)
  | inl fine ↦
      subst (λ rc. After h g v flags st (set_found h g v flags st (rc, old))) (sym fine)
        (elim (Bool-cases (leb 2 flags)) [
          | inl wrong ↦ rw wrong (unmoved einval (λ q. cc))
          | inr right ↦ rw right (elim (Bool-cases (is_locked old)) [
            | inl locked ↦ rw locked (unmoved edenied_locked (λ q. cc))
            | inr free ↦ rw free (stored-After h g v flags old st e free local fine)
          ])
        ])
]

absent-After :
    (h : Hart) (g v flags : ℕ) (st : Fwft)
    → After h g v flags st (set_found h g v flags st (fwft_get_feature h g none))
absent-After h g v flags st = elim (Bool-cases (leb g 5)) [
  | inl defined ↦ rw defined (unmoved enotsupp (λ q. cc))
  | inr unknown ↦ rw unknown (unmoved edenied (λ q. cc))
]

pub sbi_fwft_set-After :
    (h : Hart) (g v flags : ℕ) (st : Fwft) → After h g v flags st (sbi_fwft_set h g v flags st)
unfolding sbi_fwft_set
sbi_fwft_set-After h g v flags st = elim (Bool-cases (is_global g)) [
  | inl global ↦ rw global (absent-After h g v flags st)
  | inr local ↦ rw local (elim (Option-cases (find_config g st.configs)) [
    | inl absent ↦ rw absent (absent-After h g v flags st)
    | inr (old, e) ↦ rw e (set_found-After h g v flags old st e local)
  ])
]

pub known-le : (st : Fwft) (g old : ℕ) → IsKnown st → find_config g st.configs ≡ some old → g ≤ 5
known-le st g old k e = elim (Bool-cases (leb g 5)) [
  | inl in_table ↦ ground (arith, in_table)
  | inr out ↦ let missing = k g (ground (arith, out)) in absurd (cc)
]

put-IsKnown :
    (st : Fwft) (c : Csrs) (g flags : ℕ)
    → IsKnown st
    → IsKnown (record { csrs = c; configs = put_flags g flags st.configs })
put-IsKnown st c g flags k i h = put_flags-none g flags i st.configs (k i h)

-- What a call for the feature g does not touch of the feature f.
pub record Stays (f : ℕ) (st st' : Fwft) : Type 0 where
  pub value : get_feature f st'.csrs ≡ get_feature f st.csrs
  pub config : find_config f st'.configs ≡ find_config f st.configs

pub After-IsKnown :
    (h : Hart) (g v flags : ℕ) (st : Fwft) (out : Status × Fwft)
    → IsKnown st
    → After h g v flags st out
    → IsKnown out.1
After-IsKnown h g v flags st _ k (unmoved rc ne) = k
After-IsKnown h g v flags st _ k (refused rc old ne e free r) = k
After-IsKnown h g v flags st _ k (moved old e free local s r) =
    put-IsKnown st (set_feature h g v st.csrs).1 g flags k

pub After-Stays :
    (h : Hart) (g v flags f : ℕ) (st : Fwft) (out : Status × Fwft)
    → IsKnown st
    → f ≤ 5
    → f ≢ g
    → After h g v flags st out
    → Stays f st out.1
After-Stays h g v flags f st _ k le ne (unmoved rc _) = record { value = refl; config = refl }
After-Stays h g v flags f st _ k le ne (refused rc old _ e free r) = record {
  value = set_feature-others h g f v st.csrs (known-le st g old k e) le ne;
  config = refl;
}
After-Stays h g v flags f st _ k le ne (moved old e free local s r) = record {
  value = set_feature-others h g f v st.csrs (known-le st g old k e) le ne;
  config = put_flags-other g flags f st.configs ne;
}

-- The feature has a configuration, which is locked.
pub record IsLocked (f : ℕ) (st : Fwft) : Type 0 where
  pub flags : ℕ
  pub found : find_config f st.configs ≡ some flags
  pub locked : is_locked flags ≡ true

pub locked-Stays :
    (h : Hart) (g v flags f : ℕ) (st : Fwft) (out : Status × Fwft)
    → IsKnown st
    → IsLocked f st
    → After h g v flags st out
    → Stays f st out.1
locked-Stays h g v flags f st out k l a = elim (Bool-cases (f == g)) [
  | inr other ↦
      After-Stays h g v flags f st out k (known-le st f l.flags k l.found)
        (λ e. ground (arith, e, other)) a
  | inl same ↦ own (==-eq same) out a
]
  where
    own : f ≡ g → (out : Status × Fwft) → After h g v flags st out → Stays f st out.1
    own e _ (unmoved rc _) = record { value = refl; config = refl }
    own e _ (refused rc old _ found free r) =
        let there = sym (ap (λ i. find_config i st.configs) e ∙ found) ∙ l.found in
        let open_too = sym (ap is_locked (eq-of-some there)) ∙ free in
        let shut = l.locked in absurd (cc)
    own e _ (moved old found free local s r) =
        let there = sym (ap (λ i. find_config i st.configs) e ∙ found) ∙ l.found in
        let open_too = sym (ap is_locked (eq-of-some there)) ∙ free in
        let shut = l.locked in absurd (cc)
