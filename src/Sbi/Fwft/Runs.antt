-- ===== src/Sbi/Fwft/Runs.antt =====
-- Calls of sbi_fwft.c in sequence: a value that is set is read back, and a lock holds.
use inside_system.Prelude.{
  ℕ, zero, suc, ◌≤◌, ◌≡◌, ◌≢◌, refl, sym, ap, ◌∙◌, false, List, [], ◌∷◌, none, some, arith, leb,
  ◌==◌, inl, inr, Bool-cases, Option-cases,
}
use inside_system.Sbi.Status.{Status, Status.code, ok}
use inside_system.Sbi.Fwft.Csr.{Hart}
use inside_system.Sbi.Fwft.Kept.{IsLegal}
use inside_system.Sbi.Fwft.Apart.{set_feature-Own}
use inside_system.Sbi.Fwft.Locked.{
  IsKnown, IsLocked, After, After.unmoved, After.refused, After.moved, Stays, known-le,
  After-IsKnown, After-Stays, locked-Stays, sbi_fwft_set-After,
}
use inside_system.Sbi.Fwft.{
  Config, Fwft, is_global, supported, find_config, put_flags, fwft_get_feature, set_feature,
  get_feature, get_found, sbi_fwft_set, sbi_fwft_get,
}

get_found-same :
    (f old new : ℕ) (st st' : Fwft) (rc : Status)
    → get_feature f st'.csrs ≡ get_feature f st.csrs
    → get_found f st' (rc, new) ≡ get_found f st (rc, old)
get_found-same f old new st st' (code zero) e = e
get_found-same f old new st st' (code (suc n)) e = refl
get_found-same f old new st st' rc e = refl

not_global : (f : ℕ) → f ≤ 5 → is_global f ≡ false
not_global f le = ground (arith, le)

-- What a get answers goes by the value, where the feature has a configuration.
pub get-found :
    (h : Hart) (f old : ℕ) (st : Fwft)
    → f ≤ 5
    → find_config f st.configs ≡ some old
    → sbi_fwft_get h f st ≡ get_found f st (supported h f, old)
unfolding sbi_fwft_get
get-found h f old st le e = rw (not_global f le, e) refl

get-none :
    (h : Hart) (f : ℕ) (st : Fwft)
    → f ≤ 5
    → find_config f st.configs ≡ none
    → sbi_fwft_get h f st ≡ get_found f st (fwft_get_feature h f none)
unfolding sbi_fwft_get
get-none h f st le e = rw (not_global f le, e) refl

absent-same :
    (h : Hart) (f : ℕ) (st st' : Fwft)
    → get_found f st' (fwft_get_feature h f none) ≡ get_found f st (fwft_get_feature h f none)
absent-same h f st st' = elim (Bool-cases (leb f 5)) [ inl y ↦ rw y refl | inr n ↦ rw n refl ]

get-Stays :
    (h : Hart) (f : ℕ) (st st' : Fwft)
    → f ≤ 5
    → Stays f st st'
    → sbi_fwft_get h f st' ≡ sbi_fwft_get h f st
get-Stays h f st st' le s = elim (Option-cases (find_config f st.configs)) [
  | inl absent ↦
      get-none h f st' le (s.config ∙ absent)
      ∙ (absent-same h f st st' ∙ sym (get-none h f st le absent))
  | inr (old, e) ↦
      get-found h f old st' le (s.config ∙ e)
      ∙ (get_found-same f old old st st' (supported h f) s.value ∙ sym (get-found h f old st le e))
]

pub put_flags_self :
    (f flags old : ℕ) (cs : List Config)
    → find_config f cs ≡ some old
    → find_config f (put_flags f flags cs) ≡ some flags
unfolding find_config put_flags
put_flags_self f flags old [] e = cc
put_flags_self f flags old (c ∷ cs) e = elim (Bool-cases (f == c.id)) [
  | inl here ↦ rw (here, here) refl
  | inr there ↦ rw (there, there) (put_flags_self f flags old cs (rw there at e))
]

-- What a call that succeeds leaves: the value is read back, as it was given or, for the length of
-- pointer masks, rounded up; the flags are kept, and what is read of the other features is as before.
pub record Recorded (h : Hart) (f v flags : ℕ) (st : Fwft) (st' : Fwft) : Type 0 where
  pub own : (w : ℕ) × (sbi_fwft_get h f st' ≡ (ok, w)) × (v ≤ w) × (f ≢ 5 → w ≡ v)
  pub flagged : find_config f st'.configs ≡ some flags
  pub others : (g : ℕ) → g ≤ 5 → g ≢ f → sbi_fwft_get h g st' ≡ sbi_fwft_get h g st

After-Recorded :
    (h : Hart) (f v flags : ℕ) (st : Fwft) (out : Status × Fwft)
    → IsKnown st
    → IsLegal h st.csrs.menvcfg
    → After h f v flags st out
    → After h f v flags st out
    → out.0 ≡ ok
    → Recorded h f v flags st out.1
After-Recorded h f v flags st _ k l a (unmoved rc ne) e = absurd (ne e)
After-Recorded h f v flags st _ k l a (refused rc old ne _ free r) e = absurd (ne e)
After-Recorded h f v flags st _ k l a (moved old found free local s r) e =
    let le = known-le st f old k found in
    let st' : Fwft = record {
      csrs = (set_feature h f v st.csrs).1;
      configs = put_flags f flags st.configs;
    } in
    let flagged = put_flags_self f flags old st.configs found in
    let (w, q, more, same) = (set_feature-Own h f v st.csrs le l).done r in
    record {
      own = (
        w,
        get-found h f flags st' le flagged ∙ (ap (λ rc. get_found f st' (rc, flags)) s ∙ q),
        more,
        same,
      );
      flagged = flagged;
      others = λ g lg ne. get-Stays h g st st' lg (After-Stays h f v flags g st _ k lg ne a);
    }

-- Let only the six features have configurations, let the hart's field for the length of pointer masks
-- take 0, and take back what it holds, and let the two bits of medeleg for misaligned accesses be
-- writable. After a `sbi_fwft_set` that gives SBI_OK, `sbi_fwft_get`
-- gives the value that was set, for the length of pointer masks that value or a larger one; the flags
-- are those given, and what `sbi_fwft_get` gives for another feature has not changed.
pub sbi_fwft_get-set :
    (h : Hart) (f v flags : ℕ) (st : Fwft)
    → IsKnown st
    → IsLegal h st.csrs.menvcfg
    → (sbi_fwft_set h f v flags st).0 ≡ ok
    → Recorded h f v flags st (sbi_fwft_set h f v flags st).1
sbi_fwft_get-set h f v flags st k l e =
    let a = sbi_fwft_set-After h f v flags st in
    After-Recorded h f v flags st (sbi_fwft_set h f v flags st) k l a a e

pub record Call : Type 0 where
  pub feature : ℕ
  pub value : ℕ
  pub flags : ℕ

-- Calls of `sbi_fwft_set`, one after the other.
abbrev pub run : Hart → List Call → Fwft → Fwft
run h [] st = st
run h (c ∷ cs) st = run h cs (sbi_fwft_set h c.feature c.value c.flags st).1

IsLocked-Stays : (f : ℕ) (st st' : Fwft) → Stays f st st' → IsLocked f st → IsLocked f st'
IsLocked-Stays f st st' s l = record {
  flags = l.flags;
  found = s.config ∙ l.found;
  locked = l.locked;
}

-- Let only the six features have configurations, and one of them be locked. After any calls of
-- `sbi_fwft_set`, for this feature and for others, with any values and flags, `sbi_fwft_get` gives for
-- it what it gave before, and it is locked.
pub run-IsLocked :
    (h : Hart) (f : ℕ) (cs : List Call) (st : Fwft)
    → IsKnown st
    → IsLocked f st
    → (sbi_fwft_get h f (run h cs st) ≡ sbi_fwft_get h f st) × IsLocked f (run h cs st)
run-IsLocked h f [] st k l = (refl, l)
run-IsLocked h f (c ∷ cs) st k l =
    let out = sbi_fwft_set h c.feature c.value c.flags st in
    let a = sbi_fwft_set-After h c.feature c.value c.flags st in
    let s = locked-Stays h c.feature c.value c.flags f st out k l a in
    let rest =
      run-IsLocked h f cs out.1 (After-IsKnown h c.feature c.value c.flags st out k a)
        (IsLocked-Stays f st out.1 s l) in
    (rest.0 ∙ get-Stays h f st out.1 (known-le st f l.flags k l.found) s, rest.1)
