-- ===== src/Sbi/Domain/Enlist.antt =====
-- A domain that is put on the list of domains, in sbi_domain.c.
use inside_system.Prelude.{
  ℕ, ◌≤◌, ◌≡◌, refl, sym, ap, ◌∙◌, true, false, List, [], ◌∷◌, ◌++◌, arith, ◌==◌, ◌||◌, inl, inr,
  Bool-cases, ==-eq,
}
use inside_system.Sbi.Domain.Sanitize.{Domain, are_harts_valid}
use inside_system.Sbi.Domain.Assign.{Registry, has_index, enlist}
use inside_system.Sbi.Domain.Assigned.{is_owner, IsConsistent}

has_index-append :
    (d k : ℕ) (xs : List ℕ) → has_index d (xs ++ (k ∷ [])) ≡ (has_index d xs || d == k)
has_index-append d k [] = ground arith
has_index-append d k (x ∷ xs) = elim (Bool-cases (d == x)) [
  | inl same ↦ rw same refl
  | inr other ↦ rw other (has_index-append d k xs)
]

-- A domain that is not listed has no hart.
not_owner :
    (g : Registry) (dom i : ℕ)
    → IsConsistent g
    → has_index dom g.domains ≡ false
    → is_owner (g.owner i) dom ≡ false
not_owner g dom i c fresh = elim (Bool-cases (is_owner (g.owner i) dom)) [
  | inr free ↦ free
  | inl owns ↦ let h = c.listed dom i owns in absurd (cc)
]

pub enlist-IsConsistent :
    (dom : ℕ) (d : Domain) (g : Registry)
    → has_index dom g.domains ≡ false
    → IsConsistent g
    → IsConsistent (enlist dom d g)
unfolding enlist
enlist-IsConsistent dom d g fresh c = record {
  agrees = λ e i h. elim (Bool-cases (e == dom)) [
    | inl same ↦ rw same (sym (ap (is_owner (g.owner i)) (==-eq same) ∙ not_owner g dom i c fresh))
    | inr other ↦
        let was : (has_index e g.domains || e == dom) ≡ true =
          sym (has_index-append e dom g.domains) ∙ h in
        rw other (c.agrees e i (ground (arith, was, other)))
  ];
  listed = λ e i h. has_index-append e dom g.domains ∙ rw (c.listed e i h) refl;
}

pub enlist-listed :
    (dom : ℕ) (d : Domain) (g : Registry) → has_index dom (enlist dom d g).domains ≡ true
unfolding enlist
enlist-listed dom d g = has_index-append dom dom g.domains ∙ ground arith

pub valid-le :
    (last i : ℕ) (harts : List ℕ)
    → are_harts_valid last harts ≡ true
    → has_index i harts ≡ true
    → i ≤ last
unfolding are_harts_valid
valid-le last i [] v h = absurd (cc)
valid-le last i (k ∷ ks) v h = elim (Bool-cases (i == k)) [
  | inl same ↦ ground (arith, v, same)
  | inr other ↦ valid-le last i ks (ground (arith, v)) (rw other at h)
]
