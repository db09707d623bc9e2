-- ===== src/Sbi/Domain/Assigned.antt =====
-- The assigned harts of the domains and the domain of each hart agree.
use inside_system.Prelude.{
  ℕ, ◌≡◌, refl, sym, ap, ◌∙◌, Bool, true, false, List, [], ◌∷◌, Option, none, some, ◌==◌, ◌&&◌,
  if◌then◌else◌, inl, inr, Bool-cases, Option-cases, ==-eq,
}
use inside_system.Sbi.Domain.Assign.{
  Registry, Platform, update, has_index, is_possible, sbi_hartindex_to_domain, set_assigned,
  assign_one, assign_all,
}

abbrev pub is_owner : Option ℕ → ℕ → Bool
is_owner none d = false
is_owner (some t) d = d == t

-- A hart is in the mask of a listed domain exactly when it points to it, and it points to none other.
pub record IsConsistent (g : Registry) : Type 0 where
  pub agrees : (d i : ℕ) → has_index d g.domains ≡ true → g.assigned d i ≡ is_owner (g.owner i) d
  pub listed : (d i : ℕ) → is_owner (g.owner i) d ≡ true → has_index d g.domains ≡ true

module _ (p : Platform) (dom : ℕ) where
  owner-assign_one :
      (i j : ℕ) (g : Registry)
      → p.has_scratch i ≡ true
      → (assign_one p dom i g).owner j ≡ (if j == i then some dom else g.owner j)
  unfolding assign_one
  owner-assign_one i j g s = elim (Option-cases (g.owner i)) [
    | inl e ↦ rw (s, e) refl
    | inr (t, e) ↦ rw (s, e) refl
  ]

  domains-assign_one : (i : ℕ) (g : Registry) → (assign_one p dom i g).domains ≡ g.domains
  unfolding assign_one
  domains-assign_one i g = elim (Option-cases (sbi_hartindex_to_domain p g i)) [
    | inl e ↦ rw e refl
    | inr (t, e) ↦ rw e refl
  ]

  -- What the mask of a listed domain holds once the hart is moved, from a hart with no domain.
  marked :
      (d i j : ℕ) (g : Registry)
      → IsConsistent g
      → has_index d g.domains ≡ true
      → g.owner i ≡ none
      → update g.assigned dom (update (g.assigned dom) i true) d j
        ≡ is_owner (if j == i then some dom else g.owner j) d
  marked d i j g c h e = elim (Bool-cases (j == i)) [
    | inl here ↦
        let at_i = c.agrees d j h in
        let same = ap g.owner (==-eq here) in
        rw here (elim (Bool-cases (d == dom)) [
          | inl mine ↦ rw (mine, here) refl
          | inr not_mine ↦ rw not_mine (at_i ∙ ap (λ o. is_owner o d) (same ∙ e))
        ])
    | inr there ↦ rw there (elim (Bool-cases (d == dom)) [
      | inl mine ↦ rw (mine, there) (ap (λ z. g.assigned z j) (sym (==-eq mine)) ∙ c.agrees d j h)
      | inr not_mine ↦ rw not_mine (c.agrees d j h)
    ])
  ]

  -- The same from a hart that the domain t had.
  marked_anew :
      (t d i j : ℕ) (g : Registry)
      → IsConsistent g
      → has_index d g.domains ≡ true
      → g.owner i ≡ some t
      → (set_assigned dom i true (set_assigned t i false g)).assigned d j
        ≡ is_owner (if j == i then some dom else g.owner j) d
  marked_anew t d i j g c h e = elim (Bool-cases (j == i)) [
    | inl here ↦
        let at_i = c.agrees d j h in
        let same = ap g.owner (==-eq here) in
        rw here (elim (Bool-cases (d == dom)) [
          | inl mine ↦ rw (mine, here) refl
          | inr not_mine ↦ rw not_mine (elim (Bool-cases (d == t)) [
            | inl old ↦ rw (old, here) refl
            | inr not_old ↦ rw not_old (at_i ∙ (ap (λ o. is_owner o d) (same ∙ e) ∙ not_old))
          ])
        ])
    | inr there ↦ rw there (elim (Bool-cases (d == dom)) [
      | inl mine ↦
          let there_too = c.agrees d j h in
          let same = ap (λ z. g.assigned z j) (==-eq mine) in
          rw (mine, there)
            (elim (Bool-cases (dom == t)) [
              | inl old ↦
                  rw (old, there)
                    (ap (λ z. g.assigned z j) (sym (==-eq old)) ∙ (sym same ∙ there_too))
              | inr not_old ↦ rw not_old (sym same ∙ there_too)
            ])
      | inr not_mine ↦ rw not_mine (elim (Bool-cases (d == t)) [
        | inl old ↦ rw (old, there) (ap (λ z. g.assigned z j) (sym (==-eq old)) ∙ c.agrees d j h)
        | inr not_old ↦ rw not_old (c.agrees d j h)
      ])
    ])
  ]

  assigned-assign_one :
      (d i j : ℕ) (g : Registry)
      → p.has_scratch i ≡ true
      → IsConsistent g
      → has_index d g.domains ≡ true
      → (assign_one p dom i g).assigned d j ≡ is_owner (if j == i then some dom else g.owner j) d
  unfolding assign_one
  assigned-assign_one d i j g s c h = elim (Option-cases (g.owner i)) [
    | inl e ↦ rw (s, e) (marked d i j g c h e)
    | inr (t, e) ↦ rw (s, e) (marked_anew t d i j g c h e)
  ]

  assign_one-IsConsistent :
      (i : ℕ) (g : Registry)
      → p.has_scratch i ≡ true
      → has_index dom g.domains ≡ true
      → IsConsistent g
      → IsConsistent (assign_one p dom i g)
  assign_one-IsConsistent i g s here c =
      let keep = domains-assign_one i g in
      record {
        agrees = λ d j h.
            assigned-assign_one d i j g s c (sym (ap (has_index d) keep) ∙ h)
            ∙ ap (λ o. is_owner o d) (sym (owner-assign_one i j g s));
        listed = λ d j h.
            ap (has_index d) keep
            ∙ listed_too d j g here c (sym (ap (λ o. is_owner o d) (owner-assign_one i j g s)) ∙ h);
      }
    where
      listed_too :
          (d j : ℕ) (g : Registry)
          → has_index dom g.domains ≡ true
          → IsConsistent g
          → is_owner (if j == i then some dom else g.owner j) d ≡ true
          → has_index d g.domains ≡ true
      listed_too d j g here c h = elim (Bool-cases (j == i)) [
        | inr there ↦ c.listed d j (rw there at h)
        | inl moved ↦
            let mine : (d == dom) ≡ true = rw moved at h in
            ap (λ z. has_index z g.domains) (==-eq mine) ∙ here
      ]

  -- Each possible hart has a scratch space.
  abbrev pub AllScratch : Option (List ℕ) → Type 0
  AllScratch possible = (i : ℕ) → is_possible possible i ≡ true → p.has_scratch i ≡ true

  -- The harts of the mask that are possible get the domain, and no other.
  abbrev pub owner_after : Option (List ℕ) → List ℕ → (ℕ → Option ℕ) → ℕ → Option ℕ
  owner_after possible is owner j =
      if has_index j is && is_possible possible j then some dom else owner j

  skip_one :
      (possible : Option (List ℕ)) (i j : ℕ) (is : List ℕ) (owner : ℕ → Option ℕ)
      → is_possible possible i ≡ false
      → owner_after possible is owner j ≡ owner_after possible (i ∷ is) owner j
  skip_one possible i j is owner h = elim (Bool-cases (j == i)) [
    | inr other ↦ rw other refl
    | inl same ↦
        let not_possible : is_possible possible j ≡ false =
          ap (is_possible possible) (==-eq same) ∙ h in
        rw (same, not_possible)
          (elim (Bool-cases (has_index j is)) [
            | inl found ↦ rw found refl
            | inr absent ↦ rw absent refl
          ])
  ]

  move_one :
      (possible : Option (List ℕ)) (i j : ℕ) (is : List ℕ) (moved owner : ℕ → Option ℕ)
      → is_possible possible i ≡ true
      → moved j ≡ (if j == i then some dom else owner j)
      → owner_after possible is moved j ≡ owner_after possible (i ∷ is) owner j
  move_one possible i j is moved owner h e = elim (Bool-cases (j == i)) [
    | inr other ↦ rw other (rw (e, other) refl)
    | inl same ↦
        let there : is_possible possible j ≡ true = ap (is_possible possible) (==-eq same) ∙ h in
        let got : moved j ≡ some dom = rw same at e in
        rw (same, there, got)
          (elim (Bool-cases (has_index j is)) [
            | inl found ↦ rw found refl
            | inr absent ↦ rw absent refl
          ])
  ]

  pub record Assigned (possible : Option (List ℕ)) (is : List ℕ) (g g' : Registry) : Type 0 where
    pub consistent : IsConsistent g'
    pub owners : (j : ℕ) → g'.owner j ≡ owner_after possible is g.owner j
    pub same_list : g'.domains ≡ g.domains

  pub assign_all-Assigned :
      (possible : Option (List ℕ)) (is : List ℕ) (g : Registry)
      → AllScratch possible
      → has_index dom g.domains ≡ true
      → IsConsistent g
      → Assigned possible is g (assign_all p dom possible is g)
  unfolding assign_all
  assign_all-Assigned possible [] g a here c = record {
    consistent = c;
    owners = λ j. refl;
    same_list = refl;
  }
  assign_all-Assigned possible (i ∷ is) g a here c = elim (Bool-cases (is_possible possible i)) [
    | inr not_possible ↦
        let rest = assign_all-Assigned possible is g a here c in
        rw not_possible (record {
          consistent = rest.consistent;
          owners = λ j. rest.owners j ∙ skip_one possible i j is g.owner not_possible;
          same_list = rest.same_list;
        })
    | inl possible_hart ↦
        let s = a i possible_hart in
        let keep = domains-assign_one i g in
        let rest =
          assign_all-Assigned possible is (assign_one p dom i g) a (ap (has_index dom) keep ∙ here)
            (assign_one-IsConsistent i g s here c) in
        rw possible_hart (record {
          consistent = rest.consistent;
          owners = λ j.
              rest.owners j
              ∙ move_one possible i j is (assign_one p dom i g).owner g.owner possible_hart
                  (owner-assign_one i j g s);
          same_list = rest.same_list ∙ keep;
        })
  ]
