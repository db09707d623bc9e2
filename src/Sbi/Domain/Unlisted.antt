-- ===== src/Sbi/Domain/Unlisted.antt =====
-- `sbi_domain_register` of sbi_domain.c, where the setup of the data fails.
use inside_system.Prelude.{
  ℕ, ◌≤◌, ◌≡◌, ◌≢◌, refl, ap, subst, ◌∙◌, true, false, List, [], ◌∷◌, some, arith, ◌==◌, inl, inr,
  Bool-cases,
}
use inside_system.Sbi.Status.{ok}
use inside_system.Sbi.Domain.Sanitize.{sanitize_domain}
use inside_system.Sbi.Domain.Assign.{
  Registry, Platform, has_index, is_possible, assign_all, enlist, delist, sbi_domain_register,
}
use inside_system.Sbi.Domain.Assigned.{is_owner, IsConsistent}
use inside_system.Sbi.Domain.Registered.{
  IsNew, new-sane, register_sane-ok, after_setup-failed, sane-AllScratch, sane-Moves,
}

not_has_index-delist : (dom : ℕ) (ds : List ℕ) → has_index dom (delist dom ds) ≡ false
unfolding delist
not_has_index-delist dom [] = refl
not_has_index-delist dom (d ∷ ds) = elim (Bool-cases (d == dom)) [
  | inl same ↦ rw same (not_has_index-delist dom ds)
  | inr other ↦
      let miss : (dom == d) ≡ false = ground (arith, other) in
      rw other (rw miss (not_has_index-delist dom ds))
]

-- Let each hart have a scratch space, and the two records of the harts agree. Where a new, sane
-- domain is registered with a mask that has a possible hart, and the setup of its data fails, the
-- two records no longer agree.
pub setup-failed :
    (p : Platform) (dom : ℕ) (mask : List ℕ) (g : Registry) (i : ℕ)
    → IsConsistent g
    → ((i : ℕ) → i ≤ p.last_hartindex → p.has_scratch i ≡ true)
    → IsNew dom g
    → (sanitize_domain p.last_hartindex (g.domain dom)).1 ≡ ok
    → p.setup_data dom ≢ ok
    → has_index i mask ≡ true
    → is_possible (g.domain dom).possible_harts i ≡ true
    → ¬ IsConsistent (sbi_domain_register p dom (some mask) g).0
setup-failed p dom mask g i c all n fine bad masked possible k =
    let r = sanitize_domain p.last_hartindex (g.domain dom) in
    let (a, same) = sane-AllScratch p dom (g.domain dom) all fine in
    let m = sane-Moves p dom mask g r.0 c n.fresh a same in
    let e =
      new-sane p dom mask g n
      ∙ (register_sane-ok p dom mask r.0 r.1 g fine
          ∙ after_setup-failed dom (p.setup_data dom)
              (assign_all p dom r.0.possible_harts mask (enlist dom r.0 g)) bad) in
    let k' = subst (λ o. IsConsistent o.0) e k in
    let left : is_owner ((assign_all p dom r.0.possible_harts mask (enlist dom r.0 g)).owner i) dom
        ≡ true =
      ap (λ o. is_owner o dom) (m.owners refl i) ∙ rw (masked, possible) (ground arith) in
    let listed = k'.listed dom i left in
    let unlisted =
      not_has_index-delist dom
        (assign_all p dom r.0.possible_harts mask (enlist dom r.0 g)).domains in
    cc
