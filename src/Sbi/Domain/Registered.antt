-- ===== src/Sbi/Domain/Registered.antt =====
-- What `sbi_domain_register` keeps and what it changes.
use inside_system.Prelude.{
  ℕ, zero, suc, ◌≤◌, ◌≡◌, ◌≢◌, ◌⊎◌, refl, sym, ap, subst, ◌∙◌, true, false, List, some, arith, inl,
  inr, Bool-cases,
}
use inside_system.Sbi.Status.{Status, Status.code, Status.einval, Status.ealready, ok}
use inside_system.Sbi.Domain.Sanitize.{Domain, sanitize_domain}
use inside_system.Sbi.Domain.Sanitized.{IsSane-of_ok, IsSane-ok}
use inside_system.Sbi.Domain.Assign.{
  Registry, Platform, update, has_index, is_possible, assign_all, enlist, delist, after_setup,
  register_sane, sbi_domain_register,
}
use inside_system.Sbi.Domain.Assigned.{IsConsistent, AllScratch, owner_after, assign_all-Assigned}
use inside_system.Sbi.Domain.Enlist.{enlist-IsConsistent, enlist-listed, valid-le}

ok-cases : (rc : Status) → (rc ≡ ok) ⊎ (rc ≢ ok)
ok-cases (code zero) = inl refl
ok-cases (code (suc n)) = inr (λ e. cc)
ok-cases rc = inr (λ e. cc)

after_setup-ok : (dom : ℕ) (rc : Status) (g : Registry) → rc ≡ ok → after_setup dom rc g ≡ (g, ok)
after_setup-ok dom rc g e = rw e refl

pub after_setup-failed :
    (dom : ℕ) (rc : Status) (g : Registry)
    → rc ≢ ok
    → after_setup dom rc g ≡ (record g { domains = delist dom g.domains }, rc)
after_setup-failed dom (code zero) g ne = absurd (ne refl)
after_setup-failed dom (code (suc n)) g ne = refl
after_setup-failed dom rc g ne = refl

pub register_sane-ok :
    (p : Platform) (dom : ℕ) (mask : List ℕ) (d : Domain) (rc : Status) (g : Registry)
    → rc ≡ ok
    → register_sane p dom mask (d, rc) g
      ≡ after_setup dom (p.setup_data dom) (assign_all p dom d.possible_harts mask (enlist dom d g))
register_sane-ok p dom mask d rc g e = rw e refl

register_sane-failed :
    (p : Platform) (dom : ℕ) (mask : List ℕ) (d : Domain) (rc : Status) (g : Registry)
    → rc ≢ ok
    → register_sane p dom mask (d, rc) g ≡ (record g { domain = update g.domain dom d }, rc)
register_sane-failed p dom mask d (code zero) g ne = absurd (ne refl)
register_sane-failed p dom mask d (code (suc n)) g ne = refl
register_sane-failed p dom mask d rc g ne = refl

-- What the harts of a sane domain are after the check, with a scratch space each.
pub sane-AllScratch :
    (p : Platform) (k : ℕ) (dom : Domain)
    → ((i : ℕ) → i ≤ p.last_hartindex → p.has_scratch i ≡ true)
    → (sanitize_domain p.last_hartindex dom).1 ≡ ok
    → AllScratch p k (sanitize_domain p.last_hartindex dom).0.possible_harts
      × ((sanitize_domain p.last_hartindex dom).0.possible_harts ≡ dom.possible_harts)
sane-AllScratch p k dom all e =
    let s = IsSane-of_ok p.last_hartindex dom e in
    let same = ap (λ r. r.0.possible_harts) (IsSane-ok p.last_hartindex dom s) in
    (
      (λ i h. all i (
          valid-le p.last_hartindex i s.harts s.harts_valid
            (sym (ap (λ o. is_possible o i) (same ∙ s.harts_set)) ∙ h))),
      same,
    )

-- What a call leaves, where the data of the domain is set up.
pub record Moves (p : Platform) (dom : ℕ) (mask : List ℕ) (g : Registry) (out : Registry × Status)
    : Type 0 where
  pub kept : IsConsistent out.0
  pub owners :
      out.1 ≡ ok
      → (j : ℕ) → out.0.owner j ≡ owner_after p dom (g.domain dom).possible_harts mask g.owner j

unmoved-Moves :
    (p : Platform) (dom : ℕ) (mask : List ℕ) (g : Registry) (rc : Status)
    → IsConsistent g
    → rc ≢ ok
    → Moves p dom mask g (g, rc)
unmoved-Moves p dom mask g rc c ne = record { kept = c; owners = λ e. absurd (ne e) }

failed-Moves :
    (p : Platform) (dom : ℕ) (mask : List ℕ) (g : Registry) (d : ℕ → Domain) (rc : Status)
    → IsConsistent g
    → rc ≢ ok
    → Moves p dom mask g (record g { domain = d }, rc)
failed-Moves p dom mask g d rc c ne = record {
  kept = record { agrees = c.agrees; listed = c.listed };
  owners = λ e. absurd (ne e);
}

owner-enlist :
    (p : Platform) (dom : ℕ) (mask : List ℕ) (d : Domain) (g : Registry) (j : ℕ)
    → d.possible_harts ≡ (g.domain dom).possible_harts
    → owner_after p dom d.possible_harts mask (enlist dom d g).owner j
      ≡ owner_after p dom (g.domain dom).possible_harts mask g.owner j
unfolding enlist
owner-enlist p dom mask d g j same = ap (λ o. owner_after p dom o mask g.owner j) same

pub sane-Moves :
    (p : Platform) (dom : ℕ) (mask : List ℕ) (g : Registry) (d : Domain)
    → IsConsistent g
    → has_index dom g.domains ≡ false
    → AllScratch p dom d.possible_harts
    → d.possible_harts ≡ (g.domain dom).possible_harts
    → Moves p dom mask g (assign_all p dom d.possible_harts mask (enlist dom d g), ok)
sane-Moves p dom mask g d c fresh a same =
    let start = enlist-IsConsistent dom d g fresh c in
    let done =
      assign_all-Assigned p dom d.possible_harts mask (enlist dom d g) a (enlist-listed dom d g)
        start in
    record {
      kept = done.consistent;
      owners = λ _ j. done.owners j ∙ owner-enlist p dom mask d g j same;
    }

-- A mask is given, the domains may still change, and `dom` is a new one.
pub record IsNew (dom : ℕ) (g : Registry) : Type 0 where
  pub open_yet : g.finalized ≡ false
  pub fresh : has_index dom g.domains ≡ false

pub new-sane :
    (p : Platform) (dom : ℕ) (mask : List ℕ) (g : Registry)
    → IsNew dom g
    → sbi_domain_register p dom (some mask) g
      ≡ register_sane p dom mask (sanitize_domain p.last_hartindex (g.domain dom)) g
unfolding sbi_domain_register
new-sane p dom mask g n = rw (n.open_yet, n.fresh) refl

new-Moves :
    (p : Platform) (dom : ℕ) (mask : List ℕ) (g : Registry)
    → IsConsistent g
    → ((i : ℕ) → i ≤ p.last_hartindex → p.has_scratch i ≡ true)
    → p.setup_data dom ≡ ok
    → IsNew dom g
    → Moves p dom mask g
        (register_sane p dom mask (sanitize_domain p.last_hartindex (g.domain dom)) g)
new-Moves p dom mask g c all ready n =
    let r = sanitize_domain p.last_hartindex (g.domain dom) in
    elim (ok-cases r.1) [
      | inr bad ↦
          rw (register_sane-failed p dom mask r.0 r.1 g bad)
            (failed-Moves p dom mask g (update g.domain dom r.0) r.1 c bad)
      | inl fine ↦
          let (a, same) = sane-AllScratch p dom (g.domain dom) all fine in
          rw (register_sane-ok p dom mask r.0 r.1 g fine) (
            rw
              (after_setup-ok dom (p.setup_data dom)
                (assign_all p dom r.0.possible_harts mask (enlist dom r.0 g)) ready)
              (sane-Moves p dom mask g r.0 c n.fresh a same))
    ]

-- Let each hart have a scratch space, and the setup of the domain's data succeed. A call of
-- `sbi_domain_register`, on each of its branches, keeps the two records of the harts in agreement. If it
-- gives SBI_OK, the harts of the mask that are possible have the domain, and the others keep theirs.
pub sbi_domain_register-Moves :
    (p : Platform) (dom : ℕ) (mask : List ℕ) (g : Registry)
    → IsConsistent g
    → ((i : ℕ) → i ≤ p.last_hartindex → p.has_scratch i ≡ true)
    → p.setup_data dom ≡ ok
    → Moves p dom mask g (sbi_domain_register p dom (some mask) g)
unfolding sbi_domain_register
sbi_domain_register-Moves p dom mask g c all ready = elim (Bool-cases g.finalized) [
  | inl closed ↦
      let same : sbi_domain_register p dom (some mask) g ≡ (g, einval) = ground (arith, closed) in
      subst (Moves p dom mask g) (sym same) (unmoved-Moves p dom mask g einval c (λ e. cc))
  | inr open_yet ↦ elim (Bool-cases (has_index dom g.domains)) [
    | inl known ↦
        let same : sbi_domain_register p dom (some mask) g ≡ (g, ealready) =
          ground (arith, open_yet, known) in
        subst (Moves p dom mask g) (sym same) (unmoved-Moves p dom mask g ealready c (λ e. cc))
    | inr fresh ↦
        let n : IsNew dom g = record { open_yet = open_yet; fresh = fresh } in
        subst (Moves p dom mask g) (sym (new-sane p dom mask g n))
          (new-Moves p dom mask g c all ready n)
  ]
]
