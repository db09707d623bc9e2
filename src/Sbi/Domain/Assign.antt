-- ===== src/Sbi/Domain/Assign.antt =====
-- `sbi_domain_register` of sbi_domain.c: which domain has which hart. A domain is a number, that stands
-- for its address; a hart mask is the list of its hart indices.
use inside_system.Prelude.{
  ℕ, zero, ◌+◌, Bool, true, false, List, [], ◌∷◌, ◌++◌, Option, none, some, ◌==◌, ◌||◌,
  if◌then◌else◌,
}
use inside_system.Sbi.Status.{Status, Status.code, Status.einval, Status.ealready, ok}
use inside_system.Sbi.Domain.Sanitize.{Domain, sanitize_domain}

-- `domain_list`, `domain_count`, `domain_finalized`, the domain that the scratch space of a hart points
-- to, and of each domain what it holds, its index, its assigned harts and its boot hart.
pub record Registry : Type 0 where
  pub domains : List ℕ
  pub count : ℕ
  pub finalized : Bool
  pub owner : ℕ → Option ℕ
  pub domain : ℕ → Domain
  pub index : ℕ → ℕ
  pub assigned : ℕ → ℕ → Bool
  pub boot_hartid : ℕ → ℕ

-- What the function reads and does not change: the last hart index, whether a hart has a scratch
-- space, its hart id, the cold boot hart, and what `sbi_domain_setup_data` returns for a domain, which
-- calls the setup of each registered kind of data.
pub record Platform : Type 0 where
  pub last_hartindex : ℕ
  pub has_scratch : ℕ → Bool
  pub hartid : ℕ → ℕ
  pub cold_hartid : ℕ
  pub setup_data : ℕ → Status

abbrev pub update {ℓ} : {A : Type ℓ} → (ℕ → A) → ℕ → A → ℕ → A
update f k v i = if i == k then v else f i

abbrev pub has_index : ℕ → List ℕ → Bool
has_index i [] = false
has_index i (k ∷ ks) = i == k || has_index i ks

abbrev pub is_possible : Option (List ℕ) → ℕ → Bool
is_possible none i = false
is_possible (some harts) i = has_index i harts

-- `sbi_hartindex_to_domain`
abbrev pub sbi_hartindex_to_domain : Platform → Registry → ℕ → Option ℕ
sbi_hartindex_to_domain p g i = if p.has_scratch i then g.owner i else none

-- `sbi_update_hartindex_to_domain`
abbrev pub sbi_update_hartindex_to_domain : Platform → ℕ → ℕ → Registry → Registry
sbi_update_hartindex_to_domain p i dom g = record g {
  owner = if p.has_scratch i then update g.owner i (some dom) else g.owner;
}

-- `sbi_hartmask_set_hartindex` and `sbi_hartmask_clear_hartindex` on the assigned harts of a domain.
abbrev pub set_assigned : ℕ → ℕ → Bool → Registry → Registry
set_assigned dom i b g = record g { assigned = update g.assigned dom (update (g.assigned dom) i b) }

abbrev pub clear_old : Option ℕ → ℕ → Registry → Registry
clear_old none i g = g
clear_old (some tdom) i g = set_assigned tdom i false g

abbrev pub force_boot : Platform → ℕ → ℕ → Registry → Registry
force_boot p dom i g = record g {
  boot_hartid =
      if p.hartid i == p.cold_hartid then update g.boot_hartid dom p.cold_hartid else g.boot_hartid;
}

-- The loop's body for a hart that is possible.
unfoldable pub assign_one : Platform → ℕ → ℕ → Registry → Registry
assign_one p dom i g =
    let cleared = clear_old (sbi_hartindex_to_domain p g i) i g in
    force_boot p dom i (set_assigned dom i true (sbi_update_hartindex_to_domain p i dom cleared))

-- The loop over `assign_mask`.
unfoldable pub assign_all : Platform → ℕ → Option (List ℕ) → List ℕ → Registry → Registry
assign_all p dom possible [] g = g
assign_all p dom possible (i ∷ is) g =
    assign_all p dom possible is (if is_possible possible i then assign_one p dom i g else g)

-- `sbi_list_add_tail`, the index, and the cleared mask.
unfoldable pub enlist : ℕ → Domain → Registry → Registry
enlist dom d g = record g {
  domains = g.domains ++ (dom ∷ []);
  count = g.count + 1;
  domain = update g.domain dom d;
  index = update g.index dom g.count;
  assigned = update g.assigned dom (λ _. false);
}

-- `sbi_list_del`
unfoldable pub delist : ℕ → List ℕ → List ℕ
delist dom [] = []
delist dom (d ∷ ds) = if d == dom then delist dom ds else d ∷ delist dom ds

-- What follows the setup of the data.
abbrev pub after_setup : ℕ → Status → Registry → Registry × Status
after_setup dom (code zero) g = (g, ok)
after_setup dom rc g = (record g { domains = delist dom g.domains }, rc)

abbrev pub register_sane : Platform → ℕ → List ℕ → Domain × Status → Registry → Registry × Status
register_sane p dom mask (d, code zero) g =
    after_setup dom (p.setup_data dom) (assign_all p dom d.possible_harts mask (enlist dom d g))
register_sane p dom mask (d, rc) g = (record g { domain = update g.domain dom d }, rc)

unfoldable pub sbi_domain_register : Platform → ℕ → Option (List ℕ) → Registry → Registry × Status
sbi_domain_register p dom none g = (g, einval)
sbi_domain_register p dom (some mask) g =
    if g.finalized
    then (g, einval)
    else if has_index dom g.domains
    then (g, ealready)
    else register_sane p dom mask (sanitize_domain p.last_hartindex (g.domain dom)) g
