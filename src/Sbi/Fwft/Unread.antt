-- ===== src/Sbi/Fwft/Unread.antt =====
-- The misaligned accesses in sbi_fwft.c on a hart that does not delegate them.
use inside_system.Prelude.{ℕ, ◌≡◌, false}
use inside_system.Rv32.Words.{bit}
use inside_system.Sbi.Status.{Status}
use inside_system.Sbi.Fwft.Csr.{Hart}
use inside_system.Sbi.Fwft.Locked.{After, After.unmoved, After.refused, After.moved}
use inside_system.Sbi.Fwft.{Fwft}

-- The bits of medeleg for misaligned loads and stores are 0 whatever is written.
pub record NeverDelegates (h : Hart) : Type 0 where
  pub no_loads : (old new : ℕ) → bit (h.legal_medeleg old new) 4 ≡ false
  pub no_stores : (old new : ℕ) → bit (h.legal_medeleg old new) 6 ≡ false
