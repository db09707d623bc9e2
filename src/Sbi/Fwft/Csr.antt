-- ===== src/Sbi/Fwft/Csr.antt =====
-- The control registers that sbi_fwft.c reads and writes.
use Prim.Native.Nat.{bit_or}
use inside_system.Prelude.{ℕ, ◌+◌, ◌-◌, ◌*◌, ◌/◌, ◌%◌, ◌^◌, Bool}

pub record Csrs : Type 0 where
  pub medeleg : ℕ
  pub menvcfg : ℕ

-- What the hart has: the S mode, the extensions that the features need, and what medeleg and the field
-- PMM of menvcfg hold once a value is written over another one, since a hart need not take each value.
-- The other bits of menvcfg that the features use are held as they are written, since `supported` asks
-- for their extensions first.
pub record Hart : Type 0 where
  pub has_s : Bool
  pub has_zicfilp : Bool
  pub has_zicfiss : Bool
  pub has_ssdbltrp : Bool
  pub has_svadu : Bool
  pub has_smnpm : Bool
  pub legal_pmm : ℕ → ℕ → ℕ
  pub legal_medeleg : ℕ → ℕ → ℕ

-- `ENVCFG_PMM`: the two bits from 32 on.
abbrev pub pmm : ℕ → ℕ
pmm menvcfg = menvcfg / 2 ^ 32 % 4

abbrev pub with_pmm : ℕ → ℕ → ℕ
with_pmm menvcfg p = menvcfg - pmm menvcfg * 2 ^ 32 + p % 4 * 2 ^ 32

-- `csr_clear(CSR_MENVCFG, ENVCFG_PMM)`, `csr_set(CSR_MENVCFG, p)`, `csr_write(CSR_MENVCFG, prev)`
unfoldable pub clear_pmm : Hart → ℕ → ℕ
clear_pmm h m = with_pmm m (h.legal_pmm (pmm m) 0)

unfoldable pub set_pmm : Hart → ℕ → ℕ → ℕ
set_pmm h m p = with_pmm m (h.legal_pmm (pmm m) (bit_or (pmm m) p))

unfoldable pub write_back : Hart → ℕ → ℕ → ℕ
write_back h m prev = with_pmm prev (h.legal_pmm (pmm m) (pmm prev))
