-- ===== src/Sbi/Fwft.antt =====
-- OS_Spring_2026/course_3/opensbi/lib/sbi/sbi_fwft.c: the firmware features of a hart, on 64 bits.
pub mod Csr
pub mod Pmlen
pub mod Kept
pub mod Apart
pub mod Locked
pub mod Runs
pub mod Unread
mod Init
mod Tests
use inside_system.Prelude.{
  ℕ, zero, Bool, List, [], ◌∷◌, Option, none, some, leb, ◌==◌, ◌||◌, if◌then◌else◌,
}
use inside_system.Sbi.Status.{
  Status, Status.code, Status.enotsupp, Status.einval, Status.edenied, Status.edenied_locked, ok,
}
use inside_system.Rv32.Words.{bit, set_bit, clear_bit}
use Csr.{Csrs, Hart}
use Pmlen.{set_pmlen, get_pmlen}

-- `struct fwft_config`; the feature is its number.
pub record Config : Type 0 where
  pub id : ℕ
  pub flags : ℕ

pub record Fwft : Type 0 where
  pub csrs : Csrs
  pub configs : List Config

-- `SBI_FWFT_GLOBAL_FEATURE_BIT`
abbrev pub is_global : ℕ → Bool
is_global feature = bit feature 31

-- `fwft_is_defined_feature`
abbrev pub fwft_is_defined_feature : ℕ → Bool
fwft_is_defined_feature feature = leb feature 5

-- `fwft_menvcfg_set_bit`: the result, and menvcfg.
abbrev pub fwft_menvcfg_set_bit : ℕ → ℕ → ℕ → Status × ℕ
fwft_menvcfg_set_bit m value k =
    if value == 1
    then (ok, set_bit m k)
    else if value == 0
    then (ok, clear_bit m k)
    else (einval, m)

-- `fwft_set_misaligned_delegation`: the result, and medeleg, which is not read back.
abbrev pub set_misaligned : Hart → ℕ → ℕ → Status × ℕ
set_misaligned h d value =
    if value == 1
    then (ok, h.legal_medeleg d (set_bit (set_bit d 4) 6))
    else if value == 0
    then (ok, h.legal_medeleg d (clear_bit (clear_bit d 4) 6))
    else (einval, d)

abbrev pub fwft_enable_lpad : ℕ → ℕ → Status × ℕ
fwft_enable_lpad m value = fwft_menvcfg_set_bit m value 2

abbrev pub fwft_enable_sstack : ℕ → ℕ → Status × ℕ
fwft_enable_sstack m value = fwft_menvcfg_set_bit m value 3

abbrev pub fwft_set_double_trap : ℕ → ℕ → Status × ℕ
fwft_set_double_trap m value = fwft_menvcfg_set_bit m value 59

abbrev pub fwft_set_adue : ℕ → ℕ → Status × ℕ
fwft_set_adue m value = fwft_menvcfg_set_bit m value 61

abbrev pub in_medeleg : Csrs → Status × ℕ → Status × Csrs
in_medeleg c (rc, d) = (rc, record c { medeleg = d })

abbrev pub in_menvcfg : Csrs → Status × ℕ → Status × Csrs
in_menvcfg c (rc, m) = (rc, record c { menvcfg = m })

-- `features[]`, the column `set`
unfoldable pub set_feature : Hart → ℕ → ℕ → Csrs → Status × Csrs
set_feature h id value c =
    if id == 0
    then in_medeleg c (set_misaligned h c.medeleg value)
    else if id == 1
    then in_menvcfg c (fwft_enable_lpad c.menvcfg value)
    else if id == 2
    then in_menvcfg c (fwft_enable_sstack c.menvcfg value)
    else if id == 3
    then in_menvcfg c (fwft_set_double_trap c.menvcfg value)
    else if id == 4
    then in_menvcfg c (fwft_set_adue c.menvcfg value)
    else in_menvcfg c (set_pmlen h c.menvcfg value)

abbrev pub of_bit : Bool → ℕ
of_bit b = if b then 1 else 0

-- `fwft_menvcfg_read_bit`
abbrev pub fwft_menvcfg_read_bit : ℕ → ℕ → Status × ℕ
fwft_menvcfg_read_bit m k = (ok, of_bit (bit m k))

abbrev pub get_misaligned : ℕ → Status × ℕ
get_misaligned d = (ok, of_bit (bit d 4 || bit d 6))

abbrev pub fwft_get_lpad : ℕ → Status × ℕ
fwft_get_lpad m = fwft_menvcfg_read_bit m 2

abbrev pub fwft_get_sstack : ℕ → Status × ℕ
fwft_get_sstack m = fwft_menvcfg_read_bit m 3

abbrev pub fwft_get_double_trap : ℕ → Status × ℕ
fwft_get_double_trap m = fwft_menvcfg_read_bit m 59

abbrev pub fwft_get_adue : ℕ → Status × ℕ
fwft_get_adue m = fwft_menvcfg_read_bit m 61

-- `features[]`, the column `get`
unfoldable pub get_feature : ℕ → Csrs → Status × ℕ
get_feature id c =
    if id == 0
    then get_misaligned c.medeleg
    else if id == 1
    then fwft_get_lpad c.menvcfg
    else if id == 2
    then fwft_get_sstack c.menvcfg
    else if id == 3
    then fwft_get_double_trap c.menvcfg
    else if id == 4
    then fwft_get_adue c.menvcfg
    else get_pmlen c.menvcfg

abbrev pub if_has : Bool → Status
if_has b = if b then ok else enotsupp

abbrev pub misaligned_supported : Hart → Status
misaligned_supported h = if_has h.has_s

abbrev pub fwft_lpad_supported : Hart → Status
fwft_lpad_supported h = if_has h.has_zicfilp

abbrev pub fwft_sstack_supported : Hart → Status
fwft_sstack_supported h = if_has h.has_zicfiss

abbrev pub fwft_double_trap_supported : Hart → Status
fwft_double_trap_supported h = if_has h.has_ssdbltrp

abbrev pub fwft_adue_supported : Hart → Status
fwft_adue_supported h = if_has h.has_svadu

abbrev pub fwft_pmlen_supported : Hart → Status
fwft_pmlen_supported h = if_has h.has_smnpm

-- `features[]`, the column `supported`
abbrev pub supported : Hart → ℕ → Status
supported h id =
    if id == 0
    then misaligned_supported h
    else if id == 1
    then fwft_lpad_supported h
    else if id == 2
    then fwft_sstack_supported h
    else if id == 3
    then fwft_double_trap_supported h
    else if id == 4
    then fwft_adue_supported h
    else fwft_pmlen_supported h

-- The loop of `get_feature_config`: the flags of the feature's configuration.
unfoldable pub find_config : ℕ → List Config → Option ℕ
find_config feature [] = none
find_config feature (c ∷ cs) =
    let rest = find_config feature cs in if feature == c.id then some c.flags else rest

abbrev pub get_feature_config : ℕ → List Config → Option ℕ
get_feature_config feature cs = if is_global feature then none else find_config feature cs

-- `conf->flags = flags`, for the first configuration of the feature.
unfoldable pub put_flags : ℕ → ℕ → List Config → List Config
put_flags feature flags [] = []
put_flags feature flags (c ∷ cs) =
    let rest = c ∷ put_flags feature flags cs in
    if feature == c.id then record c { flags = flags } ∷ cs else rest

-- `fwft_get_feature`: the result, and the flags where it is 0.
abbrev pub fwft_get_feature : Hart → ℕ → Option ℕ → Status × ℕ
fwft_get_feature h feature none = (if fwft_is_defined_feature feature then enotsupp else edenied, 0)
fwft_get_feature h feature (some flags) = (supported h feature, flags)

-- `SBI_FWFT_SET_FLAG_LOCK`
abbrev pub is_locked : ℕ → Bool
is_locked flags = bit flags 0

abbrev pub stored : ℕ → ℕ → Fwft → Status × Csrs → Status × Fwft
stored feature flags st (code zero, c) =
    (ok, record { csrs = c; configs = put_flags feature flags st.configs })
stored feature flags st (rc, c) = (rc, record st { csrs = c })

abbrev pub set_found : Hart → ℕ → ℕ → ℕ → Fwft → Status × ℕ → Status × Fwft
set_found h feature value flags st (code zero, old) =
    if leb 2 flags
    then (einval, st)
    else if is_locked old
    then (edenied_locked, st)
    else stored feature flags st (set_feature h feature value st.csrs)
set_found h feature value flags st (rc, old) = (rc, st)

unfoldable pub sbi_fwft_set : Hart → ℕ → ℕ → ℕ → Fwft → Status × Fwft
sbi_fwft_set h feature value flags st =
    set_found h feature value flags st
      (fwft_get_feature h feature (get_feature_config feature st.configs))

abbrev pub get_found : ℕ → Fwft → Status × ℕ → Status × ℕ
get_found feature st (code zero, old) = get_feature feature st.csrs
get_found feature st (rc, old) = (rc, 0)

-- The result, and `*out_val` where it is written.
unfoldable pub sbi_fwft_get : Hart → ℕ → Fwft → Status × ℕ
sbi_fwft_get h feature st =
    get_found feature st (fwft_get_feature h feature (get_feature_config feature st.configs))

-- `fwft_clear_config_lock`
abbrev pub unlocked : ℕ → Fwft → Status × ℕ → Fwft
unlocked feature st (code zero, old) = record st {
  configs = put_flags feature (clear_bit old 0) st.configs;
}
unlocked feature st (rc, old) = st

unfoldable pub fwft_clear_config_lock : Hart → ℕ → Fwft → Fwft
fwft_clear_config_lock h feature st =
    unlocked feature st (fwft_get_feature h feature (get_feature_config feature st.configs))
