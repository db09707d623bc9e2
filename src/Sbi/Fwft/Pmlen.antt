-- ===== src/Sbi/Fwft/Pmlen.antt =====
-- `fwft_set_pmlen` and `fwft_get_pmlen` of sbi_fwft.c.
use inside_system.Prelude.{ℕ, Bool, ltb, leb, ◌==◌, if◌then◌else◌}
use inside_system.Sbi.Status.{Status, Status.efail, Status.einval, ok}
use inside_system.Sbi.Fwft.Csr.{Hart, pmm, clear_pmm, set_pmm, write_back}

-- `ENVCFG_PMM_PMLEN_7`, `ENVCFG_PMM_PMLEN_16`
abbrev pub pmlen_7 : ℕ
pmlen_7 = 2

abbrev pub pmlen_16 : ℕ
pmlen_16 = 3

-- `fwft_try_to_set_pmm`: menvcfg, and whether the field reads back.
unfoldable pub fwft_try_to_set_pmm : Hart → ℕ → ℕ → ℕ × Bool
unfolding set_pmm
fwft_try_to_set_pmm h m p = let m' = set_pmm h m p in (m', pmm m' == p)

-- From the try of 16 on.
unfoldable pub try_16 : Hart → ℕ → ℕ → Status × ℕ
unfolding fwft_try_to_set_pmm write_back
try_16 h prev m =
    let (m', done) = fwft_try_to_set_pmm h m pmlen_16 in
    if done then (ok, m') else (einval, write_back h m' prev)

unfoldable pub try_7 : Hart → ℕ → ℕ → Status × ℕ
unfolding fwft_try_to_set_pmm try_16 clear_pmm
try_7 h prev m =
    let (m', done) = fwft_try_to_set_pmm h m pmlen_7 in
    if done then (ok, m') else try_16 h prev (clear_pmm h m')

-- `fwft_set_pmlen`: the result, and menvcfg.
unfoldable pub set_pmlen : Hart → ℕ → ℕ → Status × ℕ
unfolding try_7 try_16 clear_pmm
set_pmlen h m value =
    if ltb 16 value
    then (einval, m)
    else if value == 0
    then (ok, clear_pmm h m)
    else if leb value 7
    then try_7 h m (clear_pmm h m)
    else try_16 h m (clear_pmm h m)

-- `fwft_get_pmlen`: the result, and `*value` where it is written, 0 elsewhere.
unfoldable pub get_pmlen : ℕ → Status × ℕ
get_pmlen m =
    if pmm m == 0
    then (ok, 0)
    else if pmm m == pmlen_7
    then (ok, 7)
    else if pmm m == pmlen_16
    then (ok, 16)
    else (efail, 0)
