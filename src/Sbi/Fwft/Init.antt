-- ===== src/Sbi/Fwft/Init.antt =====
-- OS_Spring_2026/course_3/opensbi/lib/sbi/sbi_fwft.c: sbi_fwft_init, when a hart boots or starts again.
use inside_system.Prelude.{
  ◌≡◌, refl, ℕ, Bool, true, false, List, [], ◌∷◌, Option, none, some, map, if◌then◌else◌,
}
use inside_system.Sbi.Status.{Status, Status.enomem, ok}
use inside_system.Sbi.Fwft.Csr.{Csrs, Hart}
use inside_system.Sbi.Fwft.{Config, Fwft, find_config, put_flags, fwft_clear_config_lock}

-- `features[]`, the column `id`
abbrev feature_ids : List ℕ
feature_ids = 0 ∷ 1 ∷ 2 ∷ 3 ∷ 4 ∷ 5 ∷ []

abbrev fresh_config : ℕ → Config
fresh_config id = record { id = id; flags = 0 }

abbrev clear_locks : Hart → List ℕ → Fwft → Fwft
clear_locks h [] st = st
clear_locks h (id ∷ ids) st = clear_locks h ids (fwft_clear_config_lock h id st)

-- With the state of the hart, or with none, where `room` says whether `sbi_zalloc` has memory.
abbrev init_state : Hart → Csrs → Bool → Option (List Config) → Status × Option Fwft
init_state h c room (some configs) =
    (ok, some (clear_locks h feature_ids (record { csrs = c; configs = configs })))
init_state h c true none = (
  ok,
  some (clear_locks h feature_ids (record { csrs = c; configs = map fresh_config feature_ids })),
)
init_state h c false none = (enomem, none)

-- `sbi_fwft_init`; `offset` says whether `sbi_scratch_alloc_type_offset` gives one.
unfoldable sbi_fwft_init :
    Hart → Csrs → Bool → Bool → Bool → Option (List Config) → Status × Option Fwft
sbi_fwft_init h c cold_boot offset room configs =
    if cold_boot
    then if offset then init_state h c room configs else (enomem, none)
    else init_state h c room configs

abbrev bare : Hart
bare = record {
  has_s = true;
  has_zicfilp = true;
  has_zicfiss = false;
  has_ssdbltrp = false;
  has_svadu = false;
  has_smnpm = false;
  legal_pmm = λ old new. old;
  legal_medeleg = λ old new. new;
}

abbrev csrs : Csrs
csrs = record { medeleg = 0; menvcfg = 4 }

abbrev locked_configs : List Config
locked_configs = record { id = 0; flags = 0 } ∷ record { id = 1; flags = 1 } ∷ []

-- A hart that starts again loses its lock and keeps its registers.
sbi_fwft_init-again : sbi_fwft_init bare csrs false false false (some locked_configs) ≡ (
  ok,
  some (record {
    csrs = csrs;
    configs = record { id = 0; flags = 0 } ∷ record { id = 1; flags = 0 } ∷ [];
  }),
)
unfolding sbi_fwft_init fwft_clear_config_lock find_config put_flags
sbi_fwft_init-again = refl

sbi_fwft_init-no_memory : sbi_fwft_init bare csrs true true false none ≡ (enomem, none)
unfolding sbi_fwft_init
sbi_fwft_init-no_memory = refl
