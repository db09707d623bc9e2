-- ===== src/Sbi/Status.antt =====
-- The results of the functions that return an int: OS_Spring_2026/course_3/opensbi/include/sbi/
-- sbi_error.h, the codes that the modelled functions give.
use inside_system.Prelude.{ℕ}

-- `code n` is a return of n ≥ 0, with 0 for SBI_OK.
pub data Status : Type 0 where
  code : ℕ → Status
  efail enotsupp einval einvalid_addr ealready enospc enomem enoent edenied edenied_locked : Status

abbrev pub ok : Status
ok = code 0
