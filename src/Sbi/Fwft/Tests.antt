-- ===== src/Sbi/Fwft/Tests.antt =====
-- Runs of the firmware features, and their theorems at concrete inputs.
use inside_system.Prelude.{◌≡◌, refl, true, List, [], ◌∷◌, some, arith, if◌then◌else◌, ◌==◌}
use inside_system.Rv32.Words.{clear_bit}
use inside_system.Sbi.Status.{Status.edenied_locked, ok}
use inside_system.Sbi.Fwft.Csr.{Hart, clear_pmm, set_pmm, write_back}
use inside_system.Sbi.Fwft.Pmlen.{fwft_try_to_set_pmm, try_16, try_7, set_pmlen, get_pmlen}
use inside_system.Sbi.Fwft.Kept.{IsLegal}
use inside_system.Sbi.Fwft.Locked.{IsKnown, IsLocked}
use inside_system.Sbi.Fwft.Runs.{Call, Recorded, sbi_fwft_get-set, run, run-IsLocked}
use inside_system.Sbi.Fwft.{
  Fwft, find_config, put_flags, set_feature, get_feature, sbi_fwft_set, sbi_fwft_get,
  fwft_clear_config_lock,
}

-- A hart with each extension, that takes each value but the length 7.
abbrev hart : Hart
hart = record {
  has_s = true;
  has_zicfilp = true;
  has_zicfiss = true;
  has_ssdbltrp = true;
  has_svadu = true;
  has_smnpm = true;
  legal_pmm = λ old new. if new == 2 then 0 else new;
  legal_medeleg = λ old new. new;
}

-- The landing pads are on and locked.
abbrev state : Fwft
state = record {
  csrs = record { medeleg = 0; menvcfg = 4 };
  configs =
      record { id = 0; flags = 0 }
      ∷ record { id = 1; flags = 1 }
      ∷ record { id = 2; flags = 0 }
      ∷ record { id = 3; flags = 0 }
      ∷ record { id = 4; flags = 0 }
      ∷ record { id = 5; flags = 0 }
      ∷ [];
}

state-IsKnown : IsKnown state
unfolding find_config
state-IsKnown k h = ground (arith, h)

hart-IsLegal : IsLegal hart 4
hart-IsLegal = record {
  takes_zero = λ old. refl;
  takes_back = λ old. refl;
  takes_loads = λ old new. refl;
  takes_stores = λ old new. refl;
}

lpad-IsLocked : IsLocked 1 state
unfolding find_config
lpad-IsLocked = record { flags = 1; found = refl; locked = refl }

denied : (sbi_fwft_set hart 1 0 0 state).0 ≡ edenied_locked
unfolding sbi_fwft_set find_config
denied = refl

-- A length of 7 is rounded up to 16.
length_rounded : sbi_fwft_get hart 5 (sbi_fwft_set hart 5 7 0 state).1 ≡ (ok, 16)
unfolding sbi_fwft_set sbi_fwft_get find_config put_flags set_feature get_feature set_pmlen
    get_pmlen try_7 try_16 fwft_try_to_set_pmm set_pmm clear_pmm write_back
length_rounded = refl

free_again : find_config 1 (fwft_clear_config_lock hart 1 state).configs ≡ some 0
unfolding fwft_clear_config_lock find_config put_flags
free_again = refl

set_done : (sbi_fwft_set hart 5 7 1 state).0 ≡ ok
unfolding sbi_fwft_set find_config set_feature set_pmlen try_7 try_16 fwft_try_to_set_pmm set_pmm
    clear_pmm write_back
set_done = refl

sbi_fwft_get-set_example : Recorded hart 5 7 1 state (sbi_fwft_set hart 5 7 1 state).1
sbi_fwft_get-set_example = sbi_fwft_get-set hart 5 7 1 state state-IsKnown hart-IsLegal set_done

abbrev calls : List Call
calls =
    record { feature = 1; value = 0; flags = 0 } ∷ record { feature = 3; value = 1; flags = 1 } ∷ []

run-IsLocked_example :
    (sbi_fwft_get hart 1 (run hart calls state) ≡ sbi_fwft_get hart 1 state)
    × IsLocked 1 (run hart calls state)
run-IsLocked_example = run-IsLocked hart 1 calls state state-IsKnown lpad-IsLocked

-- The same hart, without delegation of misaligned accesses.
abbrev no_delegation : Hart
no_delegation = record hart { legal_medeleg = λ old new. clear_bit (clear_bit new 4) 6 }
