-- ===== src/Rv32/Bytes/RoundTrip.antt =====
-- What is read back from memory after a write.
use inside_system.Prelude.{ℕ, ◌+◌, ◌%◌, ◌^◌, ◌≤◌, ◌<◌, ◌≡◌, ◌≢◌, ◌⊎◌, arith}
use inside_system.Rv32.Bytes.{load16, load32, store8, store16, store32}

-- A word that is stored is read back, at every address.
load32-store32 : (m : ℕ → ℕ) (a v : ℕ) → load32 (store32 m a v) a ≡ v % 2 ^ 32
unfolding load32 store32
load32-store32 m a v = ground arith

pub load16-store16 : (m : ℕ → ℕ) (a v : ℕ) → load16 (store16 m a v) a ≡ v % 2 ^ 16
unfolding load16 store16
load16-store16 m a v = ground arith

-- A store writes only the bytes of its width.
pub store32_rest : (m : ℕ → ℕ) (a v i : ℕ) → (i < a) ⊎ (a + 4 ≤ i) → store32 m a v i ≡ m i
unfolding store32
store32_rest m a v i h = ground arith

pub store16_rest : (m : ℕ → ℕ) (a v i : ℕ) → (i < a) ⊎ (a + 2 ≤ i) → store16 m a v i ≡ m i
unfolding store16
store16_rest m a v i h = ground arith

pub store8_rest : (m : ℕ → ℕ) (a v i : ℕ) → i ≢ a → store8 m a v i ≡ m i
unfolding store8
store8_rest m a v i h = ground arith
