-- ===== src/Sbi/Text/Strings.antt =====
-- The calls of sbi_string.c that measure and compare.
use inside_system.Prelude.{
  ℕ, zero, suc, ◌+◌, ◌<◌, ◌≡◌, ◌↔◌, refl, some, true, false, arith, ltb, ◌==◌, if◌then◌else◌,
}
use inside_system.Sbi.Text.{Memory, sbi_strlen, sbi_strnlen, sbi_memcmp}
use inside_system.Sbi.Text.Copy.{IsText}

IsText-tail : (m : Memory) (s n : ℕ) → IsText m s (suc n) → IsText m (s + 1) n
IsText-tail m s n t = record {
  bytes = λ i b. ground (arith, t.bytes (suc i) (omega (arith, b)));
  ends = ground (arith, t.ends);
}

strlen_of : (m : Memory) (k a j : ℕ) → j < k → IsText m a j → sbi_strlen k m a ≡ some j
unfolding sbi_strlen
strlen_of m zero a j h t = absurd (omega arith)
strlen_of m (suc k) a zero h t = let nul : (m a == 0) ≡ true = ground (arith, t.ends) in rw nul refl
strlen_of m (suc k) a (suc j) h t =
    let byte : (m a == 0) ≡ false = ground (arith, t.bytes 0 (omega arith)) in
    rw (byte, strlen_of m k (a + 1) j (omega arith) (IsText-tail m a j t)) refl

strnlen_of :
    (m : Memory) (k a j : ℕ) → IsText m a j → sbi_strnlen m a k ≡ (if ltb j k then j else k)
unfolding sbi_strnlen
strnlen_of m zero a j t = ground arith
strnlen_of m (suc k) a zero t =
    let nul : (m a == 0) ≡ true = ground (arith, t.ends) in rw nul (ground arith)
strnlen_of m (suc k) a (suc j) t =
    let byte : (m a == 0) ≡ false = ground (arith, t.bytes 0 (omega arith)) in
    rw byte (ground (arith, strnlen_of m k (a + 1) j (IsText-tail m a j t)))

same_bytes :
    (m : Memory) (a b n : ℕ)
    → ((x : ℕ) → m x < 256)
    → sbi_memcmp m a b n ≡ 0
    → (i : ℕ) → i < n
    → m (a + i) ≡ m (b + i)
unfolding sbi_memcmp
same_bytes m a b zero h e i l = absurd (omega arith)
same_bytes m a b (suc n) h e zero l = ground (arith, h a, h b, e)
same_bytes m a b (suc n) h e (suc i) l =
    let first : (m a == m b) ≡ true = ground (arith, h a, h b, e) in
    let rest = same_bytes m (a + 1) (b + 1) n h (rw first at e) i (omega (arith, l)) in
    ground (arith, rest)

zero_of :
    (m : Memory) (a b n : ℕ) → ((i : ℕ) → i < n → m (a + i) ≡ m (b + i)) → sbi_memcmp m a b n ≡ 0
unfolding sbi_memcmp
zero_of m a b zero h = refl
zero_of m a b (suc n) h =
    let first : (m a == m b) ≡ true = ground (arith, h 0 (omega arith)) in
    rw first (zero_of m (a + 1) (b + 1) n (λ i l. ground (arith, h (suc i) (omega (arith, l)))))

-- Of a text of `n` bytes, `sbi_strlen` gives `n` with any fuel above `n`, and `sbi_strnlen` the
-- smaller of `n` and its bound.
sbi_strlen-text :
    (fuel count : ℕ) (m : Memory) (s n : ℕ)
    → n < fuel
    → IsText m s n
    → (sbi_strlen fuel m s ≡ some n) × (sbi_strnlen m s count ≡ (if ltb n count then n else count))
sbi_strlen-text fuel count m s n small t = (strlen_of m fuel s n small t, strnlen_of m count s n t)

-- On a memory of bytes, `sbi_memcmp` gives 0 just when the `n` bytes at the one address are those at
-- the other.
sbi_memcmp-zero :
    (m : Memory) (a b n : ℕ)
    → ((x : ℕ) → m x < 256)
    → (sbi_memcmp m a b n ≡ 0) ↔ ((i : ℕ) → i < n → m (a + i) ≡ m (b + i))
sbi_memcmp-zero m a b n h = (same_bytes m a b n h, zero_of m a b n)
