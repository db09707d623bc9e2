-- ===== src/Sbi/Text.antt =====
-- OS_Spring_2026/course_3/opensbi/lib/sbi/sbi_string.c. Memory is a function from the address to the
-- byte; char is unsigned, as on RISC-V. The loops that only a NUL ends run on fuel: `none` is a string
-- longer than the fuel.
pub mod Copy
pub mod Strings
pub mod Tests
use inside_system.Prelude.{
  ℕ, zero, suc, ◌+◌, ◌-◌, ◌%◌, ◌^◌, Option, none, some, ltb, ◌==◌, ◌&&◌, if◌then◌else◌,
}
use inside_system.Rv32.Words.{sub32}
use inside_system.Rv32.State.{update}

abbrev pub Memory : Type 0
Memory = ℕ → ℕ

abbrev pub one_more : Option ℕ → Option ℕ
one_more none = none
one_more (some n) = some (suc n)

-- The results of type int are words of 32 bits.
unfoldable pub sbi_strcmp : ℕ → Memory → ℕ → ℕ → Option ℕ
sbi_strcmp zero m a b = none
sbi_strcmp (suc fuel) m a b =
    let rest = sbi_strcmp fuel m (a + 1) (b + 1) in
    if m a == m b
    then if m a == 0 then some (sub32 (m a) (m b)) else rest
    else some (sub32 (m a) (m b))

unfoldable pub sbi_strncmp : Memory → ℕ → ℕ → ℕ → ℕ
sbi_strncmp m a b zero = 0
sbi_strncmp m a b (suc count) =
    let rest = sbi_strncmp m (a + 1) (b + 1) count in
    if m a == m b then if m a == 0 then sub32 (m a) (m b) else rest else sub32 (m a) (m b)

unfoldable pub sbi_strlen : ℕ → Memory → ℕ → Option ℕ
sbi_strlen zero m str = none
sbi_strlen (suc fuel) m str =
    let rest = sbi_strlen fuel m (str + 1) in if m str == 0 then some 0 else one_more rest

unfoldable pub sbi_strnlen : Memory → ℕ → ℕ → ℕ
sbi_strnlen m str zero = 0
sbi_strnlen m str (suc count) =
    let rest = sbi_strnlen m (str + 1) count in if m str == 0 then 0 else suc rest

-- The memory after the copy.
unfoldable pub sbi_strcpy : ℕ → Memory → ℕ → ℕ → Option Memory
sbi_strcpy zero m dest src = none
sbi_strcpy (suc fuel) m dest src =
    let rest = sbi_strcpy fuel (update m dest (m src)) (dest + 1) (src + 1) in
    if m src == 0 then some m else rest

unfoldable pub sbi_strncpy : Memory → ℕ → ℕ → ℕ → Memory
sbi_strncpy m dest src zero = m
sbi_strncpy m dest src (suc count) =
    let rest = sbi_strncpy (update m dest (m src)) (dest + 1) (src + 1) count in
    if m src == 0 then m else rest

-- `some none` is a return of NULL.
unfoldable pub sbi_strchr : ℕ → Memory → ℕ → ℕ → Option (Option ℕ)
sbi_strchr zero m s c = none
sbi_strchr (suc fuel) m s c =
    let rest = sbi_strchr fuel m (s + 1) c in
    if m s == 0 then some none else if m s == c % 256 then some (some s) else rest

-- `last`, from `s + n` down.
unfoldable pub last_from : Memory → ℕ → ℕ → ℕ → Option ℕ
last_from m s c zero = if m s == c % 256 then some s else none
last_from m s c (suc n) =
    let rest = last_from m s c n in if m (s + suc n) == c % 256 then some (s + suc n) else rest

abbrev pub from_end : Memory → ℕ → ℕ → Option ℕ → Option (Option ℕ)
from_end m s c none = none
from_end m s c (some n) = some (last_from m s c n)

unfoldable pub sbi_strrchr : ℕ → Memory → ℕ → ℕ → Option (Option ℕ)
sbi_strrchr fuel m s c = from_end m s c (sbi_strlen fuel m s)

unfoldable pub sbi_memset : Memory → ℕ → ℕ → ℕ → Memory
sbi_memset m s c zero = m
sbi_memset m s c (suc count) = sbi_memset (update m s (c % 256)) (s + 1) c count

-- The loop of `sbi_memcpy`, and the first one of `sbi_memmove`.
unfoldable pub sbi_memcpy : Memory → ℕ → ℕ → ℕ → Memory
sbi_memcpy m dest src zero = m
sbi_memcpy m dest src (suc count) = sbi_memcpy (update m dest (m src)) (dest + 1) (src + 1) count

-- The second one: the last byte first.
unfoldable pub copy_down : Memory → ℕ → ℕ → ℕ → Memory
copy_down m dest src zero = m
copy_down m dest src (suc count) =
    copy_down (update m (dest + count) (m (src + count))) dest src count

unfoldable pub sbi_memmove : Memory → ℕ → ℕ → ℕ → Memory
sbi_memmove m dest src count =
    if src == dest
    then m
    else if ltb dest src
    then sbi_memcpy m dest src count
    else copy_down m dest src count

unfoldable pub sbi_memcmp : Memory → ℕ → ℕ → ℕ → ℕ
sbi_memcmp m s1 s2 zero = 0
sbi_memcmp m s1 s2 (suc count) =
    let rest = sbi_memcmp m (s1 + 1) (s2 + 1) count in
    if m s1 == m s2 then rest else sub32 (m s1) (m s2)

unfoldable pub sbi_memchr : Memory → ℕ → ℕ → ℕ → Option ℕ
sbi_memchr m s c zero = none
sbi_memchr m s c (suc count) =
    let rest = sbi_memchr m (s + 1) c count in if c % 256 == m s then some s else rest
