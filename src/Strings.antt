-- ===== src/Strings.antt =====
-- The memory and string routines of libc/string and of kernel/init/init/kutils.c. Memory is a
-- store of bytes by address, and an object does not wrap around the address space. A loop over a
-- string takes fuel and is `none` when that runs out; loops with a count are recursion on it.
pub mod Copy
pub mod Text
pub mod Compare
mod Tests
use missy_kernel.Base.{
  ℕ, zero, suc, ◌+◌, ◌-◌, ◌^◌, Store, write, u8, sub32, ltb, ◌==◌, ◌&&◌, ◌||◌, not, if◌then◌else◌,
  Option, none, some,
}

-- `while (count > 0) *dest++ = (char) initial`, the memory afterwards.
unfoldable pub memset : Store → ℕ → ℕ → ℕ → Store
memset m dest initial zero = m
memset m dest initial (suc count) = memset (write m dest (u8 initial)) (dest + 1) initial count

unfoldable pub memcpy : Store → ℕ → ℕ → ℕ → Store
memcpy m dst src zero = m
memcpy m dst src (suc len) = memcpy (write m dst (m src)) (dst + 1) (src + 1) len

-- The loop of `ki_memset` from index `i` on, with `n` rounds left.
unfoldable pub ki_memset_loop : Store → ℕ → ℕ → ℕ → ℕ → Store
ki_memset_loop m dst c i zero = m
ki_memset_loop m dst c i (suc n) = ki_memset_loop (write m (dst + i) (u8 c)) dst c (i + 1) n

unfoldable pub ki_memset : Store → ℕ → ℕ → ℕ → Store
ki_memset m dst c count = ki_memset_loop m dst c 0 count

-- The loop of `ki_memcpy` from index `i` on, with `n` rounds left.
unfoldable pub ki_memcpy_loop : Store → ℕ → ℕ → ℕ → ℕ → Store
ki_memcpy_loop m dst src i zero = m
ki_memcpy_loop m dst src i (suc n) =
    ki_memcpy_loop (write m (dst + i) (m (src + i))) dst src (i + 1) n

unfoldable pub ki_memcpy : Store → ℕ → ℕ → ℕ → Store
ki_memcpy m dst src count = ki_memcpy_loop m dst src 0 count

unfoldable pub strcpy : ℕ → Store → ℕ → ℕ → Option Store
strcpy zero m dst src = none
strcpy (suc fuel) m dst src =
    let rest = strcpy fuel (write m dst (m src)) (dst + 1) (src + 1) in
    if m src == 0 then some m else rest

unfoldable pub strncpy : Store → ℕ → ℕ → ℕ → Store
strncpy m dst src zero = m
strncpy m dst src (suc length) = strncpy (write m dst (m src)) (dst + 1) (src + 1) length

-- `while (*s2++)`: the pointer afterwards.
unfoldable pub skip_string : ℕ → Store → ℕ → Option ℕ
skip_string zero m s = none
skip_string (suc fuel) m s =
    let rest = skip_string fuel m (s + 1) in if m s == 0 then some (s + 1) else rest

unfoldable pub strlen : ℕ → Store → ℕ → Option ℕ
unfolding skip_string
strlen fuel m str = elim (skip_string fuel m str) [ none ↦ none | some s ↦ some (s - str - 1) ]

unfoldable pub ki_strlen : ℕ → Store → ℕ → Option ℕ
ki_strlen fuel m str = elim (skip_string fuel m str) [ none ↦ none | some s ↦ some (s - str - 1) ]

-- A `char` as an `int` of 32 bits: the type is signed on i386.
abbrev pub char_int : ℕ → ℕ
char_int x = if ltb x 128 then x else x + 2 ^ 32 - 256

-- `(int)(*p - *q)`
abbrev pub char_diff : Store → ℕ → ℕ → ℕ
char_diff m p q = sub32 (char_int (m p)) (char_int (m q))

-- The loop does not decrease `len`.
unfoldable pub memcmp : ℕ → Store → ℕ → ℕ → ℕ → Option ℕ
memcmp zero m char1 char2 len = none
memcmp (suc fuel) m char1 char2 len =
    let rest = memcmp fuel m (char1 + 1) (char2 + 1) len in
    if ltb 0 len && (m char1 == m char2) then rest else some (char_diff m char1 char2)

unfoldable pub strcmp : ℕ → Store → ℕ → ℕ → Option ℕ
strcmp zero m str1 str2 = none
strcmp (suc fuel) m str1 str2 =
    let rest = strcmp fuel m (str1 + 1) (str2 + 1) in
    if not (m str1 == 0) && not (m str2 == 0) && (m str1 == m str2)
    then rest
    else some (char_diff m str1 str2)

unfoldable pub strncmp : Store → ℕ → ℕ → ℕ → ℕ
strncmp m str1 str2 zero = char_diff m str1 str2
strncmp m str1 str2 (suc length) =
    let rest = strncmp m (str1 + 1) (str2 + 1) length in
    if not (m str1 == 0) && not (m str2 == 0) && (m str1 == m str2)
    then rest
    else char_diff m str1 str2
