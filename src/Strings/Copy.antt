-- ===== src/Strings/Copy.antt =====
-- What the copying and filling routines leave in memory, and the length of a string.
use missy_kernel.Base.{
  ℕ, zero, suc, ◌+◌, ◌-◌, ◌≤◌, ◌<◌, ◌≡◌, ◌≢◌, ◌⊎◌, refl, ◌∙◌, ap, arith, Store, write, u8, ◌==◌,
  in_run, if◌then◌else◌, some, true, false,
}
use missy_kernel.Strings.{
  memset, memcpy, ki_memset_loop, ki_memset, ki_memcpy_loop, ki_memcpy, strcpy, skip_string, strlen,
  ki_strlen,
}

-- `n` is the length of the string at `s`.
pub record IsString (m : Store) (s n : ℕ) : Type 0 where
  pub end : m (s + n) ≡ 0
  pub inner : (i : ℕ) → i < n → m (s + i) ≢ 0

pub IsString-tail : {m : Store} {s n : ℕ} → IsString m s (suc n) → IsString m (s + 1) n
IsString-tail {m} {s} {n} h = record {
  end = ap m (omega arith) ∙ h.end;
  inner = λ i l e. h.inner (suc i) (omega arith) (ap m (omega arith) ∙ e);
}

pub IsString-write :
    {m : Store} {s n : ℕ} (a v : ℕ)
    → IsString m s n
    → (a < s) ⊎ (s + n < a)
    → IsString (write m a v) s n
IsString-write {m} {s} {n} a v h o = record {
  end = ground (arith, h.end);
  inner = λ i l. ground (arith, h.inner i l);
}

-- Filling sets the `count` bytes from `dest` on and no others.
pub memset_lem :
    (m : Store) (dest c count a : ℕ)
    → memset m dest c count a ≡ (if in_run dest count a then u8 c else m a)
unfolding memset
memset_lem m dest c zero a = ground arith
memset_lem m dest c (suc count) a =
    memset_lem (write m dest (u8 c)) (dest + 1) c count a ∙ ground arith

-- Where the destination does not start inside the source, the copy has the source's old bytes,
-- and no other byte changes.
pub memcpy_lem :
    (m : Store) (dst src len a : ℕ)
    → (dst ≤ src) ⊎ (src + len ≤ dst)
    → memcpy m dst src len a ≡ (if in_run dst len a then m (src + (a - dst)) else m a)
unfolding memcpy
memcpy_lem m dst src zero a h = ground arith
memcpy_lem m dst src (suc len) a h =
    memcpy_lem (write m dst (m src)) (dst + 1) (src + 1) len a (omega arith) ∙ ground arith

ki_memset_loop_lem :
    (m : Store) (dst c i n : ℕ) → ki_memset_loop m dst c i n ≡ memset m (dst + i) c n
unfolding ki_memset_loop memset
ki_memset_loop_lem m dst c i zero = refl
ki_memset_loop_lem m dst c i (suc n) =
    let next : dst + (i + 1) ≡ dst + i + 1 = omega arith in
    ki_memset_loop_lem (write m (dst + i) (u8 c)) dst c (i + 1) n
    ∙ ap (λ (p : ℕ). memset (write m (dst + i) (u8 c)) p c n) next

ki_memcpy_loop_lem :
    (m : Store) (dst src i n : ℕ) → ki_memcpy_loop m dst src i n ≡ memcpy m (dst + i) (src + i) n
unfolding ki_memcpy_loop memcpy
ki_memcpy_loop_lem m dst src i zero = refl
ki_memcpy_loop_lem m dst src i (suc n) =
    let m₁ = write m (dst + i) (m (src + i)) in
    let d : dst + (i + 1) ≡ dst + i + 1 = omega arith in
    let s : src + (i + 1) ≡ src + i + 1 = omega arith in
    ki_memcpy_loop_lem m₁ dst src (i + 1) n
    ∙ ap (λ (p : ℕ). memcpy m₁ p (src + (i + 1)) n) d
    ∙ ap (λ (p : ℕ). memcpy m₁ (dst + i + 1) p n) s

-- The early kernel's routines, which index, do what the library's, which move pointers, do.
pub ki_memset-memset :
    (m : Store) (dst src c n : ℕ)
    → (ki_memset m dst c n ≡ memset m dst c n) × (ki_memcpy m dst src n ≡ memcpy m dst src n)
unfolding ki_memset ki_memcpy
ki_memset-memset m dst src c n =
    let d : dst + 0 ≡ dst = omega arith in
    let s : src + 0 ≡ src = omega arith in
    (
      ki_memset_loop_lem m dst c 0 n ∙ ap (λ (p : ℕ). memset m p c n) d,
      ki_memcpy_loop_lem m dst src 0 n
          ∙ ap (λ (p : ℕ). memcpy m p (src + 0) n) d
          ∙ ap (λ (p : ℕ). memcpy m dst p n) s,
    )

skip_string_lem :
    (fuel : ℕ) (m : Store) (s n : ℕ)
    → IsString m s n
    → n < fuel
    → skip_string fuel m s ≡ some (s + n + 1)
unfolding skip_string
skip_string_lem zero m s n h f = absurd (omega arith)
skip_string_lem (suc fuel) m s zero h f =
    let e : (m s == 0) ≡ true = ground (arith, h.end) in
    let last : s + 1 ≡ s + 0 + 1 = omega arith in rw e (ap (λ (p : ℕ). some p) last)
skip_string_lem (suc fuel) m s (suc n) h f =
    let e : (m s == 0) ≡ false = ground (arith, h.inner 0 (omega arith)) in
    let tail = IsString-tail h in
    let last : s + 1 + n + 1 ≡ s + suc n + 1 = omega arith in
    rw e (skip_string_lem fuel m (s + 1) n tail (omega arith) ∙ ap (λ (p : ℕ). some p) last)

-- With more fuel than the string is long, both routines return its length.
pub strlen_lem :
    (fuel : ℕ) (m : Store) (s n : ℕ)
    → IsString m s n
    → n < fuel
    → (strlen fuel m s ≡ some n) × (ki_strlen fuel m s ≡ some n)
unfolding strlen ki_strlen
strlen_lem fuel m s n h f =
    let e = skip_string_lem fuel m s n h f in
    let d : s + n + 1 - s - 1 ≡ n = omega arith in
    (rw (e, strlen, d) refl, rw (e, ki_strlen, d) refl)

-- With more fuel than the source is long, and the destination not inside the source, `strcpy`
-- returns, has copied the characters before the terminator, and has changed no other byte, so
-- that it has not written the terminator.
pub strcpy_lem :
    (fuel : ℕ) (m : Store) (dst src n : ℕ)
    → IsString m src n
    → n < fuel
    → (dst ≤ src) ⊎ (src + n < dst)
    → (m' : Store) × (strcpy fuel m dst src ≡ some m')
      × ((a : ℕ) → m' a ≡ (if in_run dst n a then m (src + (a - dst)) else m a))
unfolding strcpy
strcpy_lem zero m dst src n h f o = absurd (omega arith)
strcpy_lem (suc fuel) m dst src zero h f o =
    let e : (m src == 0) ≡ true = ground (arith, h.end) in (m, rw e refl, λ a. ground arith)
strcpy_lem (suc fuel) m dst src (suc n) h f o =
    let m₁ = write m dst (m src) in
    let e : (m src == 0) ≡ false = ground (arith, h.inner 0 (omega arith)) in
    let tail : IsString m₁ (src + 1) n =
      IsString-write dst (m src) (IsString-tail h) (omega arith) in
    let (m', r, b) = strcpy_lem fuel m₁ (dst + 1) (src + 1) n tail (omega arith) (omega arith) in
    (m', rw e r, λ a. b a ∙ ground arith)
