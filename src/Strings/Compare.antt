-- ===== src/Strings/Compare.antt =====
-- What the comparing routines return.
use missy_kernel.Base.{
  ℕ, zero, suc, ◌+◌, ◌<◌, ◌≡◌, ◌≢◌, ◌↔◌, inl, inr, refl, ◌∙◌, sym, ap, arith, Store, ltb, ◌==◌,
  ◌&&◌, ◌||◌, not, some, Bool, Bool-cases, true, false,
}
use missy_kernel.Strings.{char_diff, memcmp, strcmp, strncmp}
use missy_kernel.Strings.Copy.{IsString, IsString-tail}

-- Memory holds bytes.
abbrev pub IsBytes : Store → Type 0
IsBytes m = (i : ℕ) → m i < 256

char_diff_lem : (m : Store) (p q : ℕ) → IsBytes m → (char_diff m p q ≡ 0) ↔ (m p ≡ m q)
char_diff_lem m p q b = ground (arith, b p, b q)

-- The strings of lengths `a` and `b` have the same characters.
pub record SameString (m : Store) (s t a b : ℕ) : Type 0 where
  pub len : a ≡ b
  pub chars : (i : ℕ) → i < a → m (s + i) ≡ m (t + i)

-- The loop of `strcmp` goes on.
abbrev goes_on : Store → ℕ → ℕ → Bool
goes_on m s t = not (m s == 0) && not (m t == 0) && (m s == m t)

same_from :
    (m : Store) (s t a : ℕ)
    → m s ≡ m t
    → ((i : ℕ) → i < a → m (s + 1 + i) ≡ m (t + 1 + i))
    → (i : ℕ) → i < suc a
    → m (s + i) ≡ m (t + i)
same_from m s t a e h zero l = ap m (omega arith) ∙ e ∙ ap m (omega arith)
same_from m s t a e h (suc i) l = ap m (omega arith) ∙ h i (omega arith) ∙ ap m (omega arith)

SameString-suc :
    {m : Store} {s t a b : ℕ}
    → m s ≡ m t
    → SameString m (s + 1) (t + 1) a b ↔ SameString m s t (suc a) (suc b)
SameString-suc {m} {s} {t} {a} {b} e = (
  λ q. record { len = ap (λ (n : ℕ). suc n) q.len; chars = same_from m s t a e q.chars },
  λ q. record {
    len = omega (arith, q.len);
    chars = λ i l. ap m (omega arith) ∙ q.chars (suc i) (omega arith) ∙ ap m (omega arith);
  },
)

-- The first characters of two strings that are the same.
first_same : {m : Store} {s t a b : ℕ} → SameString m s t (suc a) b → m s ≡ m t
first_same {m} q = ap m (omega arith) ∙ q.chars 0 (omega arith) ∙ ap m (omega arith)

-- In a memory of bytes, with more fuel than the first string is long, `strcmp` returns, and it returns 0 exactly for
-- equal strings.
pub strcmp_lem :
    (fuel : ℕ) (m : Store) (s t a b : ℕ)
    → IsBytes m
    → IsString m s a
    → IsString m t b
    → a < fuel
    → (r : ℕ) × (strcmp fuel m s t ≡ some r) × ((r ≡ 0) ↔ SameString m s t a b)
unfolding strcmp
strcmp_lem zero m s t a b y h k f = absurd (omega arith)
strcmp_lem (suc fuel) m s t zero zero y h k f =
    let d = char_diff_lem m s t y in
    let e : goes_on m s t ≡ false = ground (arith, h.end) in
    let z : m s ≡ m t = ground (arith, h.end, k.end) in
    (
      char_diff m s t,
      rw e refl,
      (λ _. record { len = refl; chars = λ i l. absurd (omega arith) }, λ q. d.1 z),
    )
strcmp_lem (suc fuel) m s t zero (suc b) y h k f =
    let d = char_diff_lem m s t y in
    let e : goes_on m s t ≡ false = ground (arith, h.end) in
    let z : m s ≢ m t = λ q. k.inner 0 (omega arith) (ground (arith, h.end)) in
    (char_diff m s t, rw e refl, (λ r. absurd (z (d.0 r)), λ q. absurd (omega (arith, q.len))))
strcmp_lem (suc fuel) m s t (suc a) zero y h k f =
    let d = char_diff_lem m s t y in
    let e : goes_on m s t ≡ false = ground (arith, k.end) in
    let z : m s ≢ m t = λ q. h.inner 0 (omega arith) (ground (arith, k.end)) in
    (char_diff m s t, rw e refl, (λ r. absurd (z (d.0 r)), λ q. absurd (omega (arith, q.len))))
strcmp_lem (suc fuel) m s t (suc a) (suc b) y h k f = elim (Bool-cases (m s == m t)) [
  | inl same ↦
      let z : m s ≡ m t = ground (arith, same) in
      let e : goes_on m s t ≡ true = ground (arith, same, h.inner 0, k.inner 0) in
      let (r, p, q) =
        strcmp_lem fuel m (s + 1) (t + 1) a b y (IsString-tail h) (IsString-tail k) (omega arith) in
      let c = SameString-suc z in (r, rw e p, (λ o. c.0 (q.0 o), λ o. q.1 (c.1 o)))
  | inr other ↦
      let d = char_diff_lem m s t y in
      let z : m s ≢ m t = ground (arith, other) in
      let e : goes_on m s t ≡ false = ground (arith, other) in
      (char_diff m s t, rw e refl, (λ r. absurd (z (d.0 r)), λ q. absurd (z (first_same q))))
]

-- The first `n` characters agree, or the strings end earlier and agree until then.
abbrev pub agree : ℕ → Store → ℕ → ℕ → Bool
agree zero m s t = true
agree (suc n) m s t = (m s == m t) && ((m s == 0) || agree n m (s + 1) (t + 1))

-- In a memory of bytes `strncmp` returns 0 exactly if the strings agree in one character more than the length that it
-- is given, or end earlier and agree until then.
pub strncmp_lem :
    (length : ℕ) (m : Store) (s t : ℕ)
    → IsBytes m
    → (strncmp m s t length ≡ 0) ↔ (agree (suc length) m s t ≡ true)
unfolding strncmp
strncmp_lem zero m s t y = let d = char_diff_lem m s t y in ground (arith, d)
strncmp_lem (suc length) m s t y = elim (Bool-cases (goes_on m s t)) [
  | inl e ↦
      let rest = strncmp_lem length m (s + 1) (t + 1) y in
      let a : agree (suc (suc length)) m s t ≡ agree (suc length) m (s + 1) (t + 1) =
        ground (arith, e) in
      rw (e, a) rest
  | inr e ↦
      let d = char_diff_lem m s t y in
      let a : (agree (suc (suc length)) m s t ≡ true) ↔ (m s ≡ m t) = ground (arith, e) in
      rw e (λ z. a.1 (d.0 z), λ z. d.1 (a.0 z))
]

-- With a length above 0 `memcmp` returns the difference of the first bytes that differ, however
-- far they are behind the length, with more fuel than the bytes before them.
pub memcmp_lem :
    (fuel : ℕ) (m : Store) (s t len k : ℕ)
    → 0 < len
    → ((i : ℕ) → i < k → m (s + i) ≡ m (t + i))
    → m (s + k) ≢ m (t + k)
    → k < fuel
    → memcmp fuel m s t len ≡ some (char_diff m (s + k) (t + k))
unfolding memcmp
memcmp_lem zero m s t len k l h n f = absurd (omega arith)
memcmp_lem (suc fuel) m s t len zero l h n f =
    let p : m (s + 0) ≡ m s = ap m (omega arith) in
    let q : m (t + 0) ≡ m t = ap m (omega arith) in
    let e : (ltb 0 len && (m s == m t)) ≡ false = ground (arith, n) in rw (p, q, e) refl
memcmp_lem (suc fuel) m s t len (suc k) l h n f =
    let p : m (s + suc k) ≡ m (s + 1 + k) = ap m (omega arith) in
    let q : m (t + suc k) ≡ m (t + 1 + k) = ap m (omega arith) in
    let z : m s ≡ m t = ap m (omega arith) ∙ h 0 (omega arith) ∙ ap m (omega arith) in
    let e : (ltb 0 len && (m s == m t)) ≡ true = ground (arith, z) in
    let rest =
      memcmp_lem fuel m (s + 1) (t + 1) len k l
        (λ i b. ap m (omega arith) ∙ h (suc i) (omega arith) ∙ ap m (omega arith))
        (λ r. n (p ∙ r ∙ sym q)) (omega arith) in
    rw (e, p, q) rest
