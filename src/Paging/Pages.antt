-- ===== src/Paging/Pages.antt =====
-- Tables of 1024 words: what the writes of paging.c do to the table they go to, and to others.
use missy_kernel.Base.{
  ℕ, zero, suc, ◌+◌, ◌-◌, ◌*◌, ◌/◌, ◌%◌, ◌^◌, ◌≤◌, ◌<◌, ◌≡◌, ◌⊎◌, inr, refl, ◌∙◌, arith, Store,
  ◌==◌, if◌then◌else◌, in_run,
}
use missy_kernel.Base.Masks.{bit_and_mask}
use missy_kernel.Paging.{
  store, zero_words, clear_page, identity_loop, kernel_loop, entry, ptable_entry,
}

-- `f` gives the 1024 words of the table at `t`.
pub record Table (m : Store) (t : ℕ) (f : ℕ → ℕ) : Type 0 where
  pub at : (j : ℕ) → j < 1024 → m (t + 4 * j) ≡ f j

-- Two pages that do not overlap.
abbrev pub Apart : ℕ → ℕ → Type 0
Apart p q = (p + 4096 ≤ q) ⊎ (q + 4096 ≤ p)

pub ptable_entry_lem : (x : ℕ) → ptable_entry x ≡ x % 2 ^ 22 / 4096
unfolding ptable_entry
ptable_entry_lem x = omega (arith, bit_and_mask 22 x)

zero_words-in :
    (n t i : ℕ) (m : Store) (j : ℕ)
    → (m (t + 4 * j) ≡ 0) ⊎ (i ≤ j)
    → j < i + n
    → zero_words n t i m (t + 4 * j) ≡ 0
unfolding zero_words
zero_words-in zero t i m j p h = ground arith
zero_words-in (suc n) t i m j p h =
    zero_words-in n t (i + 1) (store m t i 0) j (ground arith) (omega arith)

zero_words-out :
    (n t i : ℕ) (m : Store) (a : ℕ)
    → (a < t + 4 * i) ⊎ (t + 4 * (i + n) ≤ a)
    → zero_words n t i m a ≡ m a
unfolding zero_words
zero_words-out zero t i m a h = refl
zero_words-out (suc n) t i m a h =
    zero_words-out n t (i + 1) (store m t i 0) a (omega arith) ∙ ground arith

pub clear_page-Table : (t : ℕ) (m : Store) → Table (clear_page t m) t (λ _. 0)
unfolding clear_page
clear_page-Table t m = record {
  at = λ j h. zero_words-in 1024 t 0 m j (inr (omega arith)) (omega arith);
}

module _ {m : Store} {q : ℕ} {f : ℕ → ℕ} where
  pub clear_page-frame : (t : ℕ) → Apart t q → Table m q f → Table (clear_page t m) q f
  unfolding clear_page
  clear_page-frame t apart table = record {
    at = λ j h. zero_words-out 1024 t 0 m (q + 4 * j) (omega arith) ∙ table.at j h;
  }

  pub store-frame : (t i v : ℕ) → Apart t q → i < 1024 → Table m q f → Table (store m t i v) q f
  store-frame t i v apart hi table = record { at = λ j h. ground (arith, table.at j h) }

  pub store-Table :
      (i v : ℕ) → Table m q f → Table (store m q i v) q (λ j. if j == i then v else f j)
  store-Table i v table = record { at = λ j h. ground (arith, table.at j h) }

  pub Table-ext : {g : ℕ → ℕ} → ((j : ℕ) → j < 1024 → f j ≡ g j) → Table m q f → Table m q g
  Table-ext same table = record { at = λ j h. table.at j h ∙ same j h }

pub identity_loop-Table :
    (n t i a : ℕ) {m : Store} {f : ℕ → ℕ}
    → a ≡ 4096 * i
    → i + n ≤ 1024
    → Table m t f
    → Table (identity_loop n t a m) t (λ j. if in_run i n j then entry (4096 * j) else f j)
unfolding identity_loop
identity_loop-Table zero t i a e h table = Table-ext (λ j k. ground arith) table
identity_loop-Table (suc n) t i a e h table =
    let at : ptable_entry a ≡ i = omega (arith, ptable_entry_lem a) in
    Table-ext (λ j k. ground (arith, at))
      (identity_loop-Table n t (i + 1) (a + 4096) (omega arith) (omega arith)
        (store-Table (ptable_entry a) (entry a) table))

pub identity_loop-frame :
    (n t i a : ℕ) {m : Store} {q : ℕ} {f : ℕ → ℕ}
    → a ≡ 4096 * i
    → i + n ≤ 1024
    → Apart t q
    → Table m q f
    → Table (identity_loop n t a m) q f
unfolding identity_loop
identity_loop-frame zero t i a e h apart table = table
identity_loop-frame (suc n) t i a e h apart table =
    identity_loop-frame n t (i + 1) (a + 4096) (omega arith) (omega arith) apart
      (store-frame t (ptable_entry a) (entry a) apart (omega (arith, ptable_entry_lem a)) table)

-- The kernel's loop stays in its table as long as the image does not reach 0xc0400000.
pub kernel_loop-Table :
    (n t i a : ℕ) {m : Store} {f : ℕ → ℕ}
    → a ≡ 0xc000_0000 + 4096 * i
    → i + n ≤ 1024
    → Table m t f
    → Table (kernel_loop n t a m) t (λ j. if in_run i n j then entry (4096 * j) else f j)
unfolding kernel_loop
kernel_loop-Table zero t i a e h table = Table-ext (λ j k. ground arith) table
kernel_loop-Table (suc n) t i a e h table =
    let at : ptable_entry a ≡ i = omega (arith, ptable_entry_lem a) in
    let low : a - 0xc000_0000 ≡ 4096 * i = omega arith in
    Table-ext (λ j k. ground (arith, at, low))
      (kernel_loop-Table n t (i + 1) (a + 4096) (omega arith) (omega arith)
        (store-Table (ptable_entry a) (entry (a - 0xc000_0000)) table))

pub kernel_loop-frame :
    (n t i a : ℕ) {m : Store} {q : ℕ} {f : ℕ → ℕ}
    → a ≡ 0xc000_0000 + 4096 * i
    → i + n ≤ 1024
    → Apart t q
    → Table m q f
    → Table (kernel_loop n t a m) q f
unfolding kernel_loop
kernel_loop-frame zero t i a e h apart table = table
kernel_loop-frame (suc n) t i a e h apart table =
    kernel_loop-frame n t (i + 1) (a + 4096) (omega arith) (omega arith) apart (
      store-frame t (ptable_entry a) (entry (a - 0xc000_0000)) apart
        (omega (arith, ptable_entry_lem a)) table)
