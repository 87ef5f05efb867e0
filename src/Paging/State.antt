-- ===== src/Paging/State.antt =====
-- What stands in memory after each step of `ki_setup_paging`, and the pages that it holds.
use missy_kernel.Base.{
  ℕ, ◌+◌, ◌*◌, ◌/◌, ◌%◌, ◌≡◌, inl, inr, arith, Bool-cases, ◌==◌, if◌then◌else◌, u32, in_run,
}
use missy_kernel.Bitmap.{block_bit}
use missy_kernel.Kmemlow.{Kmemlow}
use missy_kernel.Kmemlow.Alloc.{IsValid, Granted}
use missy_kernel.Paging.{Paging, entry, kernel_pages}
use missy_kernel.Paging.Pages.{Table, Apart}

-- A page that the allocator has handed out: it will not do so again.
pub record Held (k : Kmemlow) (a : ℕ) : Type 0 where
  pub aligned : a % 4096 ≡ 0
  pub in_use : block_bit k.map (a / 4096) ≡ 1

pub Granted-Held : {k k' : Kmemlow} {a : ℕ} → Granted k a k' → Held k' a
Granted-Held {a} g = record {
  aligned = omega (arith, g.address_of);
  in_use =
      let at : a / 4096 ≡ g.block = omega (arith, g.address_of) in
      ground (arith, g.bits (a / 4096));
}

pub Held-keep : {k k' : Kmemlow} {a b : ℕ} → Granted k b k' → Held k a → Held k' a
Held-keep {a} g h = record {
  aligned = h.aligned;
  in_use = ground (arith, g.bits (a / 4096), h.in_use);
}

-- A page that is handed out overlaps none that is held.
pub Held-Apart : {k k' : Kmemlow} {a b : ℕ} → Granted k b k' → Held k a → Apart b a
Held-Apart {a} g h = elim (Bool-cases (a / 4096 == g.block)) [
  | inl same ↦ absurd (ground (arith, g.was_free, h.in_use))
  | inr other ↦ ground (arith, g.address_of, h.aligned)
]

-- The directory refers to itself from its last entry.
pub record HasDirectory (q : Paging) : Type 0 where
  pub valid : IsValid q.mem
  pub held : Held q.mem q.page_directory
  pub directory :
      Table q.phys q.page_directory (λ j. if j == 1023 then entry q.page_directory else 0)

-- The first megabyte is mapped to itself.
pub record HasMegabyte (q : Paging) : Type 0 where
  pub valid : IsValid q.mem
  pub held : Held q.mem q.page_directory
  pub held_first : Held q.mem q.first_pagetable
  pub directory : Table q.phys q.page_directory (λ j.
      if j == 0 then entry q.first_pagetable else if j == 1023 then entry q.page_directory else 0)
  pub apart : Apart q.page_directory q.first_pagetable
  pub first : Table q.phys q.first_pagetable (λ j. if in_run 0 256 j then entry (4096 * j) else 0)

-- The words of the directory once the kernel's table stands in it.
abbrev pub with_kernel : Paging → ℕ → ℕ
with_kernel q j =
    if j == 768
    then entry q.kernel_pagetable
    else if j == 0
    then entry q.first_pagetable
    else if j == 1023
    then entry q.page_directory
    else 0

-- The kernel image is mapped at 0xc0100000.
pub record HasKernel (q : Paging) : Type 0 where
  pub valid : IsValid q.mem
  pub held : Held q.mem q.page_directory
  pub held_first : Held q.mem q.first_pagetable
  pub held_kernel : Held q.mem q.kernel_pagetable
  pub directory : Table q.phys q.page_directory (with_kernel q)
  pub apart : Apart q.page_directory q.first_pagetable
  pub apart_kernel : Apart q.page_directory q.kernel_pagetable
  pub first : Table q.phys q.first_pagetable (λ j. if in_run 0 256 j then entry (4096 * j) else 0)
  pub kernel :
      Table q.phys q.kernel_pagetable
        (λ j. if in_run 256 (kernel_pages q.kernel_end_virtual) j then entry (4096 * j) else 0)
  pub end_at : q.kernel_end_virtual ≡ u32 (q.mem.kernel_end_physical + 0xc000_0000)

-- The kernel's stack page is mapped just below 0xffc00000.
pub record HasStack (q : Paging) : Type 0 where
  pub block : ℕ
  pub valid : IsValid q.mem
  pub held : Held q.mem q.page_directory
  pub held_first : Held q.mem q.first_pagetable
  pub held_kernel : Held q.mem q.kernel_pagetable
  pub held_map : Held q.mem q.kernel_stack_map
  pub held_block : Held q.mem block
  pub directory :
      Table q.phys q.page_directory
        (λ j. if j == 1022 then entry q.kernel_stack_map else with_kernel q j)
  pub first : Table q.phys q.first_pagetable (λ j. if in_run 0 256 j then entry (4096 * j) else 0)
  pub kernel :
      Table q.phys q.kernel_pagetable
        (λ j. if in_run 256 (kernel_pages q.kernel_end_virtual) j then entry (4096 * j) else 0)
  pub stack : Table q.phys q.kernel_stack_map (λ j. if j == 1023 then entry block else 0)
  pub end_at : q.kernel_end_virtual ≡ u32 (q.mem.kernel_end_physical + 0xc000_0000)

pub Apart-symm : {a b : ℕ} → Apart a b → Apart b a
Apart-symm (inl h) = inr h
Apart-symm (inr h) = inl h
