-- ===== src/Paging/Setup.antt =====
-- `ki_setup_paging`: what the tables translate once it has returned 0.
use missy_kernel.Base.{
  ℕ, ◌+◌, ◌-◌, ◌*◌, ◌/◌, ◌^◌, ◌≤◌, ◌<◌, ◌≡◌, refl, sym, arith, true, some, if◌then◌else◌, in_run,
}
use missy_kernel.Kmemlow.Alloc.{IsValid}
use missy_kernel.Paging.{
  Paging, out_of_memory, Status, success, failure, entry, ki_setup_paging, kernel_pages,
  create_page_directory, map_first_megabyte, map_kernel, create_new_kernel_stack, ◌>>=◌,
}
use missy_kernel.Paging.Walk.{walk, walk_at, frame_of, frame_of-entry}
use missy_kernel.Paging.State.{Held, HasDirectory, HasMegabyte, HasKernel, HasStack}
use missy_kernel.Paging.Steps.{create_page_directory_lem, map_first_megabyte_lem}
use missy_kernel.Paging.Upper.{map_kernel_lem, create_new_kernel_stack_lem}

-- What the processor finds through the directory of `q`.
pub record Mapped (q : Paging) : Type 0 where
  pub identity : (v : ℕ) → v < 0x10_0000 → walk q.phys q.page_directory v ≡ some v
  pub image :
      (v : ℕ)
      → 0xc010_0000 ≤ v
      → v < q.kernel_end_virtual
      → walk q.phys q.page_directory v ≡ some (v - 0xc000_0000)
  pub stack_page : ℕ
  pub stack_held : Held q.mem stack_page
  pub stack :
      (v : ℕ)
      → 0xffbf_f000 ≤ v
      → v < 0xffc0_0000
      → walk q.phys q.page_directory v ≡ some (stack_page + (v - 0xffbf_f000))
  -- The last 4 KiB of the address space are the directory itself.
  pub itself :
      (v : ℕ)
      → 0xffff_f000 ≤ v
      → v < 2 ^ 32
      → walk q.phys q.page_directory v ≡ some (q.page_directory + (v - 0xffff_f000))

-- An entry of a run of pages mapped in order.
run-frame :
    (first n j : ℕ)
    → in_run first n j ≡ true
    → frame_of (if in_run first n j then entry (4096 * j) else 0) ≡ some (4096 * j)
run-frame first n j h = rw h (frame_of-entry (4096 * j) (omega arith))

HasStack-Mapped : (q : Paging) → HasStack q → q.kernel_end_virtual ≤ 0xc040_0000 → Mapped q
unfolding kernel_pages
HasStack-Mapped q h below = record {
  identity = λ v k.
      walk_at v 0 (v / 4096) (4096 * (v / 4096)) v h.directory h.first (omega arith) (omega arith)
        (omega arith) (frame_of-entry q.first_pagetable h.held_first.aligned)
        (run-frame 0 256 (v / 4096) (ground arith)) (omega arith);
  image = λ v lo hi.
      let j = (v - 0xc000_0000) / 4096 in
      walk_at v 768 j (4096 * j) (v - 0xc000_0000) h.directory h.kernel (omega arith) (omega arith)
        (omega arith) (frame_of-entry q.kernel_pagetable h.held_kernel.aligned)
        (run-frame 256 (kernel_pages q.kernel_end_virtual) j (ground arith)) (omega arith);
  stack_page = h.block;
  stack_held = h.held_block;
  stack = λ v lo hi.
      walk_at v 1022 1023 h.block (h.block + (v - 0xffbf_f000)) h.directory h.stack (omega arith)
        (omega arith) (omega arith) (frame_of-entry q.kernel_stack_map h.held_map.aligned)
        (frame_of-entry h.block h.held_block.aligned) (omega arith);
  itself = λ v lo hi.
      walk_at v 1023 1023 q.page_directory (q.page_directory + (v - 0xffff_f000)) h.directory
        h.directory (omega arith) (omega arith) (omega arith)
        (frame_of-entry q.page_directory h.held.aligned)
        (frame_of-entry q.page_directory h.held.aligned) (omega arith);
}

-- What holds after a chain that ends in success.
bind-success :
    (A B : Paging → Type 0) (r : Status × Paging) (k : Paging → Status × Paging)
    → (r.0 ≡ success → A r.1)
    → ((q : Paging) → A q → (k q).0 ≡ success → B (k q).1)
    → (r >>= k).0 ≡ success
    → B (r >>= k).1
bind-success A B (success, q) k before step e = step q (before refl) e
bind-success A B (failure, q) k before step e = absurd (cc)

stack-same_end :
    (q : Paging) → (create_new_kernel_stack q).1.kernel_end_virtual ≡ q.kernel_end_virtual
unfolding create_new_kernel_stack out_of_memory
stack-same_end q = ground arith

abbrev Below : Paging → Type 0
Below q = q.kernel_end_virtual ≤ 0xc040_0000

module _ (p : Paging) where
  -- Where `ki_setup_paging` returns 0 and the image ends at or below 0xc0400000, the first megabyte
  -- translates to itself, the image to its load addresses, the 4 KiB below 0xffc00000 to a block
  -- that the allocator holds as used, and the last 4 KiB to the directory.
  pub ki_setup_paging-Mapped :
      IsValid p.mem
      → (ki_setup_paging p).0 ≡ success
      → (ki_setup_paging p).1.kernel_end_virtual ≤ 0xc040_0000
      → Mapped (ki_setup_paging p).1
  unfolding ki_setup_paging
  ki_setup_paging-Mapped v ok below =
      let r₁ = create_page_directory p in
      let r₂ = r₁ >>= map_first_megabyte in
      let r₃ = r₂ >>= map_kernel in
      let first =
        bind-success HasDirectory HasMegabyte r₁ map_first_megabyte (create_page_directory_lem p v)
          map_first_megabyte_lem in
      let kernel =
        bind-success HasMegabyte (λ q. Below q → HasKernel q) r₂ map_kernel first map_kernel_lem in
      let stack =
        bind-success (λ q. Below q → HasKernel q) (λ q. Below q → HasStack q) r₃
          create_new_kernel_stack kernel
          (λ q k e b. create_new_kernel_stack_lem q (k (rw (sym (stack-same_end q)) b)) e) in
      HasStack-Mapped (ki_setup_paging p).1 (stack ok below) below
