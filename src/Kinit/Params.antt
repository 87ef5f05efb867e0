-- ===== src/Kinit/Params.antt =====
-- What `ki_setup_paging` leaves of the allocator's counters, and the early messages.
use missy_kernel.Base.{◌≡◌, ◌∙◌, arith}
use missy_kernel.Kmemlow.{Kmemlow, kmemlow_alloc, first_free, allocate}
use missy_kernel.Paging.{
  Paging, Status, success, failure, ki_setup_paging, create_page_directory, map_first_megabyte,
  map_kernel, create_new_kernel_stack, out_of_memory, ◌>>=◌,
}

-- The sizes and the counters.
pub record SameCounts (k k' : Kmemlow) : Type 0 where
  pub total : k'.total_blocks ≡ k.total_blocks
  pub used : k'.used_blocks ≡ k.used_blocks
  pub bitmap : k'.mbitmap_physical ≡ k.mbitmap_physical

first_free-SameCounts : (k : Kmemlow) → SameCounts k (first_free k).1
unfolding first_free
first_free-SameCounts k = ground arith

kmemlow_alloc-SameCounts : (k : Kmemlow) → SameCounts k (kmemlow_alloc k).1
unfolding kmemlow_alloc allocate
kmemlow_alloc-SameCounts k = ground (arith, first_free-SameCounts k)

trans-SameCounts : {k k' k'' : Kmemlow} → SameCounts k k' → SameCounts k' k'' → SameCounts k k''
trans-SameCounts a b = record {
  total = b.total ∙ a.total;
  used = b.used ∙ a.used;
  bitmap = b.bitmap ∙ a.bitmap;
}

bind-SameCounts :
    (k₀ : Kmemlow) (r : Status × Paging) (k : Paging → Status × Paging)
    → SameCounts k₀ r.1.mem
    → ((q : Paging) → SameCounts q.mem (k q).1.mem)
    → SameCounts k₀ (r >>= k).1.mem
bind-SameCounts k₀ (success, q) k before step = trans-SameCounts before (step q)
bind-SameCounts k₀ (failure, q) k before step = before

-- Whether it returns 0 or -1, `ki_setup_paging` changes neither counter of the allocator, the count
-- of used blocks included, nor the place of the bitmap.
pub ki_setup_paging-SameCounts : (p : Paging) → SameCounts p.mem (ki_setup_paging p).1.mem
unfolding ki_setup_paging create_page_directory map_first_megabyte map_kernel
    create_new_kernel_stack out_of_memory
ki_setup_paging-SameCounts p =
    let alloc = λ (q : Paging). kmemlow_alloc-SameCounts q.mem in
    let r₁ = create_page_directory p in
    let r₂ = r₁ >>= map_first_megabyte in
    let r₃ = r₂ >>= map_kernel in
    bind-SameCounts p.mem r₃ create_new_kernel_stack
      (bind-SameCounts p.mem r₂ map_kernel
        (bind-SameCounts p.mem r₁ map_first_megabyte (ground (arith, alloc p))
          (λ q. ground (arith, alloc q)))
        (λ q. ground (arith, alloc q)))
      (λ q. ground (arith, alloc q, kmemlow_alloc-SameCounts (kmemlow_alloc q.mem).1))
