-- ===== src/Paging/Upper.antt =====
-- The last two steps of `ki_setup_paging`: the kernel image and its stack.
use missy_kernel.Base.{
  ℕ, ◌+◌, ◌≤◌, ◌≡◌, inl, inr, refl, arith, true, false, Bool-cases, ◌==◌, u32, ne_of_==_false,
}
use missy_kernel.Kmemlow.{Kmemlow, kmemlow_alloc}
use missy_kernel.Kmemlow.Alloc.{Granted, Granted-of_ne, Granted-end, kmemlow_alloc-IsValid}
use missy_kernel.Paging.{
  Paging, success, failure, store, clear_page, entry, pdir_entry, ptable_entry, kernel_loop,
  kernel_pages, out_of_memory, map_kernel, create_new_kernel_stack,
}
use missy_kernel.Paging.Pages.{
  Table, Apart, clear_page-Table, clear_page-frame, store-frame, store-Table, kernel_loop-Table,
  kernel_loop-frame,
}
use missy_kernel.Paging.State.{
  Granted-Held, Held-keep, Held-Apart, Apart-symm, HasMegabyte, HasKernel, HasStack, Held,
}

kernel_pages_fit : (end : ℕ) → end ≤ 0xc040_0000 → 256 + kernel_pages end ≤ 1024
unfolding kernel_pages
kernel_pages_fit end h = omega arith

module _ (p : Paging) where
  abbrev fresh : ℕ
  fresh = (kmemlow_alloc p.mem).0

  abbrev mem₁ : Kmemlow
  mem₁ = (kmemlow_alloc p.mem).1

  abbrev end₁ : ℕ
  end₁ = u32 (mem₁.kernel_end_physical + 0xc000_0000)

  kernel-eq :
      (fresh == 0) ≡ false
      → map_kernel p ≡ (
        success,
        record p {
          mem = mem₁;
          kernel_pagetable = fresh;
          kernel_end_virtual = end₁;
          phys =
              kernel_loop
                (kernel_pages end₁)
                fresh
                0xc010_0000
                (store (clear_page fresh p.phys) p.page_directory 768 (entry fresh));
        },
      )
  unfolding map_kernel pdir_entry
  kernel-eq ne = rw ne

  kernel-none : (fresh == 0) ≡ true → (map_kernel p).0 ≡ failure
  unfolding map_kernel out_of_memory
  kernel-none e = rw e

  -- `map_kernel`, where it returns 0 and the image ends below 0xc0400000.
  pub map_kernel_lem :
      HasMegabyte p
      → (map_kernel p).0 ≡ success
      → (map_kernel p).1.kernel_end_virtual ≤ 0xc040_0000
      → HasKernel (map_kernel p).1
  map_kernel_lem d ok = elim (Bool-cases (fresh == 0)) [
    | inl e ↦ cc (kernel-none e)
    | inr ne ↦
        let g = Granted-of_ne p.mem d.valid (ne_of_==_false fresh 0 ne) in
        let apart = Held-Apart g d.held in
        let apart_first = Held-Apart g d.held_first in
        rw (kernel-eq ne) (λ below.
          let fits : 256 + kernel_pages end₁ ≤ 1024 = kernel_pages_fit end₁ below in
          record {
            valid = kmemlow_alloc-IsValid p.mem d.valid;
            held = Held-keep g d.held;
            held_first = Held-keep g d.held_first;
            held_kernel = Granted-Held g;
            apart = d.apart;
            apart_kernel = Apart-symm apart;
            directory =
                kernel_loop-frame (kernel_pages end₁) fresh 256 0xc010_0000 refl fits apart
                  (store-Table 768 (entry fresh) (clear_page-frame fresh apart d.directory));
            first =
                kernel_loop-frame (kernel_pages end₁) fresh 256 0xc010_0000 refl fits apart_first (
                  store-frame p.page_directory 768 (entry fresh) d.apart (omega arith)
                    (clear_page-frame fresh apart_first d.first));
            kernel = kernel_loop-Table (kernel_pages end₁) fresh 256 0xc010_0000 refl fits (
                store-frame p.page_directory 768 (entry fresh) (Apart-symm apart) (omega arith)
                  (clear_page-Table fresh p.phys));
            end_at = refl;
          })
  ]

  abbrev fresh₂ : ℕ
  fresh₂ = (kmemlow_alloc mem₁).0

  abbrev mem₂ : Kmemlow
  mem₂ = (kmemlow_alloc mem₁).1

  stack-eq :
      (fresh == 0) ≡ false
      → (fresh₂ == 0) ≡ false
      → create_new_kernel_stack p ≡ (
        success,
        record p {
          mem = mem₂;
          kernel_stack_map = fresh;
          phys =
              store
                (store
                  (clear_page fresh₂ (clear_page fresh p.phys))
                  p.page_directory
                  1022
                  (entry fresh))
                fresh
                1023
                (entry fresh₂);
        },
      )
  unfolding create_new_kernel_stack pdir_entry ptable_entry
  stack-eq ne ne₂ = rw (ne, ne₂)

  stack-none : (fresh == 0) ≡ true → (create_new_kernel_stack p).0 ≡ failure
  unfolding create_new_kernel_stack out_of_memory
  stack-none e = rw e

  stack-none₂ :
      (fresh == 0) ≡ false → (fresh₂ == 0) ≡ true → (create_new_kernel_stack p).0 ≡ failure
  unfolding create_new_kernel_stack out_of_memory
  stack-none₂ ne e = rw (ne, e)

  module _ (d : HasKernel p) (g : Granted p.mem fresh mem₁) (g₂ : Granted mem₁ fresh₂ mem₂) where
    -- A table that is held, and is not the directory, survives the writes of the last step.
    survives :
        {t : ℕ} {f : ℕ → ℕ}
        → Held p.mem t
        → Apart p.page_directory t
        → Table p.phys t f
        → Table
            (store
              (store
                (clear_page fresh₂ (clear_page fresh p.phys))
                p.page_directory
                1022
                (entry fresh))
              fresh
              1023
              (entry fresh₂))
            t
            f
    survives h apart table = store-frame fresh 1023 (entry fresh₂) (Held-Apart g h) (omega arith) (
        store-frame p.page_directory 1022 (entry fresh) apart (omega arith) (
          clear_page-frame fresh₂ (Held-Apart g₂ (Held-keep g h))
            (clear_page-frame fresh (Held-Apart g h) table)))

    keeps : {a : ℕ} → Held p.mem a → Held mem₂ a
    keeps h = Held-keep g₂ (Held-keep g h)

    stack-HasStack : HasStack (record p {
      mem = mem₂;
      kernel_stack_map = fresh;
      phys =
          store
            (store
              (clear_page fresh₂ (clear_page fresh p.phys))
              p.page_directory
              1022
              (entry fresh))
            fresh
            1023
            (entry fresh₂);
    })
    stack-HasStack =
        let over = Held-Apart g d.held in
        let over₂ = Held-Apart g₂ (Held-keep g d.held) in
        record {
          block = fresh₂;
          valid = kmemlow_alloc-IsValid mem₁ (kmemlow_alloc-IsValid p.mem d.valid);
          held = keeps d.held;
          held_first = keeps d.held_first;
          held_kernel = keeps d.held_kernel;
          held_map = Held-keep g₂ (Granted-Held g);
          held_block = Granted-Held g₂;
          directory = store-frame fresh 1023 (entry fresh₂) over (omega arith) (
              store-Table 1022 (entry fresh)
                (clear_page-frame fresh₂ over₂ (clear_page-frame fresh over d.directory)));
          first = survives d.held_first d.apart d.first;
          kernel = survives d.held_kernel d.apart_kernel d.kernel;
          stack = store-Table 1023 (entry fresh₂) (
              store-frame p.page_directory 1022 (entry fresh) (Apart-symm over) (omega arith) (
                clear_page-frame fresh₂ (Held-Apart g₂ (Granted-Held g))
                  (clear_page-Table fresh p.phys)));
          end_at = rw (Granted-end g₂, Granted-end g) d.end_at;
        }

  -- `create_new_kernel_stack`, where it returns 0.
  pub create_new_kernel_stack_lem :
      HasKernel p → (create_new_kernel_stack p).0 ≡ success → HasStack (create_new_kernel_stack p).1
  create_new_kernel_stack_lem d ok = elim (Bool-cases (fresh == 0)) [
    | inl e ↦ cc (stack-none e)
    | inr ne ↦ elim (Bool-cases (fresh₂ == 0)) [
      | inl e ↦ cc (stack-none₂ ne e)
      | inr ne₂ ↦
          let g = Granted-of_ne p.mem d.valid (ne_of_==_false fresh 0 ne) in
          let g₂ =
            Granted-of_ne mem₁ (kmemlow_alloc-IsValid p.mem d.valid)
              (ne_of_==_false fresh₂ 0 ne₂) in
          rw (stack-eq ne ne₂) (stack-HasStack d g g₂)
    ]
  ]
