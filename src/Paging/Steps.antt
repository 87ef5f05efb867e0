-- ===== src/Paging/Steps.antt =====
-- The first two steps of `ki_setup_paging`: the page directory and the first megabyte.
use missy_kernel.Base.{ℕ, ◌≡◌, inl, inr, refl, arith, true, false, Bool-cases, ◌==◌, ne_of_==_false}
use missy_kernel.Kmemlow.{Kmemlow, kmemlow_alloc}
use missy_kernel.Kmemlow.Alloc.{IsValid, Granted-of_ne, kmemlow_alloc-IsValid}
use missy_kernel.Paging.{
  Paging, success, failure, store, clear_page, entry, pdir_entry, identity_loop, out_of_memory,
  create_page_directory, map_first_megabyte,
}
use missy_kernel.Paging.Pages.{
  clear_page-Table, clear_page-frame, store-frame, store-Table, identity_loop-Table,
  identity_loop-frame,
}
use missy_kernel.Paging.State.{
  Granted-Held, Held-keep, Held-Apart, Apart-symm, HasDirectory, HasMegabyte,
}

module _ (p : Paging) where
  abbrev fresh : ℕ
  fresh = (kmemlow_alloc p.mem).0

  abbrev mem₁ : Kmemlow
  mem₁ = (kmemlow_alloc p.mem).1

  create-eq :
      (fresh == 0) ≡ false
      → create_page_directory p ≡ (
        success,
        record p {
          mem = mem₁;
          page_directory = fresh;
          phys = store (clear_page fresh p.phys) fresh 1023 (entry fresh);
        },
      )
  unfolding create_page_directory pdir_entry
  create-eq ne = rw ne

  create-none : (fresh == 0) ≡ true → (create_page_directory p).0 ≡ failure
  unfolding create_page_directory out_of_memory
  create-none e = rw e

  -- `create_page_directory`, where it returns 0.
  pub create_page_directory_lem :
      IsValid p.mem
      → (create_page_directory p).0 ≡ success
      → HasDirectory (create_page_directory p).1
  create_page_directory_lem v ok = elim (Bool-cases (fresh == 0)) [
    | inl e ↦ cc (create-none e)
    | inr ne ↦
        let g = Granted-of_ne p.mem v (ne_of_==_false fresh 0 ne) in
        rw (create-eq ne) (record {
          valid = kmemlow_alloc-IsValid p.mem v;
          held = Granted-Held g;
          directory = store-Table 1023 (entry fresh) (clear_page-Table fresh p.phys);
        })
  ]

  megabyte-eq :
      (fresh == 0) ≡ false
      → map_first_megabyte p ≡ (
        success,
        record p {
          mem = mem₁;
          first_pagetable = fresh;
          phys =
              identity_loop 256 fresh 0
                (store (clear_page fresh p.phys) p.page_directory 0 (entry fresh));
        },
      )
  unfolding map_first_megabyte pdir_entry
  megabyte-eq ne = rw ne

  megabyte-none : (fresh == 0) ≡ true → (map_first_megabyte p).0 ≡ failure
  unfolding map_first_megabyte out_of_memory
  megabyte-none e = rw e

  -- `map_first_megabyte`, where it returns 0.
  pub map_first_megabyte_lem :
      HasDirectory p → (map_first_megabyte p).0 ≡ success → HasMegabyte (map_first_megabyte p).1
  map_first_megabyte_lem d ok = elim (Bool-cases (fresh == 0)) [
    | inl e ↦ cc (megabyte-none e)
    | inr ne ↦
        let g = Granted-of_ne p.mem d.valid (ne_of_==_false fresh 0 ne) in
        let apart = Held-Apart g d.held in
        rw (megabyte-eq ne) (record {
          valid = kmemlow_alloc-IsValid p.mem d.valid;
          held = Held-keep g d.held;
          held_first = Granted-Held g;
          apart = Apart-symm apart;
          directory =
              identity_loop-frame 256 fresh 0 0 refl (omega arith) apart
                (store-Table 0 (entry fresh) (clear_page-frame fresh apart d.directory));
          first = identity_loop-Table 256 fresh 0 0 refl (omega arith) (
              store-frame p.page_directory 0 (entry fresh) (Apart-symm apart) (omega arith)
                (clear_page-Table fresh p.phys));
        })
  ]
