-- ===== src/Multiboot/Init.antt =====
-- Which driver `multiboot_init` installs, and what it refuses.
use missy_kernel.Base.{
  ℕ, ◌%◌, ◌<◌, ◌≡◌, ◌≢◌, refl, ◌∙◌, bit_and, ==_false_of_ne, false, some, List, length,
}
use missy_kernel.Base.Masks.{bit_and_mask}
use missy_kernel.Mboot2.Tags.{Tag, memory_size, memory_map}
use missy_kernel.Mboot2.Find.{IsBoot}
use missy_kernel.Mboot2.Driver.{check_answer, init_multiboot2_lem}
use missy_kernel.Multiboot.{
  Driver, unimplemented, mboot2, Multiboot, multiboot_magic, multiboot2_magic, to_mboot2, of_mboot2,
  init_api_struct, multiboot_init,
}

-- `multiboot_init` refuses an address that is not a multiple of 8, and changes only the error
-- number then. At any other address it refuses a magic number of neither standard.
pub multiboot_init-refuses :
    (fuel ptr magic : ℕ) (s : Multiboot)
    → (ptr % 8 ≢ 0 → multiboot_init fuel ptr magic s ≡ some (false, record s { errno = 4 }))
      × (ptr % 8 ≡ 0
          → magic ≢ multiboot_magic
          → magic ≢ multiboot2_magic
          → (s' : Multiboot) × (multiboot_init fuel ptr magic s ≡ some (false, s'))
            × (s'.errno ≡ 7)
            × (s'.driver ≡ unimplemented))
unfolding multiboot_init init_api_struct
multiboot_init-refuses fuel ptr magic s =
    let low : bit_and ptr 7 ≡ ptr % 8 = bit_and_mask 3 ptr in
    (
      λ h. rw (low, ==_false_of_ne (ptr % 8) 0 h) refl,
      λ h a b. (
        record s { boot_magic = magic; mboot_ptr = ptr; driver = unimplemented; errno = 7 },
        rw (low, h, ==_false_of_ne magic multiboot_magic a, ==_false_of_ne magic multiboot2_magic b)
            refl,
        refl,
        refl,
      ),
    )

-- The state that `multiboot_init` hands to a driver.
abbrev pub entered : ℕ → ℕ → Driver → Multiboot → Multiboot
entered ptr magic driver s = record s { boot_magic = magic; mboot_ptr = ptr; driver = driver }

-- At an address that is a multiple of 8, with the second standard's magic number and more fuel
-- than the structure there has tags, `multiboot_init` installs the second driver, and succeeds
-- just when the structure has both required tags.
pub multiboot_init-mboot2 :
    (fuel ptr n : ℕ) (ts : List Tag) (s : Multiboot)
    → ptr % 8 ≡ 0
    → IsBoot s.mem ptr n ts
    → length ts < fuel
    → let s' = entered ptr multiboot2_magic mboot2 s in
      let (status, d) = check_answer (to_mboot2 s') (memory_size ts) (memory_map ts) in
      multiboot_init fuel ptr multiboot2_magic s ≡ some (status, of_mboot2 s' d)
unfolding multiboot_init init_api_struct
multiboot_init-mboot2 fuel ptr n ts s h b f =
    let low : bit_and ptr 7 ≡ 0 = bit_and_mask 3 ptr ∙ h in
    let start = to_mboot2 (entered ptr multiboot2_magic mboot2 s) in
    rw (low, init_multiboot2_lem fuel n ts start b f) refl
