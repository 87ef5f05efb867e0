-- ===== src/Paging/Tests.antt =====
-- paging.c over 64 free blocks, with a kernel that ends at 0x111000.
use missy_kernel.Base.{◌≡◌, refl, arith, ◌==◌, if◌then◌else◌}
use missy_kernel.Bitmap.{mark, find_zero, scan}
use missy_kernel.Kmemlow.{Kmemlow, allocate, first_free, kmemlow_alloc}
use missy_kernel.Kmemlow.Alloc.{IsValid}
use missy_kernel.Paging.{
  Paging, success, ki_setup_paging, create_page_directory, map_first_megabyte, map_kernel,
  create_new_kernel_stack,
}
use missy_kernel.Paging.Setup.{Mapped, ki_setup_paging-Mapped}

-- Block 0 is in use, the others are free.
abbrev mem64 : Kmemlow
mem64 = record {
  mbitmap_physical = 0x110000;
  map = λ i. if i == 0 then 1 else 0;
  total_blocks = 64;
  used_blocks = 1;
  bitmap_size = 2;
  kernel_end_physical = 0x111000;
  errno = 0;
}

abbrev boot64 : Paging
boot64 = record {
  mem = mem64;
  phys = λ _. 0xdead;
  page_directory = 0;
  first_pagetable = 0;
  kernel_pagetable = 0;
  kernel_stack_map = 0;
  kernel_end_virtual = 0;
}

boot64-IsValid : IsValid boot64.mem
boot64-IsValid = record { words = λ i. ground arith; small = omega arith }

returns : (ki_setup_paging boot64).0 ≡ success
unfolding ki_setup_paging create_page_directory map_first_megabyte map_kernel
    create_new_kernel_stack kmemlow_alloc first_free scan find_zero allocate mark
returns = refl

end_at : (ki_setup_paging boot64).1.kernel_end_virtual ≡ 0xc011_1000
unfolding ki_setup_paging create_page_directory map_first_megabyte map_kernel
    create_new_kernel_stack kmemlow_alloc first_free scan find_zero allocate mark
end_at = refl

ki_setup_paging-Mapped_example : Mapped (ki_setup_paging boot64).1
ki_setup_paging-Mapped_example =
    ki_setup_paging-Mapped boot64 boot64-IsValid returns (omega (arith, end_at))
