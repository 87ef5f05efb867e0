-- ===== src/Pagemngr/Tests.antt =====
-- pagemngr.c with the directory in block 2, an empty page table in block 3, and one page mapped.
use missy_kernel.Base.{◌≡◌, refl, inr, arith, Store, none, some, if◌then◌else◌, ◌==◌}
use missy_kernel.Balloc.{Balloc}
use missy_kernel.Balloc.Count.{IsValid, count}
use missy_kernel.Paging.{success, pdir_entry, ptable_entry}
use missy_kernel.Paging.Walk.{walk}
use missy_kernel.Pagemngr.{
  Pagemngr, pagemngr_map_block, ensure_table, enter_page, pagemngr_unmap_block,
}
use missy_kernel.Pagemngr.Map.{IsManaged, pagemngr_map_block-walk, pagemngr_unmap_block-walk}

abbrev b32 : Balloc
b32 = record { mbmp = λ i. if i == 0 then 15 else 0; total_blocks = 32; used_blocks = 4; errno = 0 }

-- Entry 832 is for the addresses from 0xd0000000 on; page 1 of its table is mapped.
abbrev words : Store
words a = if a == 0x2d00 then 0x3001 else if a == 0x3004 then 0x5001 else 0

abbrev pub p0 : Pagemngr
p0 = record { balloc = b32; phys = words; directory = 0x2000 }

pub b32-IsValid : IsValid b32
unfolding count
b32-IsValid = record { words = λ i. ground arith; small = omega arith; counted = refl }

p0-IsManaged : IsManaged p0 832
p0-IsManaged = record {
  valid = b32-IsValid;
  aligned = refl;
  held = refl;
  entry = inr (refl, λ e. omega arith);
}

maps : (pagemngr_map_block 0x7000 0xd000_0000 p0).0 ≡ success
unfolding pagemngr_map_block ensure_table enter_page pdir_entry ptable_entry
maps = refl

pagemngr_map_block-walk_example :
    let r = pagemngr_map_block 0x7000 0xd000_0000 p0 in
    walk r.1.phys r.1.directory 0xd000_0000 ≡ some 0x7000
pagemngr_map_block-walk_example =
    pagemngr_map_block-walk 0x7000 0xd000_0000 p0 refl (omega arith) p0-IsManaged maps

pagemngr_unmap_block-walk_example :
    let r = pagemngr_unmap_block 0xd000_1000 p0 in
    (walk r.1.phys r.1.directory 0xd000_1000 ≡ none) × (r.0 ≡ 1)
pagemngr_unmap_block-walk_example =
    pagemngr_unmap_block-walk 0xd000_1000 p0 (omega arith) refl refl (λ e. omega arith) refl
