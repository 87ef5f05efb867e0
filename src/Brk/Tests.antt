-- ===== src/Brk/Tests.antt =====
-- memory.c with a heap from 0xd0000000 on, on the page manager's test state.
use missy_kernel.Base.{ℕ, ◌≡◌, refl}
use missy_kernel.Balloc.Count.{IsValid}
use missy_kernel.Pagemngr.Tests.{p0, b32-IsValid}
use missy_kernel.Brk.{Brk, new_block_count, brk}
use missy_kernel.Brk.Break.{Outcome, brk_lem}
use missy_kernel.Brk.Valid.{brk-IsValid}

abbrev pub s0 : Brk
s0 = record { pagemngr = p0; break = 0xd000_0800; heap_base = 0xd000_0000 }

abbrev increment : ℕ
increment = 16

brk-IsValid_example : IsValid (brk 0xd000_1800 s0).1.pagemngr.balloc
brk-IsValid_example = brk-IsValid 0xd000_1800 s0 b32-IsValid

brk_example : Outcome 0xd000_1800 s0 (brk 0xd000_1800 s0).0 (brk 0xd000_1800 s0).1
brk_example = brk_lem 0xd000_1800 s0

-- Lowering the break to the page below asks for 2^32 - 1 more blocks.
lower : new_block_count 0xd000_0800 (record s0 { break = 0xd000_1800 }) ≡ 0xffff_ffff
unfolding new_block_count
lower = refl
