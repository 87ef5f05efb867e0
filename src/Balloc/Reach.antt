-- ===== src/Balloc/Reach.antt =====
-- The allocator after any sequence of grants and returns.
use missy_kernel.Base.{ℕ, ◌⊎◌}
use missy_kernel.Balloc.{Balloc, balloc_allocate_block, balloc_deallocate_block}
use missy_kernel.Balloc.Count.{IsValid}
use missy_kernel.Balloc.Alloc.{Granted, Refused, balloc_allocate_block_lem}
use missy_kernel.Balloc.Dealloc.{balloc_allocate_block-IsValid, balloc_deallocate_block-IsValid}

-- One call: a request, or the return of any address.
pub data Step : Balloc → Balloc → Type 0 where
  request : {b : Balloc} → Step b (balloc_allocate_block b).1
  give_back : {b : Balloc} (address : ℕ) → Step b (balloc_deallocate_block b address)

pub data Steps (b : Balloc) : Balloc → Type 0 where
  start : Steps b b
  step : {b₁ b₂ : Balloc} → Steps b b₁ → Step b₁ b₂ → Steps b b₂

Step-IsValid : {b b' : Balloc} → Step b b' → IsValid b → IsValid b'
Step-IsValid {b} request v = balloc_allocate_block-IsValid b v
Step-IsValid {b} (give_back address) v = balloc_deallocate_block-IsValid b address v

Steps-IsValid : {b b' : Balloc} → Steps b b' → IsValid b → IsValid b'
Steps-IsValid start v = v
Steps-IsValid (step before last) v = Step-IsValid last (Steps-IsValid before v)

-- In every state that requests and returns, in any order and of any addresses, lead to from a valid
-- one, the counter is the number of blocks in use, and the next request is granted the least free
-- block or refused.
pub Steps-Granted :
    {b b' : Balloc}
    → Steps b b'
    → IsValid b
    → IsValid b'
      × (Granted b' (balloc_allocate_block b').0 (balloc_allocate_block b').1
          ⊎ Refused b' (balloc_allocate_block b').0 (balloc_allocate_block b').1)
Steps-Granted {b'} s v = let w = Steps-IsValid s v in (w, balloc_allocate_block_lem b' w)
