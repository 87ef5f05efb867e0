-- ===== src/Brk/Break.antt =====
-- What `brk` and `sbrk` do to the break.
use missy_kernel.Base.{
  ℕ, zero, suc, ◌+◌, ◌≤◌, ◌≡◌, ◌≢◌, ◌⊎◌, inl, inr, refl, u32, ltb, ◌==◌, ==_false_of_ne,
  ne_of_==_false, ltb_false→le, Bool-cases,
}
use missy_kernel.Balloc.{enomem, balloc_allocate_block}
use missy_kernel.Pagemngr.Map.{Status-cases}
use missy_kernel.Paging.{Status, success, failure}
use missy_kernel.Brk.{
  Brk, set_errno, roll_back, map_frame, allocate_loop, allocate_new_brk, new_block_count,
  first_frame, extend, brk, sbrk, page_align_down,
}

-- What a call leaves of the heap: the break that it has set, or the old one.
record Leaves (break : ℕ) (s s' : Brk) : Type 0 where
  break_at : s'.break ≡ break
  base_at : s'.heap_base ≡ s.heap_base

allocate_loop-Leaves : (n i frame : ℕ) (s : Brk) → Leaves s.break s (allocate_loop n i frame s).1
unfolding allocate_loop map_frame roll_back
allocate_loop-Leaves zero i frame s = record { break_at = refl; base_at = refl }
allocate_loop-Leaves (suc n) i frame s =
    let (block, b) = balloc_allocate_block s.pagemngr.balloc in
    let s' = record s { pagemngr = record s.pagemngr { balloc = b } } in
    let rest = allocate_loop-Leaves n (i + 1) (u32 (frame + 4096)) (map_frame block frame s') in
    let stays : Leaves s.break s
        (allocate_loop n (i + 1) (u32 (frame + 4096)) (map_frame block frame s')).1 =
      record { break_at = rest.break_at; base_at = rest.base_at } in
    elim (Bool-cases (block == 0)) [
      | inl z ↦ elim (Bool-cases (ltb 0 i)) [
        | inl l ↦ rw (z, l) (record { break_at = refl; base_at = refl })
        | inr l ↦ rw (z, l) stays
      ]
      | inr z ↦ rw z stays
    ]

-- The outcome of `brk`: the break is at the address, which is not below the heap, or where it was.
pub data Outcome (addr : ℕ) (s : Brk) : Status → Brk → Type 0 where
  moved :
      {s' : Brk}
      → s.heap_base ≤ addr
      → s.heap_base ≢ 0
      → s'.break ≡ addr
      → s'.heap_base ≡ s.heap_base
      → Outcome addr s success s'
  kept : {s' : Brk} → s'.break ≡ s.break → s'.heap_base ≡ s.heap_base → Outcome addr s failure s'

extend-Outcome :
    (addr : ℕ) (s : Brk)
    → s.heap_base ≤ addr
    → s.heap_base ≢ 0
    → Outcome addr s (extend addr s).0 (extend addr s).1
unfolding extend allocate_new_brk
extend-Outcome addr s h ne =
    let r = allocate_loop (new_block_count addr s) 0 (first_frame s) s in
    let l = allocate_loop-Leaves (new_block_count addr s) 0 (first_frame s) s in
    elim (Status-cases r.0) [
      | inl e ↦ rw (extend, e) (moved h ne refl l.base_at)
      | inr e ↦ rw (extend, e) (kept l.break_at l.base_at)
    ]

-- Where `brk` returns 0, there is a heap, the address is not below it, and the break is at the
-- address; where it returns -1, the break is where it was. The heap starts where it did.
pub brk_lem : (addr : ℕ) (s : Brk) → Outcome addr s (brk addr s).0 (brk addr s).1
unfolding brk
brk_lem addr s = elim (Bool-cases (s.heap_base == 0)) [
  | inl e ↦ rw (brk, e) (kept refl refl)
  | inr e ↦ elim (Bool-cases (ltb addr s.heap_base)) [
    | inl f ↦ rw (brk, e, f) (kept refl refl)
    | inr f ↦
        let h = ltb_false→le addr s.heap_base f in
        let ne = ne_of_==_false s.heap_base 0 e in
        elim (Bool-cases (s.break == 0)) [
          | inl g ↦ rw (brk, e, f, g) (extend-Outcome addr s h ne)
          | inr g ↦ elim (Bool-cases (page_align_down addr == page_align_down s.break)) [
            | inl i ↦ rw (brk, e, f, g, i) (moved h ne refl refl)
            | inr i ↦ rw (brk, e, f, g, i) (extend-Outcome addr s h ne)
          ]
        ]
  ]
]

-- `sbrk` with 0 returns the break and changes nothing. With any other increment it either returns
-- the old break and has added the increment to it, in 32 bits, or returns -1, has set `errno` to
-- ENOMEM and has left the break where it was.
pub sbrk_lem :
    (increment : ℕ) (s : Brk)
    → (increment ≡ 0 → sbrk increment s ≡ (s.break, s))
      × (increment ≢ 0
          → let r = sbrk increment s in
            ((r.0 ≡ s.break) × (r.1.break ≡ u32 (s.break + increment)))
            ⊎ ((r.0 ≡ 0xffff_ffff) × (r.1.break ≡ s.break) × (r.1.pagemngr.balloc.errno ≡ enomem)))
unfolding sbrk
sbrk_lem increment s = (λ z. rw (sbrk, z) refl, λ ne. rw (sbrk, ==_false_of_ne increment 0 ne) step)
  where
    r : Status × Brk
    r = brk (u32 (s.break + increment)) s

    after :
        (done : Status) (s' : Brk)
        → Outcome (u32 (s.break + increment)) s done s'
        → let q = elim done as (λ x. ℕ × Brk) [
          | failure ↦ (0xffff_ffff, set_errno enomem s')
          | success ↦ (s.break, s')
        ] in
          ((q.0 ≡ s.break) × (q.1.break ≡ u32 (s.break + increment)))
          ⊎ ((q.0 ≡ 0xffff_ffff) × (q.1.break ≡ s.break) × (q.1.pagemngr.balloc.errno ≡ enomem))
    after success s' (moved _ _ b _) = inl (refl, b)
    after failure s' (kept b _) = inr (refl, b, refl)

    step :
        let q = elim r.0 as (λ x. ℕ × Brk) [
          | failure ↦ (0xffff_ffff, set_errno enomem r.1)
          | success ↦ (s.break, r.1)
        ] in
        ((q.0 ≡ s.break) × (q.1.break ≡ u32 (s.break + increment)))
        ⊎ ((q.0 ≡ 0xffff_ffff) × (q.1.break ≡ s.break) × (q.1.pagemngr.balloc.errno ≡ enomem))
    step = after r.0 r.1 (brk_lem (u32 (s.break + increment)) s)
