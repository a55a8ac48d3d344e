-- ===== src/Pmm/Lifo.antt =====
-- The free stack of 32-bit pages: a page that is pushed is the next to be popped, and what a pop
-- gives once the stack has run empty.
use condor_fos.Base.{ℕ, ◌+◌, ◌<◌, ◌≡◌, ◌≢◌, arith, ones32, pos}
use condor_fos.Pmm.Stack.{Stacks, ok, stack_push, store32, stack_pop32, load32}
use condor_fos.Pmm.Regions.{Succeeds}

-- Both stacks have a page, and `i` more fit the page of the 32-bit one.
pub record HasRoom (s : Stacks) (i : ℕ) : Type 0 where
  pub index : s.stack32_index ≡ pos i
  pub room : i < 1023
  pub mapped32 : s.page32 ≢ 0
  pub mapped64 : s.page64 ≢ 0

-- With both stacks mapped and an index below 1023, `stack_push` of a page other than 0xFFFFFFFF
-- does not panic, and `stack_pop32` then gives back that page, the index and the stack page.
pub pop-push :
    (s : Stacks) (i addr : ℕ)
    → HasRoom s i
    → addr ≢ ones32
    → Succeeds
        (λ s'.
          ((stack_pop32 s').0 ≡ addr)
          × ((stack_pop32 s').1.stack32_index ≡ s.stack32_index)
          × ((stack_pop32 s').1.page32 ≡ s.page32))
        (stack_push s addr)
unfolding stack_push stack_pop32
pop-push s i addr h valid =
    let pushed = record (store32 s (i + 1) addr) { stack32_index = pos (i + 1) } in
    let path : stack_push s addr ≡ ok pushed = rw h.index (ground arith) in
    rw path (rw h.index (ground arith))

-- At index 0 with the backlink 0xFFFFFFFF, two pops give first 0xFFFFFFFF and then the page that
-- the stack itself is kept in, which stays mapped as the stack, with index 1022.
pop-own_page :
    (s : Stacks)
    → s.stack32_index ≡ pos 0
    → s.page32 ≢ ones32
    → load32 s 0 ≡ ones32
    → ((stack_pop32 s).0 ≡ ones32)
      × ((stack_pop32 (stack_pop32 s).1).0 ≡ s.page32)
      × ((stack_pop32 (stack_pop32 s).1).1.page32 ≡ s.page32)
      × ((stack_pop32 (stack_pop32 s).1).1.stack32_index ≡ pos 1022)
unfolding stack_pop32
pop-own_page s empty page bottom = rw empty (ground arith)
