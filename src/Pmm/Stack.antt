-- ===== src/Pmm/Stack.antt =====
-- kernel/kernel/mm/pmm.c, the free stacks: `stack_push`, `stack_pop32` and `stack_pop64`, in the
-- build with 32-bit addresses. A stack is a linked list of pages that are mapped one at a time at
-- `stack32`: word 0 of a page is `backlink`, word `i + 1` is `freeAddrs[i]`.
use condor_fos.Base.{
  ℕ, zero, suc, ◌+◌, ◌-◌, ◌%◌, Memory, write, ones32, ◌==◌, if◌then◌else◌, ℤ, pos, negsuc,
}

pub record Stacks : Type 0 where
  -- What `vmm_get_physical_addr` gives for `stack32` and `stack64`: 0 while unmapped.
  pub page32 : ℕ
  pub page64 : ℕ
  -- The words of each physical page.
  pub frames : ℕ → Memory
  pub stack32_index : ℤ

-- `kpanic` does not return.
pub data Run (A : Type 0) : Type 0 where
  ok : A → Run A
  panic : Run A

-- `vmm_map_address(stack32, addr, PAGE_PRESENT | PAGE_RW | PAGE_REMAP)` with the page table of
-- `stack32` in place: it returns 1 and maps nothing at 0xFFFFFFFF, and drops the page offset.
unfoldable pub remap32 : Stacks → ℕ → Stacks
remap32 s addr = if addr == ones32 then s else record s { page32 = addr - addr % 4096 }

-- `memset(stack32, 0xFF, sizeof(free_stack32_t))`.
unfoldable pub blank_page : Stacks → ℕ → Stacks
blank_page s page = record s { frames = λ p. if p == page then (λ i. ones32) else s.frames p }

-- A store to word `i` of the page that is mapped at `stack32`.
unfoldable pub store32 : Stacks → ℕ → ℕ → Stacks
store32 s i v = record s {
  frames = λ p. if p == s.page32 then write (s.frames p) i v else s.frames p;
}

abbrev pub load32 : Stacks → ℕ → ℕ
load32 s i = s.frames s.page32 i

-- The branches of `stack_push` by `stack32_index`. A push at index 1023 turns the page that is
-- pushed into the next page of the stack. A negative index writes at `freeAddrs[-1]`.
unfoldable pub push_at : Stacks → ℤ → ℕ → Stacks
push_at s (pos i) addr =
    if i == 1023
    then (let s' = blank_page (remap32 s addr) (remap32 s addr).page32 in
        record (store32 s' 0 s.page32) { stack32_index = pos 0 })
    else record (store32 s (i + 1) addr) { stack32_index = pos (i + 1) }
push_at s (negsuc zero) addr = record (store32 s 0 addr) { stack32_index = pos 0 }
push_at s (negsuc (suc n)) addr = record s { stack32_index = negsuc n }

-- The first two pages that are pushed become the first pages of the two stacks.
unfoldable pub stack_push : Stacks → ℕ → Run Stacks
unfolding push_at remap32 blank_page store32
stack_push s addr =
    if s.page32 == 0
    then ok (blank_page (remap32 s addr) (remap32 s addr).page32)
    else if s.page64 == 0
    then ok (blank_page (record s { page64 = addr - addr % 4096 }) (addr - addr % 4096))
    else if addr == ones32
    then panic
    else ok (push_at s s.stack32_index addr)

-- Without 64-bit addresses there is nothing to pop.
abbrev pub stack_pop64 : ℕ
stack_pop64 = ones32

unfoldable pub pop_at : Stacks → ℤ → ℕ × Stacks
pop_at s (pos zero) = (load32 s 0, record s { stack32_index = negsuc 0 })
pop_at s (pos (suc i)) = (load32 s (i + 1), record s { stack32_index = pos i })
pop_at s (negsuc n) =
    if s.page32 == ones32
    then (stack_pop64, s)
    else (s.page32, record (remap32 s (load32 s 0)) { stack32_index = pos 1022 })

-- `alloc_flags.low_4gb` chooses between two ways to return 0xFFFFFFFF here.
unfoldable pub stack_pop32 : Stacks → ℕ × Stacks
unfolding pop_at remap32
stack_pop32 s = pop_at s s.stack32_index
