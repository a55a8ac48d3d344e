-- ===== src/Tasks.antt =====
-- kernel/kernel/tasks.c: the creation of a process, over the allocators of pages and addresses, the
-- paging and the scheduler. `kmalloc` and `kfree` are those of the heap, which may ask for pages.
pub mod Runs
pub mod Stacks
pub mod Started
pub mod Created
pub mod Tests
use condor_fos.Base.{ℕ, ◌+◌, Bool, true, false, ◌||◌, ◌==◌, if◌then◌else◌, Memory, u32, bit_or}
use condor_fos.Pmm.Stack.{Run, ok, panic}
use condor_fos.Pmm.Alloc.{◌>>=◌, pmalloc, poison_null}
use condor_fos.Vmm.{Vm, page_present, page_rw, vmm_map_address, vmm_get_current_page_base}
use condor_fos.Vaddm.{vmalloc, vfree}
use condor_fos.Scheduler.{StackState, Process, Scheduler, initialized, update, schedule_process}

-- The state that the function goes over, with the window of the address manager.
pub record Kernel : Type 0 where
  pub vm : Vm
  pub window : Memory
  pub scheduler : Scheduler
  pub pid_counter : ℕ

abbrev pub page_user : ℕ
page_user = 4

-- A process and its registers behind `memset`.
abbrev pub blank_process : Process
blank_process = record {
  next = 0;
  current_state = initialized;
  pid = 0;
  timeslice = 0;
  is_usermode = false;
  page_base = 0;
  regs = record { int_num = 0; registers = λ i. 0 };
  kernel_esp = 0;
}

abbrev pub put_process : Kernel → (p : ℕ) → Process → Kernel
put_process k p process = record k {
  scheduler = record k.scheduler { heap = update k.scheduler.heap p process };
}

-- The registers by their place in `stack_state_t`: gs, fs, es and ds first, eip the 13th.
unfoldable pub first_registers : (entry_point stack_base : ℕ) (is_usermode : Bool) → ℕ → ℕ
first_registers entry_point stack_base is_usermode i =
    if i == 13
    then u32 entry_point
    else if i == 14
    then (if is_usermode then 0x1b else 0x08)
    else if i == 15
    then 0x202
    else if i == 16
    then u32 (stack_base + 0xffc)
    else if (i == 0) || ((i == 1) || ((i == 2) || ((i == 3) || (i == 17))))
    then (if is_usermode then 0x23 else 0x10)
    else 0

-- The fields that are set before the stacks, and the counter.
unfoldable pub number_process : Kernel → (p : ℕ) (is_usermode : Bool) → Kernel
number_process k p is_usermode =
    record (put_process k p (record (k.scheduler.heap p) {
      next = poison_null;
      regs = blank_process.regs;
      kernel_esp = 0;
      pid = k.pid_counter;
      is_usermode = is_usermode;
      page_base = vmm_get_current_page_base k.vm;
    })) { pid_counter = u32 (k.pid_counter + 1) }

-- The registers, and the hand-over to the scheduler.
unfoldable pub start_process :
    Kernel → (p entry_point stack_base kstack_base : ℕ) (is_usermode : Bool) → Kernel
start_process k p entry_point stack_base kstack_base is_usermode =
    let ready = put_process k p (record (k.scheduler.heap p) {
      regs = record { int_num = 0; registers = first_registers entry_point stack_base is_usermode };
      kernel_esp = if is_usermode then kstack_base else stack_base;
    }) in
    record ready { scheduler = schedule_process ready.scheduler p }

-- `kernel_base` is the word that C reads at the symbol `KERNEL_VIRTUAL_BASE`.
module _ (kernel_base : ℕ) where
  -- `vmm_map_address(stack, pmalloc(), flags)`.
  unfoldable pub map_stack : Kernel → (stack flags : ℕ) → Run (ℕ × Kernel)
  map_stack k stack flags =
      let (frame, pmm) = pmalloc k.vm.pmm in
      vmm_map_address kernel_base (record k.vm { pmm = pmm }) stack frame flags
      >>= (λ (ret, vm). ok (ret, record k { vm = vm }))

  -- The two branches that map the stacks; the value 2 is the one that they look for.
  unfoldable pub map_user : Kernel → (stack_base kstack_base : ℕ) → Run Kernel
  map_user k stack_base kstack_base =
      map_stack k stack_base (bit_or (bit_or page_present page_rw) page_user) >>= (λ (first, k1).
        if first == 2
        then panic
        else (map_stack k1 kstack_base (bit_or page_present page_rw)
            >>= (λ (second, k2). if second == 2 then panic else ok k2)))

  unfoldable pub map_kernel : Kernel → (stack_base kstack_base : ℕ) → Run Kernel
  map_kernel k stack_base kstack_base =
      map_stack k stack_base (bit_or page_present page_rw) >>= (λ (ret, k1).
        if ret == 2 then panic else ok (record k1 { window = vfree k1.window kstack_base 1 }))

  -- From `proc->next = POISON_NULL` on.
  unfoldable pub fill_process : Kernel → (p entry_point : ℕ) (is_usermode : Bool) → Run (ℕ × Kernel)
  fill_process k p entry_point is_usermode =
      let numbered = number_process k p is_usermode in
      let (stack_base, w1) = vmalloc numbered.window 1 in
      let (kstack_base, w2) = vmalloc w1 1 in
      let placed = record numbered { window = w2 } in
      (if is_usermode
        then map_user placed stack_base kstack_base
        else map_kernel placed stack_base kstack_base)
      >>= (λ mapped. ok (p, start_process mapped p entry_point stack_base kstack_base is_usermode))

  module _ (kmalloc : Kernel → (size : ℕ) → ℕ × Kernel) (kfree : Kernel → ℕ → Kernel) where
    unfoldable pub process_create :
        Kernel → (entry_point : ℕ) (is_usermode : Bool) → Run (ℕ × Kernel)
    process_create k entry_point is_usermode =
        let (proc, k1) = kmalloc k 28 in
        if proc == 0
        then ok (poison_null, k1)
        else (let (regs, k2) = kmalloc (put_process k1 proc blank_process) 76 in
            if regs == 0
            then ok (poison_null, kfree k2 proc)
            else fill_process k2 proc entry_point is_usermode)
