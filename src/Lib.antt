-- ===== src/Lib.antt =====
-- CondorFOS is a small operating system kernel for the i386 with its own C library. This library
-- models its memory management, the pages of its heap, its keyboard, disk and PS/2 drivers, its
-- processes and their scheduler, its interrupts and its timer, its terminal, its serial line, its
-- log, its start and its C library, and proves what their operations do.
--
-- Parts and files. Paths are from the root of the repository.
--   Base: the shared helpers. A word is a native number below 2 ^ 32 with its wrap-around written
--     out, a memory is a function from indexes to numbers, and a bit is read by `test_bit`.
--   Pmm: kernel/kernel/mm/pmm.c. `Pmm` has the two bitmaps of low memory and the search
--     `paddm_get_first_clear_bits`, Pmm.Skips the blocks that it skips; Pmm.Stack the two stacks of
--     free pages (`stack_push`, `stack_pop32`); Pmm.Alloc the public functions, on a record of the
--     file's static variables.
--   Vmm: the paging part of kernel/arch/i386/vmm.c. The state is physical memory by frame and word,
--     CR3 and the allocator. The code reaches the tables through slot 1023 of the page directory,
--     and so do `read_table` and `write_table`. `smap_page` and `pf_handler` take pages from
--     `pmalloc`, `vmm_unmap_address` gives them back by `pfree`.
--   Vaddm: the address manager in the same file, `vmalloc` and `vfree`, over a window of words.
--     `vaddm_init` maps the window by `vmm_map_address` and `pmalloc`.
--   Keyboard: kernel/kernel/keyboard.c. The state is a record of the file's static variables, the
--     bits of `state` and `status` are Booleans, `keyboard_isr` takes the byte that the controller
--     delivers. Keyboard.Keys and Keyboard.Controls have the key codes of
--     kernel/include/kernel/keyboard.h, Keyboard.Tables the translation tables. What is read
--     outside a translation table is a parameter, and the bytes behind `key_states` are memory of
--     their own. Keyboard.Start has `keyboard_init`, over the controller of Ps2.
--   Scheduler: kernel/arch/i386/scheduler.c. Processes are records on a heap, linked by addresses;
--     0xFEEEEB1E is the null pointer of the source. Scheduler.Shown has the line that
--     a preemption prints.
--   Tasks: kernel/kernel/tasks.c, `process_create` over Pmm, Vmm, Vaddm and Scheduler. `kmalloc` and
--     `kfree` are parameters that may change the whole state but not the queue. Tasks.Stacks has the
--     mapping of the stacks, Tasks.Started the hand-over.
--   Tty: kernel/arch/i386/tty.c and kernel/include/kernel/vga.h. The assembly of the scroll is one
--     function on the cells, and the bytes sent to ports are a list. The loop over a string takes fuel,
--     which is enough above the length of a string of fewer than 65536 characters: its index has 16
--     bits. Tty.Strings has what the loop makes of the screen.
--   Interrupts: kernel/arch/i386/idt.c and pic.c. What the handlers act on, the acknowledgement and
--     the ports are parameters; the list of actions of a request is a list of handlers.
--   Serial: kernel/arch/i386/serial.c. The device is a parameter, with `inb`, `outb` and `io_wait`; a
--     busy wait and the loop over a string take fuel, which is enough once it is larger than the
--     number of reads that the port is busy for and than the length of the string.
--   Log: kernel/kernel/klogger.c, over Tty and Serial. The strings lie in a memory that is not
--     written; Log.Levels has the table of names.
--   Kernel: kernel/kernel/kernel.c. `init_memory` is the part of `kinit` that starts the page
--     allocator and reserves what is in use, `kmain_round` one round of the loop of `kmain`.
--   Machine: what the drivers of the disks, the PS/2 controller and the timer are written in.
--     `Ports` is the interface of the port instructions (kernel/arch/i386/include/io.h), `Action` a
--     C function on a state, whose run ends with a result, in a bad pointer (`fault`) or still in a
--     loop when the fuel is used up (`spinning`). Machine.Takes has the rules by which the proofs
--     follow a `do` block.
--   Ata: kernel/kernel/ata/ata.c and kernel/include/kernel/ata.h. Ata.Sectors has the transfers by
--     registers, Ata.Packet those by packet commands, Ata.Identify `ide_init` and the probes, Ata.Info
--     the layout of `ata_info_t`, where the bit-fields of a word begin at its lowest bit. `uword_t` is
--     `unsigned`, so a buffer has words of 32 bits, and a port takes 16 of them; the memory of the
--     buffers is total, so only an access to `controllers` can fault. An entry of `controllers` is
--     an allocation of its own, so the array is a list of records. The interrupt comes while
--     `waitForIRQ` halts and runs `ata_irq` there. The loops on a status of the drive take fuel; with
--     a bound on the words that the drive gives, fuel above it is enough.
--   Ps2: kernel/arch/i386/ps2.c, the controller of the keyboard and the mouse, on the same
--     interface; Ps2.Types has the constants of kernel/include/kernel/ps2.h. The loops on the status
--     take fuel, those with a watch dog have its bound. A handler is a number, and `irq_addISR` a list.
--   Timer: kernel/arch/i386/pit.c. `World` is what an interrupt acts on, so a tick goes through
--     `isr_handler` of Interrupts to `scheduler_preempt`. Hal: kernel/arch/i386/hal.c, the interrupt
--     flag and the names for the functions of Interrupts, Timer and Ps2.
--   Heap: kernel/kernel/mm/alloc_hooks.c, the limit of the heap over Vmm and Pmm; the allocator above
--     it is a copy of liballoc and is not modelled.
--   Ctype: libc/ctype/ctype.c and the macros of libc/include/ctype.h.
--   Bytes: libc/string on a memory of bytes. Digits: libc/stdlib/ultoa.c and itoa.c. The loops over
--     a string take fuel, `none` is a run that has not ended; `strlen` and `strcmp` end once the fuel
--     is larger than the length, `ultoa` and `itoa` with the 32 rounds that they are given.
--   Format: libc/stdio, the output by formats, with `kputchar` of kernel/arch/i386/condor.c.
--     vprintf.c and vsprintf.c differ in `print` only, so the loop takes it as an argument;
--     Format.Buffer has the output to a string, Format.Pieces what a format means. The
--     strings lie in a memory that is not written, the arguments are words, and a variable that the
--     code reads before it has a value is a parameter. Each loop of a round has the fuel `k`, which
--     is enough above the length of every text and string and above 33, the loop over the rounds
--     that above the number of pieces. `%d` of -2 ^ 31 is outside the model.
--
-- How code becomes definitions. A function of the source is a definition of the same name that
-- takes the state and returns it. A `for` loop with a fixed bound is a recursion on the rounds
-- that are left, with the source's counter beside it, and needs no fuel. `kpanic` does not
-- return and is the constructor `panic`. The -1 of a search is `none`.
--
-- Not modelled. The build with 64-bit physical addresses; the walk over the bytes of the
-- multiboot map, whose entries are a list here; the page tables behind the mappings of the free
-- stacks, which the record `Stacks` keeps as two numbers; the translation cache, which the code
-- flushes at every change; in `kinit` the test output and the loop that maps the modules of the boot
-- loader and starts one as a process. PROJECT.json names the parts of the repository that are not
-- modelled.
pub mod Ata
pub mod Base
pub mod Bytes
pub mod Ctype
pub mod Digits
pub mod Format
pub mod Hal
pub mod Heap
pub mod Interrupts
pub mod Kernel
pub mod Keyboard
pub mod Log
pub mod Machine
pub mod Pmm
pub mod Ps2
pub mod Scheduler
pub mod Serial
pub mod Tasks
pub mod Timer
pub mod Tty
pub mod Vaddm
pub mod Vmm
