-- ===== src/Lib.antt =====
-- Verification of the core of the funderberker kernel: its allocators, the collections under them, its page
-- tables, its interrupt routing, its timers, the firmware's table of interrupt controllers and its
-- hypervisor.
--
-- How the parts interact. The buddy allocator (pmm/src/buddy.rs) keeps the free physical blocks in linked
-- lists, one for each power of two, and takes list nodes from a list of spare ones. The slab allocator
-- (slab/src/internal.rs) cuts pages into objects, and the heap (slab/src/heap.rs) picks one of eight slab
-- allocators by the layout. Paging (kernel/src/mem/paging.rs, kernel/src/arch/x86_64/paging) builds the
-- entries of page tables from flags, page sizes and the page attribute table, and gives pages of released
-- entries back to the buddy allocator. Virtual addresses come from a hander of identifiers
-- (utils/src/collections/id/hander.rs, kernel/src/mem/vaa.rs). A tracker of identifiers
-- (utils/src/collections/id/tracker.rs) stands on a bitmap (utils/src/collections/bitmap.rs). The page tables
-- take their pages from the buddy allocator. A timer of the HPET (drivers/src/timer/hpet.rs) gets its
-- identifier and its interrupt line from trackers; registering the line installs a gate in the interrupt
-- descriptor table (kernel/src/arch/x86_64/interrupts.rs) and changes the entry of the line in an IO APIC
-- (kernel/src/arch/x86_64/apic/ioapic.rs). The paging interface (kernel/src/mem/paging.rs) joins the virtual
-- addresses, the pages of the buddy allocator and the page tables. The boot code walks the firmware's table
-- of interrupt controllers (boot/src/acpi/madt.rs), whose entries add and set up the IO APICs and the local
-- APICs (kernel/src/arch/x86_64/apic/lapic.rs). The hypervisor (hypervisor/src/svm/mod.rs) gives each guest
-- an identifier from a tracker and the segments of the kernel's table (kernel/src/arch/x86_64/gdt.rs). A spin
-- lock (utils/src/sync/spinlock.rs) guards each global.
--
-- The files.
--   Common: the shared names; Common.Fallible has `Outcome`, the result of code that may return an error
--     or panic, with one function for each checked step (`assert!`, `unwrap`, checked arithmetic).
--   Bits: the digits of words under `&`, `|`, `^`, `!` and shifts.
--   Bitmap: bitmap.rs. `entries` and `used_bits_count` are the fields; Bitmap.Contents reads the bits,
--     Bitmap.Methods, Bitmap.Resize and Bitmap.Iter are about the operations.
--   Id.Tracker, Id.Hander: tracker.rs and hander.rs.
--   LinkedList, StackList: linkedlist.rs and stacklist.rs, as sequences from the head on.
--   Pmm: pmm/src/lib.rs; Pmm.Power: the functions on powers of two of the core library. Pmm.Buddy:
--     buddy.rs, with Blocks (addresses and buddies), Weight (sums over the free blocks), Disband, Coalesce,
--     Find, Valid (the invariant), Allocate, Free, Trace (sequences of calls) and Flaws.
--   Slab: slab/src/internal.rs, with Slab.Single for a slab on its own; Slab.Heap: slab/src/heap.rs.
--   Paging: Flags (flags.rs and kernel/src/mem/paging.rs), PageSize (page_size.rs), Pat (pat.rs), Entry (with
--     Laws, ReadBack and Taint) and Ranges (kernel/src/arch/x86_64/paging/mod.rs).
--     Paging.Tables: `PageTable` of the same file, with Words (the entries that lead to tables), Tree (the
--     shape of the tables and the walk), Create and Loop (the tables that miss), Index, Translate, Refine (equal
--     lookups), Others, Fresh and Present (a page that is not mapped and one that is), Unmap and Gone.
--     Pmm.Buddy.Supply is what they need of the page allocator.
--     Paging.Manager: `PagingManager` of kernel/src/mem/paging.rs, with `map_pages_to`, `unmap_pages` and
--     `translate` of kernel/src/arch/x86_64/mod.rs, and Allocate, Single, Many and Flaws.
--   Vaa: kernel/src/mem/vaa.rs.
--   SpinLock: spinlock.rs, as steps of threads; SpinLock.Exclusion.
--   Bitfield: the structs of the crate modular_bitfield, of 32 and of 64 bits, a parameter of the drivers'
--     definitions.
--   Apic.Modes: the enums of kernel/src/arch/x86_64/apic/mod.rs. Apic.IoApic: ioapic.rs, with Registers,
--     Routes, Mapping and Bounds. Apic.Lapic: lapic.rs, with Registers (the enums and the entry of the local
--     vector table), Timer, Lints, Config (`config_lints`) and Command.
--   Acpi: the checksum of boot/src/acpi/mod.rs; Acpi.Checksum: rsdp.rs; Acpi.Madt: madt.rs, with Entries (the
--     entries as data, their bytes, and what they do) and Parse. A table is the list of its bytes.
--   Interrupts: interrupts.rs, with Table and Routing.
--   Hpet: hpet.rs, with Hpet.Timer for its timers, Cycles and Configure. ApicTimer: drivers/src/timer/apic.rs,
--     with Configure.
--   Cpu: the registers of kernel/src/arch/x86_64/cpu/mod.rs and cpu/msr.rs. Gdt: gdt.rs, with Selectors.
--   Hypervisor: svm/mod.rs, with Codes (what makes a guest exit), Intercepts and Block (the control block),
--     Asids (the identifiers that are handed out), Guest (the set-up of one) and Start (the extension, and
--     guests one after another).
--   Tests: the theorems applied to concrete states.
--
-- How code becomes definitions. A record stands for a struct and a data type for an enum; a method that
-- changes its object returns the changed one beside its result. Addresses, identifiers and words are natural
-- numbers, and a machine word has its bounds and its wrap-around written out. A loop is a function on the
-- rounds that are left: `disband_loop`, `coalesce_loop`, `find_bucket_loop` and `allocate_loop` get the
-- length of the source's range, so that no round is missing. `break_loop` and `map_in_entry` are on fuel,
-- since each round uses up a page at least: a fuel of one for each page is enough. `parse` of madt.rs is on
-- fuel too: more rounds than entries are enough, and a table with an entry of length 0 may need more than any
-- number. Sanity checks and overflow checks are those of the development profile. A table is named by its
-- physical address, and memory is a function of table and index. The registers of a device are a function of
-- their index or offset; they keep what is written, but for the interrupt status of the HPET. The pages of
-- registers that the APIC code maps are named by their physical address. The loop of `lock` is not a function
-- but a step, which a thread can take again and again.
--
-- What is not modelled. The timers and clocks beside these, the measurement of a timer's frequency, inline
-- assembly, descriptors loaded into the processor, the boot loader's memory map, the firmware tables beside
-- the root pointer and the interrupt controllers, of the hypervisor the page for the host's state and nested
-- paging beyond its flag, and the logger; of the lists their nodes and links; of the locks the memory
-- orderings; of the local APICs that their registers differ from processor to processor. The calls of
-- `map_pages` in the APIC code and in `map_in_entry` are taken to succeed: of the former only the address is
-- kept, of the latter the list of pages that it maps. The overflow of powers of two in buddy.rs is left out:
-- the number of zones grows with the logarithm of the memory. Memory from outside a component is an argument:
-- the pages that `allocate_pages` returns for the slab allocator, the register that `cpuid` returns, and
-- `align_offset` of the core library.
pub mod Tests
pub mod Common
pub mod Bits
pub mod Bitmap
pub mod Id
pub mod LinkedList
pub mod Pmm
pub mod Paging
pub mod Vaa
pub mod StackList
pub mod Slab
pub mod SpinLock
pub mod Bitfield
pub mod Apic
pub mod Acpi
pub mod Interrupts
pub mod Hpet
pub mod ApicTimer
pub mod Hypervisor
pub mod Cpu
pub mod Gdt
