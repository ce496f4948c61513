-- ===== src/Lib.antt =====
-- The kernel of literateOS (32-bit x86), as far as its C++ sources go.
--
-- The source spells some identifiers in several ways and would not compile as it stands; a misspelled
-- name is read as the declared name that it stands for.
--
-- What is modelled, by file:
--   Memory.Physical    Kernel/src/arch/x86/pyhsicalallocator.cpp: the bitmap of physical blocks.
--     `Physical` holds the globals, and each function is the function of the same name. The children
--     say what the search finds (Search), what allocating and freeing do (Alloc), and in which state
--     the initialisation leaves the allocator (Init).
--   Memory.Paging      Kernel/src/arch/x86/paging.cpp and Kernel/include/arch/x86/paging.h: entries of
--     page tables (Frames), mapping, translation and freeing of pages (Mapping), the search for
--     runs of free pages (Allocate), and what the page fault handler tells (Fault).
--     `Memory.Spaces` has several page directories and the allocator together: the current
--     directory and
--     `CreateAddressSpace` (Sharing), and pages that are mapped one by one to new blocks (Backing).
--   LinkedList         Kernel/include/list.h: nodes at addresses. `Chain` and `Walk` are about the nodes,
--     `Operations` and `Access` about each operation, `Refine` about calls of all of them but
--     `clear` and
--     the destructor, which behave as the plain sequence of `Sequence`, and `Release` about what
--     `clear` frees.
--   Scheduler          Kernel/src/arch/x86/scheduler.cpp: processes at addresses, the ready queue as
--     the circular list through `next` (Ring), messages (Messages), the timer tick (Tick), creation,
--     ELF loading and end of processes (Lifecycle), handles (Handles) and the start (Startup). Lists of
--     messages, handles and descriptors are plain lists here, as `LinkedList.Refine` allows;
--     clearing the
--     descriptors, which can follow a stale pointer, is an operation of the memory that can be a
--     fault. `System` has
--     the operations that the kernel calls as the steps of one relation; that the first process
--     never exits
--     is a condition of the theorems on it: its children are about the steps that add a process
--     (Entry), change one (InPlace) or remove one (Leave), about any sequence of steps (Laws),
--     also from
--     the start on (Reached), and about what becomes of a message (Delivery) and of the turns of
--     the processes (Turns).
--     System.Booted starts it on the memory that the set-up of the hardware leaves.
--     Ring.Round is the abstract view of the queue, a quotient that forgets from which process
--     it is seen;
--     System.Rounds says what creating and ending a process means for it.
--   Syscall            Kernel/src/arch/x86/syscall.cpp: the table and dispatcher (Table), the calls on
--     files (Files), on messages (Ipc), on processes (Processes), on memory (Memalloc), on windows
--     (Windows, with the copy of a surface row by row in Surfaces), and those that only look something
--     up (Info).
--   Terminal           Kernel/src/tty/pty.cpp and Kernel/include/pty.h: the list of terminals and granting,
--     which is undefined (Laws), the callbacks of their files (Callbacks) and their names (Names).
--   Interrupts         Kernel/src/arch/x86/idt.cpp: the interrupt table (Gates) and the two dispatchers
--     (Dispatch); Kernel/src/arch/x86/timer.cpp: the clock and its divisor (Timer).
--   Devices            Kernel/src/arch/x86/keyboard.cpp, mouse.cpp, vga.cpp, pci.cpp and gdt.cpp, each
--     in the child of its name, with the set-up of the mouse in Mouse.Install; the inline functions of
--     Kernel/include/fat32.h (Fat) and ahci.h (Ahci).
--   Layout             the packed structures of the headers Kernel/include/ahci.h (Ahci), fat32.h, tar.h,
--     gpt.h and initrd.h (Disk), mischdr.h and arch/x86/elf.h (Boot), arch/x86/gdt.h, idt.h and pci.h
--     (Descriptors), as lists of members on memory by bits. `Fields` is about loads and stores
--     of members,
--     Ahci.Registers about the ports of a disk controller, Descriptors.Tables about gates.
--   Hal                Kernel/src/arch/x86/hal.cpp with hal.h and Kernel/include/mischdr.h: the order in which
--     the parts are set up. `Laws` says in which state they are then, and when reading
--     the boot loader's memory map is a page fault; Memory.Paging.Allocate.InOrder has the
--     addresses of the pages that the kernel is given one after another.
--   Machine            Kernel/src/arch/x86/sse2.cpp with sse2.asm (Copy), cpuid.cpp (Cpuid) and serial.cpp
--     (Serial).
--   Common             library names, Boolean tests, lists over native numbers, bits of machine words,
--     and `Run`, the result of code that may follow a bad pointer or loop.
--
-- How the parts interact: `Hal` sets them up in the source's order; an interrupt reaches its handler
-- through Kernel/src/arch/x86/idt.cpp; the timer's handler calls the scheduler's tick, and the system
-- call handler locks the scheduler, runs the handler that the table has, and unlocks it. The scheduler
-- calls the memory functions through the interface `MemoryOps`, on a memory state of its own;
-- `Scheduler.Lifecycle.KernelMemory` fills it with the kernel's allocator and page tables. The
-- terminals stand in a list of `LinkedList`.
--
-- Machine words are native numbers below 2 ^ 32, with the wrap-around written out. `fault` stands
-- for undefined behaviour: a null or dangling pointer, a call through a null pointer, an index
-- outside a table, the missing return of List::remove_at, GetNextPTY and ReadConfig. A system call
-- without a return gives its caller whatever was there, which is an argument. Loops over a linked
-- list run on fuel; a theorem that says that such a loop ends asks for more fuel than the list has
-- nodes, the waits for the serial port and for an AHCI port run on fuel as well, for which the
-- port has to answer within that many reads; and the loop over the boot loader's memory map for
-- more than the bytes of the map, since every entry advances by at least one.
--
-- Parameters: what the source calls and does not define (MarkMemoryRegionFree, GDT::Initialize,
-- AHCI::Init, the file system's nodes and their callbacks, the methods of CharacterBuffer,
-- kmalloc, strtok, the memcpy of SysWrite, the clearing of a list of descriptors in memory), and
-- the contents of memory that other programs filled (the memory map, ELF headers).
--
-- Not modelled: output to the screen, assembly other than the copy loops and the switch of the
-- stack itself, declarations without code (the classes of the disk controllers and file systems,
-- USB, ACPI), and the headers of the 64-bit port, which has no code.
pub mod Common
pub mod Devices
pub mod Hal
pub mod Interrupts
pub mod Layout
pub mod LinkedList
pub mod Machine
pub mod Memory
pub mod Scheduler
pub mod Syscall
pub mod Terminal
