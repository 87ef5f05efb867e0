-- ===== src/Lib.antt =====
-- missy-kernel: the i386 kernel's memory management, interrupt tables, display and strings.
--
-- The kernel starts in two stages. The early stage (kernel/init) reads the boot loader's memory
-- map, builds a bitmap of physical 4 KiB blocks in kernel/init/init/memory/kmemlow.c, and lets
-- kernel/init/init/memory/paging.c allocate page tables from it and turn paging on. The kernel
-- proper then takes the bitmap over in kernel/arch/i386/balloc.c and maps heap pages in
-- kernel/arch/i386/pagemngr.c, on which memory.c moves the program break and libc's malloc.c keeps
-- its list of free blocks; cpu.c, pic.c and display.c beside them drive the processor's interrupt
-- table, the interrupt controllers and the text display, to which libc's vprintf.c prints.
--
-- Base        words of 8, 16 and 32 bits as numbers with the wrap-around written out, Boolean
--             tests, memory as a function from addresses, bits and masks of numbers, lists.
-- Bitmap      the bitmap that balloc.c and kmemlow.c both search: mark, clear and the search for
--             the first clear bit. Bitmap/Search specifies that search.
-- BootInfo    the records and the function table of kernel/init/include/init/multiboot/multiboot.h
--             that kmemlow.c calls through. The driver is a parameter, a record of operations on
--             a state of its own.
-- Mboot       kernel/init/init/multiboot/mboot.c and the calls of api.c that reach it: the driver
--             for the first multiboot standard, which fills the interface of BootInfo.
-- Mboot2      kernel/init/init/multiboot/mboot2.c, by function name: the driver for the second
--             standard. Mboot2/Tags has the tag list as data, and its bytes in memory.
-- Multiboot   kernel/init/init/multiboot/api.c: the choice between the two drivers, and the
--             interface of BootInfo for the one that is installed. Multiboot/Boot puts it together
--             with Kmemlow.
-- Kmemlow     kernel/init/init/memory/kmemlow.c, by function name.
-- Paging      kernel/init/init/memory/paging.c, by function name, with the processor's two-level
--             translation in Paging/Walk as the independent description.
-- Balloc      kernel/arch/i386/balloc.c, by function name.
-- Pagemngr    kernel/arch/i386/pagemngr.c, by function name, on physical memory, with the same
--             translation in Paging/Walk as its description.
-- Brk         kernel/arch/i386/memory.c, by function name, on Balloc and Pagemngr.
-- Malloc      libc/stdlib/malloc.c, by function name, on Brk.
-- Pic         kernel/arch/i386/pic.c, by function name. What a port answers is a parameter.
-- Cpu         kernel/arch/i386/cpu.c, by function name. It installs into a table of gates and uses
--             Pic.
-- Display     kernel/arch/i386/display.c, by function name. The writes to I/O ports are a list.
-- Timer       kernel/arch/i386/timer.c, by function name, on Cpu.
-- Serial      kernel/arch/i386/serial.c, by function name, on Cpu. What the reads of the port answer
--             is a parameter.
--             Serial/Device registers the port as a device of Chrdev.
-- Chrdev      kernel/kernel/chrdev.c, by function name, on Malloc and Printf. Chrdev/Chain has the
--             list of devices that the inodes in memory stand for. A call through a pointer of a
--             device goes through a parameter, which says what the function at an address does.
-- Kinit       kernel/init/init/kinit.c, by function name: the early start as one sequence. It also
--             prints the two messages that kmemlow.c and paging.c print in every build, since their
--             models have no terminal.
-- Kernel      kernel/kernel/kernel.c, panic.c and version.c and libc/stdlib/abort.c, by function name:
--             the start of the kernel, its echo of the serial port, and the panic.
-- Kterm       kernel/init/init/kterm.c, by function name: the early terminal and its printer.
--             Kterm/Format has the items of a format and their rendering.
-- Printf      libc/stdio, by function name, on Display. Printf/Format has the items of a format and
--             their rendering.
-- Itoa        kernel/kernel/itoa.c and the number printer of kernel/init/init/kutils.c. Itoa/Text
--             and Itoa/Numeral have the numeral of a number, Itoa/Glyphs a table of the glyphs.
-- Strings     kernel/init/init/kutils.c and libc/string on memory, a byte per address.
--
-- State is passed explicitly: a record holds a file's static variables and the memory that it
-- writes. A pointer is its address, NULL is 0, and `errno` and `kinit_errno` are fields. A C loop
-- with a bound is recursion on the number of rounds left. `kmemlow_init_allocator` loops until
-- the driver ends the map and takes fuel for that loop; one more than the number of the map's
-- entries is enough. A loop over a string takes fuel too, and one more than its length is enough;
-- so do the walk over the tags of a boot structure, where one more than their number is enough, the
-- printers, where a round for each item of the format and one for each character is, and the walk
-- through the list of free blocks of the heap, where one more than the blocks passed over is. The
-- serial port is polled with fuel for as many reads as it may take to become ready; a walk through the
-- character devices takes two more than there are devices, and the echo one round more than there
-- are characters. A variable
-- argument list is the words on the stack by index.
--
-- A function that loops without end is modelled up to that loop, and the addresses of functions and
-- texts, which the linker gives, are arguments.
--
-- The bitmap of the allocators, the page tables, video memory and the strings are stores of their
-- own, so that a model says nothing of a write of one part over the memory of another; the heap, the
-- inodes, the devices and the texts of the kernel share one store. Casts and arithmetic of the
-- source wrap where its types do; addresses inside one object do not.
--
-- Not modelled: the assembly entry points and the linker script, and kernel/arch/i386/kbinput.c, which
-- has no code. A map tag of the second standard that gives 0 as the size of an entry and a timer
-- frequency of 0, by which the source divides, are not modelled either, nor what a build with
-- DEBUG_BUILD prints.
pub mod Base
pub mod Bitmap
pub mod Balloc
pub mod BootInfo
pub mod Kmemlow
pub mod Paging
pub mod Display
pub mod Pic
pub mod Cpu
pub mod Strings
pub mod Itoa
pub mod Mboot
pub mod Pagemngr
pub mod Mboot2
pub mod Multiboot
pub mod Kterm
pub mod Printf
pub mod Brk
pub mod Malloc
pub mod Serial
pub mod Timer
pub mod Chrdev
pub mod Kinit
pub mod Kernel
