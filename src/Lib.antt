-- ===== src/Lib.antt =====
-- A model of the kernel of a capability system: the objects that its system calls work on, the
-- derivation tree of capabilities, and the memory that objects are made from.
--
-- The parts, each with the files that model it:
--
-- Base (Base.antt and Base/) holds what the others share: words of 64 bits with their wrap-around
-- written out, Boolean tests, lists measured by native numbers, and stores updated at an address.
-- Samples.antt is a small kernel state for the runs in the modules called Tests.
--
-- Sys.antt has the numbers of include/sys/syscall.h and include/sys/types.h: object types, errors,
-- system calls and rights. The names leave out `x86_64`.
--
-- Tag.antt is the message tag of include/sys/ipc.h with the replies of include/kern/syscall.h. A tag
-- keeps its bit fields; message_info_to_word and message_info_from_word pack them.
--
-- Cap.antt is include/kern/cap.h. A capability keeps its bit fields, and cap_word_0 is the word they
-- make: cap_ptr reads the pointer out of that word, as the source does. The selection by _Generic is
-- left out, since a slot's capability is its field `cap`.
--
-- Cdt.antt is kern/cdt.c: slots stand in a store by address, 0 is the null pointer, and next and prev
-- make a list. revoke_cap and delete_cap call each other; the fuel bounds the depth of the calls and
-- the rounds of the loop, and more fuel than there are slots behind the given one is enough.
--
-- ListHead.antt is include/list.h: nodes in a store by address, each within an object.
--
-- Kernel.antt is the state on one processor and the steps on it. Slots, list nodes, threads,
-- notifications, message buffers and frames have a store each; an address within an object names its
-- part, as the offset of the field does in C. A step ends with a result and a new state, in a failed
-- assertion, or without fuel. A null pointer that C follows without a check reads and writes the entry
-- at address 0. Printing is left out. There is one step at a time: do_syscall holds the
-- big kernel lock throughout.
--
-- CNode.antt is kern/obj/cnode.c with cte_for of include/kern/obj/cnode.h. Region.antt is
-- include/kern/size.h and untyped_contains. Untyped.antt is the rest of kern/obj/untyped.c: memset makes
-- every object that begins in the range zero, and the kernel panics where C asserts. create_objects
-- takes the size from its caller, where the source computes the same size again.
--
-- Threads.antt is kern/obj/tcb.c with include/kern/ipc.h. A frame keeps the two registers that carry
-- message tags. tcb_set_name, which copies a string, is an argument where it is called.
--
-- Endpoints.antt is kern/obj/endpoint.c, Signals.antt is kern/obj/notification.c, and Irq.antt is
-- kern/obj/irq.c. memcpy of a message copies words in the layout of struct ipc_buffer, so a message of
-- more than 504 words reaches the fields behind the message. The mask of the interrupt controller is a
-- flag for each interrupt.
--
-- IoPorts.antt and Pages.antt are kern/arch/x86_64/obj/io_port.c and page.c, the latter with the walk
-- of kern/arch/x86_64/mmu.c. The port instructions are an argument; page table entries stand in a store
-- by address.
--
-- Dispatch.antt and Dispatch/Devices.antt are include/kern/syscall_dispatch.c, and Syscalls.antt is
-- kern/syscall.c: op_syscall finds the slot and calls the objects above, and do_syscall writes the reply
-- to the frame of the thread that is then current.
--
-- Alloc.antt is kern/alloc.c: the array of regions is a store by index with the count, and a write behind
-- its 64 entries is an outcome. The fuel of the outer loop must exceed the pages of an extent, and 64
-- rounds are enough for the inner one, which halves a number below 2^64.
--
-- Strings.antt is lib/string.c, on a store of bytes by address; Numbers.antt is lib/num.c and
-- include/ctype.h. Print.antt and Print/Format.antt are lib/print.c: a stream is the list of the bytes
-- written to it, apart from the reports on standard output about unknown conversions, and the arguments
-- are slots of 64 bits. An overflow in strtol is an outcome. Chacha.antt is lib/chacha.c and lib/rng.c. Loops
-- that look for the end of a string take fuel, and more than its length is enough. CptrAlloc.antt is
-- lib/cptr_alloc.c: the bitmap is a store of words by index, its loops have the bounds of the code, and a
-- shift of an `int` by more than 30 places is an outcome.
--
-- Not modelled: what touches hardware (descriptor tables, interrupt controllers, PCI registers, inline
-- assembly), the boot code, the programs in user/, the locks, and the rest of lib/.
pub mod Base
pub mod Alloc
pub mod Strings
pub mod Numbers
pub mod Print
pub mod Chacha
pub mod CptrAlloc
pub mod Samples
pub mod Sys
pub mod Tag
pub mod Cap
pub mod Region
pub mod Cdt
pub mod ListHead
pub mod Kernel
pub mod CNode
pub mod Threads
pub mod Endpoints
pub mod Signals
pub mod Irq
pub mod IoPorts
pub mod Pages
pub mod Dispatch
pub mod Syscalls
pub mod Untyped
