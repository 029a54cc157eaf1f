-- ===== src/Lib.antt =====
-- UmbralOS, a kernel for x86-64: a model of its C sources, and what holds of them.
--
-- Base/ has the shared names. Base/Word.antt casts to the fixed widths: a C integer is a native
-- number below its modulus. Base/Bits.antt has the laws of `&` and `|` by binary digits, and
-- Base/Fields.antt bit-fields and packed structs by the widths of their members. Base/Action.antt is
-- the monad of a call that reads and writes a state and may end in a panic (Base/Panics.antt has one
-- constructor for each message) or in a fault: an access outside an object, an argument of another
-- type, a device that no longer answers, a loop that no longer moves, or the processor stopped.
-- Base/Leaves.antt is about calls that leave a part of the state as it is.
--
-- Common.antt models src/common.c. Common/Str.antt has the string functions, over objects as lists
-- of bytes. Common/Print/Number.antt has `print_unsigned` with its buffer and its loop, and
-- Common/Print/Format.antt `print_escape` and `kprintv`; the state is the list of bytes that the
-- writer was given. What an uninitialised buffer holds is an argument. Console.antt has the writer
-- behind `kprint`, which gets all bytes of one `kprintv` at once, `panic` and `halt`;
-- Console/Messages.antt has the format and the arguments of every call of `panic`, and
-- Console/Lines.antt what goes out on the serial line for them. A component that prints is given its
-- printer as an argument. `panic` in a component ends its run with the constructor of the message,
-- and Kernel.antt (`settle`) then runs the body of `panic`.
--
-- Intel.antt models src/intel.c and src/intel.h. What a port, a register or device memory answers
-- is chosen outside: the answers stand in a list and are taken in order, and every access is
-- recorded, in order. Device models fold over the record (Intel/Device.antt).
--
-- Mm.antt models src/mm.c. Mm/Round.antt has the rounding. Mm/Pmm.antt has the page allocator: its
-- state is PMM_DATA with the bytes of the bitmap, and each function of the source is one definition
-- with its loops beside it. A loop recurs on the rounds left, and the number given is the one that
-- the loop's test allows. Limine.antt has what the code reads of the boot loader's memory map.
-- Mm/Vmm.antt has the page tables, as 64-bit words at virtual addresses, on top of the allocator;
-- Mm/Vmm/Boot.antt has `vmm_init`. Mm/Vmm/Walk.antt is the processor's walk: an upper entry that
-- takes a right from the kernel's accesses ends it, and the user bit is not combined over the levels.
-- Mm/Vmm/Tree.antt has the invariant that the tables form a tree. The bitmap and the words are apart in the state: the bitmap's own pages are
-- never handed out.
--
-- Pic.antt models src/drivers/pic: Pic/Legacy.antt has 8259.c, Pic/Ioapic.antt ioapic.c and
-- Pic/Lapic.antt lapic.c; their variables stand beside the page tables, which they extend. Serial.antt
-- models src/drivers/serial.c and Ps2.antt src/drivers/ps2.c; their polling loops take an answer each
-- round, so that they are given one round more than there are answers. Acpi.antt models
-- src/drivers/acpi over the bytes of the tables, which are an argument; the loop over the MADT's
-- records is given one round more than the table has bytes. Security.antt models src/security.c.
--
-- Gdt.antt models src/gdt.c, and Interrupt/Table.antt the table of src/interrupt.c with `load_idt`:
-- the entries are words with bit-fields. Kernel.antt puts the variables of all parts into one state,
-- and each part's calls act on its share. Interrupt/Handler.antt has `interrupt_handler` over that
-- state, and Interrupt/Handler/Named.antt the names of the exceptions by the processor's manual;
-- Interrupt/Sequence.antt has interrupts one after the other, as steps. Main.antt models src/main.c:
-- `fp_init` and the order of the start.
--
-- Not modelled: the assembler stubs, the boot loader and the frame buffer terminal, which are
-- arguments where the code calls them; an interrupt that arrives while other code runs; and what
-- `hlt` waits for, since the run ends there.
pub mod Base
pub mod Limine
pub mod Intel
pub mod Mm
pub mod Pic
pub mod Serial
pub mod Console
pub mod Gdt
pub mod Ps2
pub mod Kernel
pub mod Interrupt
pub mod Main
pub mod Acpi
pub mod Security
pub mod Common
