-- ===== src/Lib.antt =====
-- AI Aura OS: the kernel's core, its environment layer and its drivers.
--
-- The system is one C program that runs without an operating system. `kernel/kernel.c` initialises
-- every part and then calls the scheduler for ever; the parts share no lock, since tasks are
-- cooperative. Each part keeps its state in static variables. Here each part is a module with that state as
-- a record, one function for each C function, which takes the state and returns the new one beside the
-- C function's result.
--
-- Which file models what:
--
-- - Base: numbers, lists, tables of slots and circular buffers, as the other modules use them.
-- - CString: kernel/kstring.c (`strlen_k`, `strncpy_k`, `strncmp_k`).
-- - Bytes, Memory: kernel/memory.c. Bytes has `memset_k` and `memcpy_k`; Memory has the heap
--   (`memory_init`, `kmalloc`, `kfree`, `memory_stats`), whose block headers are cells at addresses.
-- - Status: the result codes of kernel/kernel.h.
-- - EventBus: kernel/eventbus.c, the handler table and the queue of events.
-- - Keyboard: kernel/keyboard.c, the scancode decoder and its ring buffer.
-- - Fs: env/fs.c, the virtual filesystem.
-- - Env: env/env.c, the registry of variables. Env/Disk has `env_save` and `env_load`, on the driver
--   of Fat12; the parser of `env_load` runs on a round for every byte and one more, which is enough.
-- - Fat12: env/fat12.c. Fat12 has the FAT entries, the cluster search and the names; Fat12/Volume has
--   the operations on a disk, whose sector read and write are parameters, and Fat12/Disk gives them by
--   adapters/ata.c. Fat12/Working says what a disk has to do.
-- - Scheduler: kernel/scheduler.c. Tasks are callbacks on the scheduler, the bus and the rest.
-- - Plugin: kernel/plugin.c. The callbacks of a plugin work on the plugins, the bus and the rest.
-- - Mirror: kernel/mirror.c, the snapshots; the counters of the other parts are arguments.
-- - Vga: kernel/vga.c, the text screen and the printing of strings and numbers.
-- - Idt, Pit, Paging: kernel/idt.c, kernel/pit.c and kernel/paging.c. Writes to ports are a
--   list. Idt/Stubs has the assembly stubs, on the registers and the stack.
-- - Loader: modules/loader.c, the registry of modules; the load functions are a parameter.
-- - Ata: adapters/ata.c, the disk driver; the controller is a parameter, and Ata/Drive says what it does.
-- - Serial: adapters/adapter_serial.c, the operations on COM1 and the poll that feeds the keyboard; the
--   port is a parameter, and Serial/Port says what it does. Serial/Adapter has adapters/adapter.h, the
--   plugin and its registration; `send_mirrored` is what the calls of the screen's hook do to the port.
-- - Modules: modules/aura_core.c, modules/mod_hello.c and adapters/aura_net.c, plugins whose callbacks work
--   on the plugin table, the bus and the screen.
-- - Listing: what kernel/menu.c, kernel/plugin.c, kernel/scheduler.c, kernel/mirror.c, kernel/idt.c,
--   env/fs.c, env/env.c and modules/loader.c print, as the calls of Vga/Output.
-- - Menu: kernel/menu.c, with `mirror_restore` of kernel/mirror.c and with `kernel_heartbeat`,
--   `kernel_panic` and `kernel_shutdown` of kernel/kernel.c, on a record of the parts.
-- - Boot: kernel/kernel.c, `kernel_main`, on a record of all parts and devices. The interrupts that are
--   taken between its calls are a parameter. The loop behind it is the relation `Reaches` of Menu/Runs.
--
-- Conventions. A `char *` is the list of the bytes from its address on, `none` for NULL; a read past the
-- list is a zero byte. A uint32_t or uint8_t is a natural number, with its wrap-around written out
-- where the code adds. An `int` result is an integer. A table slot is named by its index. Loops over an
-- array recur on the array or on the rounds left. The loops that follow pointers or drain a queue run
-- on fuel, and their theorems say how much is enough: more rounds than heap blocks for `kmalloc` and
-- `memory_stats`, more rounds than queued events for `eventbus_process`.
-- The waits of adapters/ata.c run for the rounds that the source gives them; the wait for the transmitter in
-- adapters/adapter_serial.c has no bound there, and more rounds than a byte takes are enough.
-- A call of the screen's hook is taken up in `sent` of the screen; Boot/Main makes what these calls do to the
-- serial port at the end of `kernel_main`, since nothing else reaches the port before.
--
-- Not modelled: the boot sector of bootloader/boot.asm; the instructions that load the gates' address,
-- enable interrupts or halt; an interrupt in the middle of a call; and the
-- accesses that `paging_init` makes to its own tables.
pub mod Ata
pub mod Base
pub mod Boot
pub mod Bytes
pub mod CString
pub mod Env
pub mod EventBus
pub mod Fat12
pub mod Fs
pub mod Idt
pub mod Keyboard
pub mod Listing
pub mod Loader
pub mod Memory
pub mod Menu
pub mod Mirror
pub mod Modules
pub mod Paging
pub mod Pit
pub mod Plugin
pub mod Scheduler
pub mod Serial
pub mod Status
pub mod Vga
