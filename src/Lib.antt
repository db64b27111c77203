-- ===== src/Lib.antt =====
-- Verification of the kernel of Shipwreck, a small 32-bit operating system for x86 PCs.
--
-- The program boots into a kernel (src/system) with up to 16 processes of 16 threads. Threads of a
-- process share locks and monitors (process.cpp); a timer interrupt switches between processes and
-- threads (scheduler.cpp). Interrupt handlers put messages in queues (std/queue.h) that kernel
-- workers empty (events.cpp). Windows form a stack that is drawn part by part (gui.cpp, on the
-- rectangles of gui/shapes.h). Files are read from a tar image on the disk (devices/tar.h), with
-- the string routines of string.cpp.
--
-- Files and what they model:
--   Base        numbers, lists, maps and integers that the others share.
--   Process     src/system/process.cpp (lock, unlock, monitor, unmonitor, notify) with
--               include/process.h, locks.h and threads.h. A thread is a number, which stands for
--               its address; the links `lock_next` and `runState` are a store of threads. `lock`,
--               `unlock`, `unmonitor` and `notify` run with interrupts off, so each is one step; what
--               others do between the statements of `monitor`, whose call of `lock` turns interrupts
--               on, is a parameter. What follows a `yield` is a function of its own.
--               `Locks` and `Turns` hold it against a lock that serves in order of arrival,
--               `Monitors` is about signals.
--   Scheduler   src/system/scheduler.cpp: get_next_proc, set_proc, get_next_thread, set_thread and
--               timer_interrupt, on the threads and monitors of Process.
--   CString     src/system/string.cpp: strnlen, strncmp, memcpy and memset, on a memory that is a
--               function from addresses to bytes.
--   Tar         src/system/include/devices/tar.h: TarHeader, TarFile and TarFS, on a disk that is a
--               parameter. A read returns the bytes that it stores; reads whose `int` counts are
--               negative are set apart. `Open` is about open, whose slots are a function of
--               their index.
--   Queue       src/include/std/queue.h: SharedQueue, whose counters are 16 bits wide; what other
--               threads do between a snapshot and its compare-and-swap is a parameter, one function
--               for each round. `run_worker` is CallbackWorker::run of src/system/events.cpp.
--               `Plain` is MsgQueue, with send_msg of src/system/process.cpp.
--   Gui         `Shapes` is src/include/gui/shapes.h, `Redraw` gui_redraw_rect of
--               src/system/gui.cpp, which yields the list of the draws in their order, and
--               `Stack` GUIWindowStack (push, insert, detach) on a store of linked windows.
--               `Boxes` of Redraw is GUITextBox::draw, where what stands behind the box is a
--               parameter. `Frames` has windows within windows (addChild, removeChild, move,
--               update_root); frames may be nested 256 deep, the number of windows there are.
--               `Update` has the windows as processes describe them (gui_update_proc,
--               gui_redraw_proc).
--   Ps2         `Mouse` is mouse_packet of src/system/devices/ps2.cpp, which puts packets of three
--               bytes together; what it hands to new_user_event is a list, in order.
--               `Keyboard` is scan_to_ascii of src/system/include/devices/ps2.h with its table and
--               static variables, and keyboard_packet.
--   Syscall     src/system/syscall.cpp: the table of file handles, with what the file system and
--               a file's own method return as parameters. `Dispatch` has the wrappers of
--               src/include/system.h and src/system/api/system.cpp with do_syscall, where what
--               the calls do to the kernel is the parameter `Kernel`. `Sync` is the calls on
--               locks, monitors and threads, with new_user_thread of src/system/threads.cpp.
--   Bitset      src/include/std/bitset.h, bitops.h and pool.h: BitAllocator on its words, where the
--               bits are found one by one by `Marks`, and the indices of PoolAllocator.
--   Elf         src/system/include/elfparser.h. What elf.h lays down is the parameter `Abi`, the
--               system calls are the parameter `Api`. `Symbols` is about the lookup of a function;
--               a walk of a hash chain may take one round more than there are chain entries.
--   Events      src/system/events.cpp: UserEventWorker on the windows of Gui and the queue of Queue,
--               subscriptions with nodes from the pool of Bitset, and the draws of DisplayWorker.
--   Vga         src/system/devices/vga.cpp: rectangles, bitmaps and characters in the frame buffer.
--               The BIOS's bitmaps of characters are a parameter. With it `Paint` of Gui/Redraw is
--               about what a redraw puts on the screen, `Pick` and `Named` about update_pick_buf.
--   Memory      src/system/memory.cpp: pages of physical memory and where they are mapped. The outer
--               loop of virt_alloc_pages has one round more than there are words, since each
--               round locks a word; the inner one has 32.
--   Printing    src/include/std/string.h: the sprint functions. A number has at most 32 digits.
--   Text        src/include/gui/objects.h: TextBox, whose ring of characters `Cells` and `Page`
--               hold against a page without end. `Terminal` is src/include/gui/terminal.h, GUITerminal: the keys that
--               come while a read waits are a parameter, a list for each round.
--   Tests       the theorems at concrete inputs.
--
-- Bounds. A `uint` or `ushort` wraps where the code adds to it (2 ^ 32, 2 ^ 16); an `int` is ℤ
-- where no sum leaves its range. Loops over links take fuel: the walk to the last waiter has 256,
-- the number of threads there are, which is enough for any queue of distinct threads; the search
-- for a file has as many rounds as it is given, and its theorem says which number is enough. The
-- hash of a symbol's name reads at most 2 ^ 32 bytes, all that there are.
--
-- Not modelled: registers, ports and interrupt controllers, which are hardware; page faults and the
-- set-up of memory, which are hardware state; debug output; the assembly of the boot loader. So are
-- enter_kernel and the creation of processes. The desktop's picture is still to come. elf.h is not in the
-- repository.
pub mod Base
pub mod Gui
pub mod Process
pub mod Scheduler
pub mod CString
pub mod Tar
pub mod Queue
pub mod Ps2
pub mod Syscall
pub mod Bitset
pub mod Elf
pub mod Events
pub mod Vga
pub mod Memory
pub mod Printing
pub mod Text
pub mod Tests
