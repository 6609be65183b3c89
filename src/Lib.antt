-- ===== src/Lib.antt =====
-- dominOS is a small 32-bit x86 operating system: a kernel with processes, a priority scheduler,
-- message queues, shared memory and paging (kernel/), code that the kernel and the programs
-- share (shared/), and a user library and shell (user/). This library models the core of its C
-- code and proves what the parts promise. Paths below are those of the repository.
--
-- - Base: numbers, tests, lists, predicates on lists, and the monad of computations that may
--   fault (`Ensures` is total correctness in it).
--
-- - Word: `int` and `unsigned` values as bit patterns below 2 ^ 32, with the signed order.
--
-- - Queue (shared/queue.h): the circular doubly linked lists, on their pointers. `Links` holds
--   the `prev` and `next` of every link; queue_add, queue_del, queue_out, queue_top and the
--   iterators are functions of the same name. Queue.Spec is the abstract queue, a list sorted by
--   priority; Queue.Refine relates the pointer operations to it. The walks take fuel: more than
--   the length of the queue is enough, and is a hypothesis.
--
-- - Kernel (kernel/task.h, kernel/task.c, kernel/clock.c): the tasks and their lists. `Kernel`
--   is the state that the C files keep in static variables and in `struct task`; a task is named
--   by its address and a queue is the list of its tasks, as in Queue.Spec. Kernel.Lists has the
--   macros of queue.h on this state, Kernel.Sched the state changes, try_wakeup_tasks,
--   reap_zombies and schedule. A context switch sets `current`. Assertions are active in the
--   build, so a failed one is a fault.
--
-- - Msg (kernel/msg.c): the message queues. An operation that blocks is cut at its call of
--   schedule, and goes on with psend_loop or preceive_loop when its task runs again.
--   Msg.Preceive and Msg.Control hold the other operations; Msg.Send, Msg.Receive and Msg.Manage
--   prove.
--
-- - Process (kernel/exit.c, kernel/kill.c, kernel/prio.c, kernel/wait.c,
--   kernel/pid_allocator.c): the calls that end, reprioritise and wait for processes, on the
--   state of Kernel. A wait that blocks is cut at its call of schedule, after which the same
--   pass is made again. alloc_pid takes fuel, of which 33 is enough.
--
-- - Console (kernel/cga.c): the cursor, the colour and the video memory, whose cells are a
--   function of their offset, without a bound, so that a write outside the screen would show.
--
-- - Keyboard (kernel/kbd.c): the ring of characters between the keyboard interrupt and
--   cons_read, with the echo to the console. A read that waits is cut there. The fuel counts the
--   characters read; more than the line has is enough.
--
-- - Paging (kernel/paging.c): the page tables, on the words of the pages. An address is below 2
--   ^ 32, so that no conversion changes one. The loops take fuel; two more than the number of
--   pages after the first is enough.
--
-- - Hash (kernel/hash.c): the open addressing table. A slot is named by its index and the table
--   is a function of the index. Hash.Cycle and Hash.Order are about the probe sequence,
--   Hash.Table has the invariant and what a search finds, Hash.Models the abstract map,
--   Hash.Map, Hash.Set and Hash.Delete the operations on it, Hash.Text the predefined functions.
--   The search takes fuel: the number of slots and seven are enough; a resize needs that for
--   twice the number. The tables of the theorems have fewer than 2 ^ 29 slots, so that no
--   product overflows.
--
-- - Shm (kernel/shm.c): the shared pages, over Hash and Paging. Shm.Slots is the allocator of
--   virtual addresses, Shm.Pages and Shm.Counts have the invariant of the pages and what the
--   operations do to it, Shm.Share and Shm.Release the operations, Shm.Both a page that two
--   processes have. The zone of a call is one page, for which three steps of fuel are enough.
--
-- - PageAllocator (kernel/page_allocator.c): the buddy allocator of physical pages.
--   PageAllocator.Cover counts in how many free blocks an address is; PageAllocator.Blocks is
--   about buddies, PageAllocator.Bits about sizes, PageAllocator.Scan and PageAllocator.Split
--   about the two loops of an allocation. The loops take a step for each size.
--
-- - Start (kernel/start.c): the stack that start_task makes for a process, over Paging;
--   Start.Stack compares the addresses that the kernel writes with those that the process sees.
--   The loop of map_zone has at most ten passes here, and 16 steps of fuel.
--
-- Not modelled: the rest of the start of processes, the kernel memory allocator, and the system
-- call table (kernel/start.c, kernel/mem.c, kernel/syscall_handler.c); boot, ports, disk,
-- debuggers and formatted output, which keep no state of the kernel; and the code of other
-- projects in the repository (shared/malloc.c, shared/doprnt.c, kernel/kbd-linux, most of
-- shared/string.c).
pub mod Base
pub mod Console
pub mod Hash
pub mod Kernel
pub mod Keyboard
pub mod Msg
pub mod PageAllocator
pub mod Paging
pub mod Process
pub mod Queue
pub mod Shm
pub mod Start
pub mod Word
