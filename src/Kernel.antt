-- ===== src/Kernel.antt =====
-- The process state of the kernel: `struct task` of kernel/task.h, the lists of kernel/task.c, and
-- the message queues of kernel/msg.c. A task is named by its address. A queue is the list of the
-- tasks that its ring links, from the head's `next` to its `prev` (`Queue.Refine` shows that the
-- pointer operations are these list operations), so a task's `tasks` link is null exactly when the
-- task is in none of the lists. `none` is a panic or a fault.
pub mod Lists
pub mod Facts
pub mod Invariant
pub mod Sched
pub mod Tests
use domin_os.Base.{ℕ, Bool, Option, List}
use domin_os.Queue.{Ptr}

pub data TaskState : Type 0 where
  startup running ready sleeping zombie interrupted_sem interrupted_msg interrupted_io
        interrupted_child :
      TaskState

pub record Task : Type 0 where
  pub pid : ℕ
  pub comm : List ℕ
  pub state : TaskState
  pub parent : Ptr
  pub priority : ℕ
  pub wake_time : ℕ
  pub retval : ℕ
  pub msg_val : ℕ
  pub first_start : Bool

-- `struct mqueue`; the chain of `struct msg` from `head` to `tail` is the list of their data.
pub record MQueue : Type 0 where
  pub msgs : List ℕ
  pub size : ℕ
  pub count : ℕ
  pub senders : List Ptr
  pub receivers : List Ptr

-- `queues s` is the list of state `s`: `tasks_ready_queue`, `tasks_sleeping_queue`,
-- `tasks_zombie_queue` and `tasks_interrupted_child_queue`. The other states have none. `current` is
-- `__running_task`, `idle` is `__idle`; `freed` lists the tasks that `free_task` gave back.
pub record Kernel : Type 0 where
  pub task : Ptr → Task
  pub current : Ptr
  pub idle : Ptr
  pub queues : TaskState → List Ptr
  pub global_list : List Ptr
  pub children : Ptr → List Ptr
  pub total_ticks : ℕ
  pub mqueues : ℕ → Option MQueue
  pub cpt_rst : ℕ
  pub pid_used : ℕ → Bool
  pub freed : List Ptr
