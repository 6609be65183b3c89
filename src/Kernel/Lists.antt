-- ===== src/Kernel/Lists.antt =====
-- Links of tasks: membership, unlinking, insertion by priority, and the updates of one task, as the
-- macros of shared/queue.h and the helpers of kernel/task.c do them on lists.
use mathlib.Core.Option
use domin_os.Base.{
  ℕ, zero, suc, Bool, true, false, ◌||◌, Option, none, some, List, [], ◌∷◌, ◌==◌, if◌then◌else◌,
}
use domin_os.Queue.{Ptr}
use domin_os.Queue.Spec.{insert}
use domin_os.Word.{rank}
use domin_os.Kernel.{
  TaskState, startup, running, ready, sleeping, zombie, interrupted_sem, interrupted_msg,
  interrupted_io, interrupted_child, Task, MQueue, Kernel,
}

abbrev pub has : Ptr → List Ptr → Bool
has t [] = false
has t (x ∷ xs) = (t == x) || has t xs

unfoldable pub erase : Ptr → List Ptr → List Ptr
erase t [] = []
erase t (x ∷ xs) = if t == x then xs else x ∷ erase t xs

-- The TASK_ constants.
abbrev pub state_code : TaskState → ℕ
state_code startup = 0x00
state_code running = 0x01
state_code ready = 0x02
state_code sleeping = 0x03
state_code zombie = 0x04
state_code interrupted_sem = 0x05
state_code interrupted_msg = 0x06
state_code interrupted_io = 0x07
state_code interrupted_child = 0x08

abbrev pub same_state : TaskState → TaskState → Bool
same_state a b = state_code a == state_code b

-- Whether task.c keeps a list for the state.
abbrev pub is_queued : TaskState → Bool
is_queued ready = true
is_queued sleeping = true
is_queued zombie = true
is_queued interrupted_child = true
is_queued _ = false

abbrev pub nb_queue : ℕ
nb_queue = 20

-- Whether `t` waits at one of the first `n` message queues.
unfoldable pub waits_below : ℕ → Ptr → (ℕ → Option MQueue) → Bool
waits_below zero t qs = false
waits_below (suc n) t qs =
    elim (qs n) [ none ↦ false | some q ↦ has t q.senders || has t q.receivers ]
    || waits_below n t qs

-- Whether the `tasks` link of `t` is in a list.
unfoldable pub is_linked : Ptr → Kernel → Bool
is_linked t k =
    has t (k.queues ready)
    || (has t (k.queues sleeping)
        || (has t (k.queues zombie)
            || (has t (k.queues interrupted_child) || waits_below nb_queue t k.mqueues)))

unfoldable pub erase_msg : Ptr → MQueue → MQueue
unfolding erase
erase_msg t q = record q { senders = erase t q.senders; receivers = erase t q.receivers }

-- Out of whichever list holds it.
unfoldable pub unlinked : Ptr → Kernel → Kernel
unfolding erase erase_msg
unlinked t k = record k {
  queues = λ s. erase t (k.queues s);
  mqueues = λ i. Option.map (erase_msg t) (k.mqueues i);
}

-- `queue_del(t, tasks)`; the assertion fails on a null link.
unfoldable pub del_tasks : Ptr → Kernel → Option Kernel
unfolding is_linked unlinked
del_tasks t k = if is_linked t k then some (unlinked t k) else none

-- The order of `priofield` when it is `priority`.
abbrev pub prio_key : Kernel → Ptr → ℕ
prio_key k t = rank (k.task t).priority

abbrev pub update_task : Ptr → (Task → Task) → Kernel → Kernel
update_task t f k = record k { task = λ p. if p == t then f (k.task p) else k.task p }

abbrev pub set_state : TaskState → Task → Task
set_state s t = record t { state = s }

unfoldable pub insert_in : TaskState → Ptr → Kernel → Kernel
insert_in s t k = record k {
  queues = λ p. if same_state p s then insert (prio_key k) t (k.queues p) else k.queues p;
}

-- `queue_add(t, queue, struct task, tasks, priority)` for the list of `s`; the assertion fails on a
-- link that is not null.
unfoldable pub add_tasks : TaskState → Ptr → Kernel → Option Kernel
unfolding is_linked insert_in
add_tasks s t k = if is_linked t k then none else some (insert_in s t k)

abbrev pub state_of : Kernel → Ptr → TaskState
state_of k t = (k.task t).state
