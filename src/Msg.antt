-- ===== src/Msg.antt =====
-- The message queues of kernel/msg.c. An operation that blocks ends at the context switch: `blocked`
-- says that the task goes on with the loop's test when it is current again, and `adding` that it has
-- woken a receiver and goes on with `__add_msg`. `none` is a panic, a read outside the table of
-- queues, or one through its null pointer.
pub mod Preceive
pub mod Control
pub mod Send
pub mod Receive
pub mod Manage
mod Tests
use domin_os.Base.{
  ℕ, zero, suc, ◌+◌, ◌-◌, ◌%◌, Bool, true, false, ◌||◌, ◌&&◌, not, Option, none, some, List, [],
  ◌∷◌, ◌++◌, ltb, ◌==◌, if◌then◌else◌, length, ◌>>=◌,
}
use domin_os.Word.{word, neg, int_lt}
use domin_os.Queue.{Ptr}
use domin_os.Queue.Spec.{insert, last?, init_of}
use domin_os.Kernel.{interrupted_msg, ready, Task, MQueue, Kernel}
use domin_os.Kernel.Lists.{is_linked, prio_key, update_task, nb_queue}
use domin_os.Kernel.Sched.{set_task_state, set_task_ready_or_running, set_task_interrupted_msg}

-- `GET_MQUEUE_PTR(id)`, an `int` index into a table of NBQUEUE pointers.
unfoldable pub get_mqueue : ℕ → Kernel → Option (Option MQueue)
get_mqueue id k = if ltb id nb_queue then some (k.mqueues id) else none

-- The queue that `GET_MQUEUE_PTR(id)->` reads.
unfoldable pub mqueue_at : ℕ → Kernel → Option MQueue
unfolding get_mqueue
mqueue_at id k = get_mqueue id k >>= λ q. q

abbrev pub put_mqueue : ℕ → Option MQueue → Kernel → Kernel
put_mqueue id v k = record k { mqueues = λ i. if i == id then v else k.mqueues i }

abbrev pub is_empty : MQueue → Bool
is_empty q = q.count == 0

abbrev pub is_full : MQueue → Bool
is_full q = q.count == q.size

-- `first_available_queue`: the first unused index at or after `i`, of the `n` that are left.
unfoldable pub first_available : ℕ → ℕ → Kernel → Option ℕ
first_available zero i k = none
first_available (suc n) i k =
    let rest = first_available n (i + 1) k in elim (k.mqueues i) [ none ↦ some i | some q ↦ rest ]

abbrev pub new_mqueue : ℕ → MQueue
new_mqueue count = record { msgs = []; size = count; count = 0; senders = []; receivers = [] }

unfoldable pub alloc_mqueue : ℕ → ℕ → Kernel → Kernel
alloc_mqueue id count k = put_mqueue id (some (new_mqueue count)) k

unfoldable pub pcreate : ℕ → Kernel → ℕ × Kernel
unfolding first_available alloc_mqueue
pcreate count k =
    if int_lt 32767 count
    then (neg 3, k)
    else if not (int_lt 0 count)
    then (neg 2, k)
    else elim (first_available nb_queue 0 k) [
      | none ↦ (neg 1, k)
      | some id ↦ (id, alloc_mqueue id count k)
    ]

-- `__add_msg` and `__pop_msg`.
unfoldable pub add_msg : ℕ → MQueue → MQueue
add_msg msg q = record q {
  msgs = if q.count == 0 then msg ∷ [] else q.msgs ++ (msg ∷ []);
  count = q.count + 1;
}

abbrev pub pop_from : MQueue → List ℕ → Option (ℕ × MQueue)
pop_from q [] = none
pop_from q (m ∷ ms) = some (m, record q { msgs = ms; count = q.count - 1 })

unfoldable pub pop_msg : MQueue → Option (ℕ × MQueue)
pop_msg q = pop_from q q.msgs

abbrev pub set_msg_val : Ptr → ℕ → Kernel → Kernel
set_msg_val t v k = update_task t (λ x. record x { msg_val = v }) k

pub data Reply : Type 0 where
  done : ℕ → Reply
  blocked : Reply
  adding : Reply

-- `__add_msg(id, msg); return 0;`
unfoldable pub psend_add : ℕ → ℕ → Kernel → Option (Reply × Kernel)
unfolding add_msg mqueue_at
psend_add id msg k = do q ← mqueue_at id k; some (done 0, put_mqueue id (some (add_msg msg q)) k)

-- What `psend` does with the receiver that it finds when it stores its message.
unfoldable pub psend_wake : ℕ → ℕ → MQueue → Option Ptr → Kernel → Option (Reply × Kernel)
unfolding psend_add
psend_wake id msg q none k = psend_add id msg k
psend_wake id msg q (some last) k = do
  k1 ←
      set_task_ready_or_running last
        (put_mqueue id (some (record q { receivers = init_of q.receivers })) k)
  if k1.current == k.current then psend_add id msg k1 else some (adding, k1)

-- From "Test pdelete et preset" on; `rst` is the counter that the call began with.
unfoldable pub psend_end : ℕ → ℕ → ℕ → Kernel → Option (Reply × Kernel)
unfolding get_mqueue psend_wake
psend_end id msg rst k = do
  entry ← get_mqueue id k
  elim entry [
    | none ↦ some (done (neg 1), k)
    | some q ↦
        if int_lt rst k.cpt_rst
        then some (done (neg 1), k)
        else if (k.task k.current).msg_val == neg 1
        then some (done 0, k)
        else psend_wake id msg q (last? q.receivers) k
  ]

-- `queue_add(current(), queue, struct task, tasks, priority)` on a list of waiting tasks.
unfoldable pub wait_in : List Ptr → Kernel → Option (List Ptr)
wait_in ts k = if is_linked k.current k then none else some (insert (prio_key k) k.current ts)

-- The body of the loop of `psend`, up to the context switch.
unfoldable pub psend_block : ℕ → MQueue → Kernel → Option (Reply × Kernel)
unfolding wait_in
psend_block id q k = do
  senders ← wait_in q.senders k
  k1 ← set_task_interrupted_msg k.current (put_mqueue id (some (record q { senders = senders })) k)
  some (blocked, k1)

-- The loop of `psend`, from its test to the next one.
unfoldable pub psend_loop : ℕ → ℕ → ℕ → Kernel → Option (Reply × Kernel)
unfolding mqueue_at psend_block psend_end
psend_loop id msg rst k = do
  q ← mqueue_at id k
  if is_full q && not ((k.task k.current).msg_val == neg 1)
      then psend_block id q k
      else psend_end id msg rst k

-- The first receiver takes the message directly.
unfoldable pub psend_hand : ℕ → ℕ → MQueue → Option Ptr → Kernel → Option (Reply × Kernel)
unfolding psend_loop
psend_hand id msg q none k = psend_loop id msg k.cpt_rst (set_msg_val k.current msg k)
psend_hand id msg q (some last) k = do
  k1 ←
      set_task_ready_or_running last (
        set_msg_val last msg
          (put_mqueue id (some (record q { receivers = init_of q.receivers })) k))
  some (done 0, k1)

unfoldable pub psend : ℕ → ℕ → Kernel → Option (Reply × Kernel)
unfolding get_mqueue psend_hand
psend id msg k = do
  entry ← get_mqueue id k
  elim entry [ none ↦ some (done (neg 1), k) | some q ↦ psend_hand id msg q (last? q.receivers) k ]
