-- ===== src/Msg/Preceive.antt =====
-- `preceive` of kernel/msg.c, in parts that end at its context switch, and the value that it writes
-- through its pointer argument.
use domin_os.Base.{ℕ, ◌&&◌, not, Option, none, some, ◌==◌, if◌then◌else◌, ◌>>=◌}
use domin_os.Word.{neg, int_lt}
use domin_os.Queue.{Ptr}
use domin_os.Queue.Spec.{last?, init_of}
use domin_os.Kernel.{MQueue, Kernel}
use domin_os.Kernel.Sched.{set_task_ready_or_running, set_task_interrupted_msg}
use domin_os.Msg.{
  get_mqueue, mqueue_at, put_mqueue, is_empty, is_full, add_msg, pop_msg, set_msg_val, Reply, done,
  blocked, wait_in,
}

-- The call's reply, what it stored in `*message`, and the state.
abbrev pub Received : Type 0
Received = Option (Reply × Option ℕ × Kernel)

-- The message that a woken sender `last` leads to, with the queue and the state before it is made
-- ready; `q` is the queue without it.
unfoldable pub take_from : Ptr → ℕ → MQueue → Kernel → Option (ℕ × Kernel)
unfolding pop_msg add_msg
take_from last id q k =
    if is_full q && not ((k.task last).msg_val == neg 1)
    then (pop_msg q >>= λ (msg, q1).
        some (
          msg,
          set_msg_val last (neg 1) (put_mqueue id (some (add_msg (k.task last).msg_val q1)) k),
        ))
    else if is_empty q
    then some ((k.task last).msg_val, set_msg_val last (neg 1) (put_mqueue id (some q) k))
    else (pop_msg q >>= λ (msg, q1). some (msg, put_mqueue id (some q1) k))

-- The end of `preceive`, with the sender that `queue_out` gave it.
unfoldable pub preceive_take : ℕ → MQueue → Option Ptr → Kernel → Received
unfolding take_from
preceive_take id q none k = do
  (msg, q1) ← pop_msg q
  some (done 0, some msg, put_mqueue id (some q1) k)
preceive_take id q (some last) k = do
  (msg, k1) ← take_from last id (record q { senders = init_of q.senders }) k
  k2 ← set_task_ready_or_running last k1
  some (done 0, some msg, k2)

-- From "Test pdelete et preset" on.
unfoldable pub preceive_end : ℕ → ℕ → Kernel → Received
unfolding get_mqueue preceive_take
preceive_end id rst k = do
  entry ← get_mqueue id k
  elim entry [
    | none ↦ some (done (neg 1), none, k)
    | some q ↦
        if int_lt rst k.cpt_rst
        then some (done (neg 1), none, k)
        else if not ((k.task k.current).msg_val == neg 1)
        then some (done 0, some (k.task k.current).msg_val, set_msg_val k.current (neg 1) k)
        else preceive_take id q (last? q.senders) k
  ]

unfoldable pub preceive_block : ℕ → MQueue → Kernel → Received
unfolding wait_in
preceive_block id q k = do
  receivers ← wait_in q.receivers k
  k1 ←
      set_task_interrupted_msg k.current
        (put_mqueue id (some (record q { receivers = receivers })) k)
  some (blocked, none, k1)

-- The loop of `preceive`, from its test to the next one.
unfoldable pub preceive_loop : ℕ → ℕ → Kernel → Received
unfolding mqueue_at preceive_block preceive_end
preceive_loop id rst k = do
  q ← mqueue_at id k
  if is_empty q && ((k.task k.current).msg_val == neg 1)
      then preceive_block id q k
      else preceive_end id rst k

unfoldable pub preceive : ℕ → Kernel → Received
unfolding get_mqueue preceive_loop
preceive id k = do
  entry ← get_mqueue id k
  elim entry [
    | none ↦ some (done (neg 1), none, k)
    | some q ↦ preceive_loop id k.cpt_rst (set_msg_val k.current (neg 1) k)
  ]
