-- ===== src/Msg/Send.antt =====
-- What `psend` does on each of its branches.
use domin_os.Base.{ℕ, ◌≤◌, ◌<◌, ◌≡◌, ◌≢◌, none, some, [], arith, ◌>>=◌}
use domin_os.Word.{neg}
use domin_os.Queue.{Ptr}
use domin_os.Queue.Spec.{last?, init_of}
use domin_os.Kernel.{MQueue, Kernel}
use domin_os.Kernel.Lists.{nb_queue}
use domin_os.Msg.{put_mqueue, add_msg, set_msg_val, done, psend_loop, psend}
use domin_os.Kernel.Sched.{set_task_ready_or_running}

module _ (id msg : ℕ) (k : Kernel) (q : MQueue) (here : k.mqueues id ≡ some q)
    (ok : id < nb_queue) where
  -- With room in the queue and no receiver a message goes to the end of the queue.
  pub psend-add :
      q.receivers ≡ []
      → q.count < q.size
      → msg ≢ neg 1
      → psend id msg k
        ≡ some (done 0, put_mqueue id (some (add_msg msg q)) (set_msg_val k.current msg k))
  unfolding psend last?
  psend-add r room m = ground arith

  -- `psend` of the message -1 to a queue with no waiting receiver returns 0 and stores
  -- nothing, whether the queue is full or not.
  pub psend-lost :
      q.receivers ≡ [] → msg ≡ neg 1 → psend id msg k ≡ some (done 0, set_msg_val k.current msg k)
  unfolding psend last?
  psend-lost r m = ground arith

  -- `psend` on a queue with waiting receivers takes the last of them out, gives it the message
  -- and makes it ready, and stores nothing in the queue.
  pub psend-hand :
      (t : Ptr)
      → last? q.receivers ≡ some t
      → psend id msg k ≡ (
          set_task_ready_or_running t (
            set_msg_val t msg
              (put_mqueue id (some (record q { receivers = init_of q.receivers })) k))
          >>= λ k1. some (done 0, k1))
  unfolding psend
  psend-hand t r = ground (arith, r)

-- A queue number outside the table is not refused: the call reads beyond `mqueues`.
pub psend-outside : (id msg : ℕ) (k : Kernel) → nb_queue ≤ id → psend id msg k ≡ none
unfolding psend
psend-outside id msg k h = ground arith

-- An unused queue number is refused, and nothing changes.
pub psend-unused :
    (id msg : ℕ) (k : Kernel)
    → id < nb_queue
    → k.mqueues id ≡ none
    → psend id msg k ≡ some (done (neg 1), k)
unfolding psend
psend-unused id msg k h e = ground arith

-- A sender that was blocked when its queue was deleted reads through the null entry when it runs.
pub psend_loop-none :
    (id msg rst : ℕ) (k : Kernel) → k.mqueues id ≡ none → psend_loop id msg rst k ≡ none
unfolding psend_loop
psend_loop-none id msg rst k e = ground arith

-- A sender that a receiver has relieved of its message returns 0 and stores nothing more.
pub psend_loop-taken :
    (id msg : ℕ) (k : Kernel) (q : MQueue)
    → k.mqueues id ≡ some q
    → id < nb_queue
    → (k.task k.current).msg_val ≡ neg 1
    → psend_loop id msg k.cpt_rst k ≡ some (done 0, k)
unfolding psend_loop
psend_loop-taken id msg k q e h m = ground arith
