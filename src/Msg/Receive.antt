-- ===== src/Msg/Receive.antt =====
-- What `preceive` does on each of its branches, and the order in which messages leave a queue.
use domin_os.Base.{
  ℕ, zero, suc, ◌≤◌, ◌<◌, ◌+◌, ◌-◌, ◌≡◌, refl, ap, ◌∙◌, ◌≢◌, true, false, Option, some, List, [],
  ◌∷◌, ◌++◌, arith, ◌==◌, ◌>>=◌, All, length, length-append, Ensures, map, Ensures-bind,
  Ensures-mono,
}
use mathlib.Core.List.{append-nil, append_assoc}
use domin_os.Word.{neg}
use domin_os.Queue.Spec.{last?}
use domin_os.Kernel.{MQueue, Kernel}
use domin_os.Kernel.Lists.{nb_queue}
use domin_os.Msg.{put_mqueue, is_full, add_msg, set_msg_val, done, psend}
use domin_os.Msg.Preceive.{take_from, preceive, preceive_loop}
use domin_os.Msg.Send.{psend-add}

-- A message out and one in leave the count as it was.
refill :
    (q : MQueue) (v : ℕ) (ms : List ℕ)
    → q.count ≡ suc (length ms)
    → add_msg v (record q { msgs = ms; count = q.count - 1 }) ≡ record q { msgs = ms ++ (v ∷ []) }
unfolding add_msg
refill q v [] c = ground arith
refill q v (x ∷ ms) c = ground arith

-- When a receiver finds a sender waiting at a full queue, it gets the oldest message, and the
-- message of the sender goes to the end, so that the queue holds as many as before; the sender
-- is marked as relieved by -1.
pub take_from-full :
    (id : ℕ) (k : Kernel) (q : MQueue) (t v m : ℕ) (ms : List ℕ)
    → (k.task t).msg_val ≡ v
    → v ≢ neg 1
    → q.count ≡ q.size
    → q.msgs ≡ m ∷ ms
    → q.count ≡ suc (length ms)
    → take_from t id q k
      ≡ some
          (m, set_msg_val t (neg 1) (put_mqueue id (some (record q { msgs = ms ++ (v ∷ []) })) k))
unfolding take_from
take_from-full id k q t v m ms e n f g c =
    let full : is_full q ≡ true = ground arith in
    let moved = refill q v ms c in
    let keep : ((k.task t).msg_val == neg 1) ≡ false = ground arith in
    rw (full, keep, g)
      (rw e (ap (λ y. some (m, set_msg_val t (neg 1) (put_mqueue id (some y) k))) moved))

module _ (id : ℕ) (k : Kernel) (q : MQueue) (here : k.mqueues id ≡ some q)
    (ok : id < nb_queue) where
  -- With no sender waiting the oldest message leaves the queue.
  pub preceive-pop :
      (m : ℕ) (ms : List ℕ)
      → q.senders ≡ []
      → q.count ≢ 0
      → q.msgs ≡ m ∷ ms
      → preceive id k
        ≡ some (
          done 0,
          some m,
          put_mqueue id
              (some (record q { msgs = ms; count = q.count - 1 }))
              (set_msg_val k.current (neg 1) k),
        )
  unfolding preceive last?
  preceive-pop m ms s n e = ground arith

  -- A receiver that was handed a message other than -1 while it waited returns that message
  -- when it runs again, if no queue was deleted or reset meanwhile.
  pub preceive_loop-handed :
      (msg : ℕ)
      → (k.task k.current).msg_val ≡ msg
      → msg ≢ neg 1
      → preceive_loop id k.cpt_rst k ≡ some (done 0, some msg, set_msg_val k.current (neg 1) k)
  unfolding preceive_loop
  preceive_loop-handed msg e n = ground arith

-- The counter says how many messages are stored, and no task waits.
pub record IsQuiet (q : MQueue) : Type 0 where
  pub counted : q.count ≡ length q.msgs
  pub no_senders : q.senders ≡ []
  pub no_receivers : q.receivers ≡ []

-- A client that sends a list of messages, and one that receives `n`.
unfoldable pub send_all : ℕ → List ℕ → Kernel → Option Kernel
send_all id [] k = some k
send_all id (m ∷ ms) k = do (reply, k1) ← psend id m k; send_all id ms k1

unfoldable pub receive_all : ℕ → ℕ → Kernel → Option (List (Option ℕ) × Kernel)
receive_all id zero k = some ([], k)
receive_all id (suc n) k = do
  (reply, m, k1) ← preceive id k
  (rest, k2) ← receive_all id n k1
  some (m ∷ rest, k2)

-- The queue after the messages `ms`.
abbrev stored : MQueue → List ℕ → MQueue
stored q ms = record q { msgs = q.msgs ++ ms; count = q.count + length ms }

add_msg-stored : (q : MQueue) (m : ℕ) → IsQuiet q → add_msg m q ≡ stored q (m ∷ [])
unfolding add_msg
add_msg-stored q m quiet = go q.msgs refl
  where
    go : (ms : List ℕ) → q.msgs ≡ ms → add_msg m q ≡ stored q (m ∷ [])
    go [] e = ground (arith, quiet.counted, e)
    go (x ∷ ms) e = ground (arith, quiet.counted, e)

stored-IsQuiet : (q : MQueue) (m : ℕ) → IsQuiet q → IsQuiet (stored q (m ∷ []))
stored-IsQuiet q m quiet = record {
  counted = omega (arith, length-append q.msgs (m ∷ []), quiet.counted);
  no_senders = quiet.no_senders;
  no_receivers = quiet.no_receivers;
}

stored-stored :
    (q : MQueue) (m : ℕ) (ms : List ℕ) → stored (stored q (m ∷ [])) ms ≡ stored q (m ∷ ms)
stored-stored q m ms = ground (arith, append_assoc q.msgs (m ∷ []) ms)

put_stored :
    (id m : ℕ) (k : Kernel) (q : MQueue)
    → IsQuiet q
    → (put_mqueue id (some (add_msg m q)) (set_msg_val k.current m k)).mqueues id
      ≡ some (stored q (m ∷ []))
put_stored id m k q quiet = rw (add_msg-stored q m quiet) (ground arith)

send_all-stored :
    (id : ℕ) (ms : List ℕ) (k : Kernel) (q : MQueue)
    → id < nb_queue
    → k.mqueues id ≡ some q
    → IsQuiet q
    → All (λ m. m ≢ neg 1) ms
    → q.count + length ms ≤ q.size
    → Ensures (λ k1. k1.mqueues id ≡ some (stored q ms)) (send_all id ms k)
unfolding send_all
send_all-stored id [] k q ok here quiet fine room = ground (arith, append-nil q.msgs)
send_all-stored id (m ∷ ms) k q ok here quiet fine room =
    rw (psend-add id m k q here ok quiet.no_receivers (omega arith) fine.0) (
      Ensures-mono _ _ (send_all id ms _)
        (send_all-stored id ms _ (stored q (m ∷ [])) ok (put_stored id m k q quiet)
          (stored-IsQuiet q m quiet) fine.1 (omega arith))
        λ k1 e. e ∙ ap some (stored-stored q m ms))

receive_all-msgs :
    (id : ℕ) (ms : List ℕ) (k : Kernel) (q : MQueue)
    → id < nb_queue
    → k.mqueues id ≡ some q
    → IsQuiet q
    → q.msgs ≡ ms
    → Ensures
        (λ r. (r.0 ≡ map some ms) × (r.1.mqueues id ≡ some (record q { msgs = []; count = 0 })))
        (receive_all id (length ms) k)
unfolding receive_all
receive_all-msgs id [] k q ok here quiet e = (refl, here ∙ ground (arith, quiet.counted, e))
receive_all-msgs id (m ∷ ms) k q ok here quiet e =
    let n : q.count ≡ suc (length ms) = ground (arith, quiet.counted, e) in
    let q1 : MQueue = record q { msgs = ms; count = q.count - 1 } in
    let k1 = put_mqueue id (some q1) (set_msg_val k.current (neg 1) k) in
    let quiet1 : IsQuiet q1 = record {
      counted = omega arith;
      no_senders = quiet.no_senders;
      no_receivers = quiet.no_receivers;
    } in
    let last = receive_all-msgs id ms k1 q1 ok (ground arith) quiet1 refl in
    rw (preceive-pop id k q here ok m ms quiet.no_senders (omega arith) e)
      (Ensures-bind _ _ (receive_all id (length ms) k1) _ last λ r h. (ap (◌∷◌ (some m)) h.0, h.1))

-- Messages sent by `psend` to an empty queue at which no task waits, none of them -1 and no more
-- than its capacity, are received by as many calls of `preceive` in the order in which they were
-- sent, and the queue is again what it was.
pub receive_all-send_all :
    (id : ℕ) (ms : List ℕ) (k : Kernel) (q : MQueue)
    → id < nb_queue
    → k.mqueues id ≡ some q
    → IsQuiet q
    → q.msgs ≡ []
    → All (λ m. m ≢ neg 1) ms
    → length ms ≤ q.size
    → Ensures
        (λ r. (r.0 ≡ map some ms) × (r.1.mqueues id ≡ some q))
        (send_all id ms k >>= receive_all id (length ms))
receive_all-send_all id ms k q ok here quiet e fine room =
    Ensures-bind _ _ (send_all id ms k) _
      (send_all-stored id ms k q ok here quiet fine (ground (arith, quiet.counted, e)))
      λ k1 h.
        let quiet2 : IsQuiet (stored q ms) = record {
          counted = omega (arith, length-append q.msgs ms, quiet.counted);
          no_senders = quiet.no_senders;
          no_receivers = quiet.no_receivers;
        } in
        Ensures-mono _ _ (receive_all id (length ms) k1)
          (receive_all-msgs id ms k1 (stored q ms) ok h quiet2 (rw e))
          λ r g. (g.0, g.1 ∙ ground (arith, e, quiet.counted))
