-- ===== src/Msg/Tests.antt =====
-- Runs of the message queues, and the theorems at a kernel with two of them.
use domin_os.Base.{◌≡◌, refl, true, none, some, [], ◌∷◌, map, arith, Ensures, ◌>>=◌}
use domin_os.Queue.Spec.{last?}
use domin_os.Word.{neg}
use domin_os.Kernel.{MQueue, Kernel}
use domin_os.Kernel.Tests.{small}
use domin_os.Msg.{put_mqueue, new_mqueue, add_msg, set_msg_val, done, pcreate, psend, psend_loop}
use domin_os.Msg.Preceive.{preceive}
use domin_os.Msg.Control.{pdelete, preset, pcount}
use domin_os.Msg.Send.{psend-add, psend-outside, psend_loop-none}
use domin_os.Msg.Receive.{preceive-pop, send_all, receive_all, receive_all-send_all}
use domin_os.Msg.Manage.{
  Created, pcreate-Created, Deleted, pdelete-Deleted, preset-capacity, psend_loop-other_deleted,
}

-- A queue for three messages that holds 7 and 8, and an empty one.
abbrev held : MQueue
held = record { msgs = 7 ∷ 8 ∷ []; size = 3; count = 2; senders = []; receivers = [] }

abbrev fed : Kernel
fed = put_mqueue 0 (some held) (put_mqueue 1 (some (new_mqueue 4)) (small 5))

-- A queue at which task 3 waits for a message.
abbrev one_waits : MQueue
one_waits = record (new_mqueue 4) { receivers = 3 ∷ [] }

abbrev waited : Kernel
waited = put_mqueue 3 (some one_waits) (small 5)

creates : (pcreate 4 fed).0 ≡ 2
unfolding pcreate
creates = refl

refuses : (pcreate (neg 1) fed).0 ≡ neg 2
unfolding pcreate
refuses = refl

counts : pcount 0 true fed ≡ some (0, some 2)
unfolding pcount
counts = refl

sends : (psend 0 9 fed >>= λ r. preceive 0 r.1 >>= λ s. some s.1) ≡ some (some 7)
unfolding psend preceive last?
sends = refl

psend-add_example :
    psend 0 9 fed ≡ some (done 0, put_mqueue 0 (some (add_msg 9 held)) (set_msg_val 2 9 fed))
psend-add_example = psend-add 0 9 fed held refl (omega arith) refl (omega arith) (omega arith)

psend-outside_example : psend 25 1 fed ≡ none
psend-outside_example = psend-outside 25 1 fed (omega arith)

psend_loop-none_example : psend_loop 5 1 0 fed ≡ none
psend_loop-none_example = psend_loop-none 5 1 0 fed refl

preceive-pop_example :
    preceive 0 fed
    ≡ some (
      done 0,
      some 7,
      put_mqueue 0 (some (record held { msgs = 8 ∷ []; count = 1 })) (set_msg_val 2 (neg 1) fed),
    )
preceive-pop_example = preceive-pop 0 fed held refl (omega arith) 7 (8 ∷ []) refl (omega arith) refl

receive_all-send_all_example :
    Ensures
      (λ r. (r.0 ≡ map some (5 ∷ 6 ∷ 5 ∷ [])) × (r.1.mqueues 1 ≡ some (new_mqueue 4)))
      (send_all 1 (5 ∷ 6 ∷ 5 ∷ []) fed >>= receive_all 1 3)
receive_all-send_all_example =
    receive_all-send_all 1 (5 ∷ 6 ∷ 5 ∷ []) fed (new_mqueue 4) (omega arith) refl
      (record { counted = refl; no_senders = refl; no_receivers = refl }) refl (omega arith)
      (omega arith)

pcreate-Created_example : Created 4 fed (pcreate 4 fed)
pcreate-Created_example = pcreate-Created 4 fed

pdelete-Deleted_example : Ensures (Deleted 0 fed) (pdelete 0 fed)
pdelete-Deleted_example = pdelete-Deleted 0 fed held refl (omega arith) refl refl

preset-capacity_example :
    Ensures (λ r. (r.0 ≡ 0) × (r.1.mqueues 0 ≡ some (new_mqueue 2))) (preset 0 fed)
preset-capacity_example = preset-capacity 0 fed held refl (omega arith) refl refl

psend_loop-other_deleted_example :
    Ensures (λ r. r.0 ≡ done (neg 1)) (pdelete 1 fed >>= λ r. psend_loop 0 9 0 r.1)
psend_loop-other_deleted_example =
    psend_loop-other_deleted 0 1 9 fed held (new_mqueue 4) (omega arith) (omega arith) refl
      (omega arith) (omega arith) refl refl refl (omega arith)
