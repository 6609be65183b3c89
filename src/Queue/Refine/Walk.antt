-- ===== src/Queue/Refine/Walk.antt =====
-- The iterators of queue.h visit the queue's elements, in order, and end.
use domin_os.Base.{ℕ, zero, suc, ◌<◌, ◌≡◌, false, some, List, [], ◌∷◌, arith, ◌==◌, length, Fresh}
use domin_os.Queue.{Ptr, Links, walk_next, queue_for_each, queue_out, queue_top}
use domin_os.Queue.Seg.{Seg, IsRing}
use domin_os.Queue.Spec.{last?}
use domin_os.Queue.Refine.Remove.{queue_out-last}

walk_next-Seg :
    (l : Links) (head : Ptr) (fuel : ℕ) (a : Ptr) (xs : List Ptr)
    → Seg l a xs head
    → Fresh head xs
    → length xs < fuel
    → walk_next l head fuel (l.next a) ≡ some xs
unfolding walk_next
walk_next-Seg l head zero a xs s d f = absurd (omega arith)
walk_next-Seg l head (suc fuel) a [] s d f = ground arith
walk_next-Seg l head (suc fuel) a (x ∷ xs) s d f =
    let off : (x == head) ≡ false = ground arith in
    rw (s.0, off) (ground (arith, walk_next-Seg l head fuel x xs s.2 d.1 (omega arith)))

-- `queue_for_each` visits exactly the elements of the queue, in order, and ends.
pub queue_for_each_lem :
    (l : Links) (head : Ptr) (fuel : ℕ) (xs : List Ptr)
    → IsRing l head xs
    → length xs < fuel
    → queue_for_each fuel head l ≡ some xs
unfolding queue_for_each
queue_for_each_lem l head fuel xs ring f =
    walk_next-Seg l head fuel head xs ring.chain ring.apart.0 f

-- `queue_top` is the element that `queue_out` would take.
pub queue_top-last :
    (l : Links) (head : Ptr) (xs : List Ptr) → IsRing l head xs → queue_top head l ≡ last? xs
unfolding queue_top queue_out
queue_top-last l head xs ring = ground (arith, (queue_out-last l head xs ring).value)
