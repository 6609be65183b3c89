-- ===== src/Queue/Refine/Order.antt =====
-- The order of service, on the pointers: by priority, and in order of arrival among equals.
use domin_os.Base.{
  ℕ, ◌<◌, ◌≡◌, ◌∙◌, ◌≢◌, true, some, List, ◌∷◌, ltb, if◌then◌else◌, length, Fresh, Ensures,
}
use domin_os.Queue.{Ptr, null, Links, is_link_null, queue_add, queue_out}
use domin_os.Queue.Seg.{IsRing}
use domin_os.Queue.Spec.{last?, last?-insert, IsSorted}
use domin_os.Queue.Refine.Add.{queue_add-insert}
use domin_os.Queue.Refine.Remove.{queue_out-last}

-- After `queue_add` of a fresh element to a sorted ring with top `z`, with enough fuel,
-- `queue_out` returns the new element if its priority is above that of `z`, and `z` otherwise,
-- also when the two are equal.
pub queue_out-queue_add :
    (l : Links) (head : Ptr) (key : Ptr → ℕ) (e z : Ptr) (xs : List Ptr) (fuel : ℕ)
    → IsRing l head xs
    → IsSorted key xs
    → last? xs ≡ some z
    → e ≢ null
    → Fresh e (head ∷ xs)
    → is_link_null l e ≡ true
    → length xs < fuel
    → Ensures
        (λ l'. (queue_out head l').0 ≡ (if ltb (key z) (key e) then some e else some z))
        (queue_add key fuel e head l)
queue_out-queue_add l head key e z xs fuel ring sorted top ok new clear f =
    let (l', done, ring', same) = queue_add-insert l head key e xs fuel ring ok new clear f in
    rw done ((queue_out-last l' head _ ring').value ∙ last?-insert key e xs z sorted top)
