-- ===== src/Hash/Fit.antt =====
-- Three slots that the functions of kernel/hash.c write: a key that is new, a key that is there and
-- one that is deleted.
use domin_os.Base.{
  ℕ, true, false, ◌≡◌, refl, sym, ap, subst, ◌∙◌, ◌≢◌, ◌<◌, inl, inr, arith, Bool-cases,
}
use domin_os.Hash.{Slot, deleted, active, HashMap, size_of}
use domin_os.Hash.Table.{IsTable, OnPath, Unbound}
use domin_os.Hash.Fill.{IsFit}

abbrev pub key_of : Slot → ℕ
key_of (active k v h) = k
key_of _ = 0

abbrev hash_of : Slot → ℕ
hash_of (active k v h) = h
hash_of _ = 0

module _ (map : HashMap) (w : IsTable map) (r : ℕ) where
  -- The key of a slot that is there, or of one on the way to a free slot.
  key-IsFit :
      (key value hash : ℕ)
      → hash ≡ map.hfunc key
      → OnPath map key r
      → ((j k' v' h' : ℕ)
          → j < size_of map
          → j ≢ r
          → map.table j ≡ active k' v' h'
          → map.cmp key k' ≡ false)
      → IsFit map r (active key value hash)
  key-IsFit key value hash e on other = record {
    hashed = λ k v h s. sym (ap hash_of s) ∙ e ∙ ap map.hfunc (ap key_of s);
    placed = λ k v h s. subst (λ x. OnPath map x r) (ap key_of s) on;
    single = λ k v h s j k' v' h' b n a.
        subst (λ x. map.cmp x k' ≡ false) (ap key_of s) (other j k' v' h' b n a);
  }

  pub new-IsFit :
      (key value : ℕ)
      → Unbound map key
      → OnPath map key r
      → IsFit map r (active key value (map.hfunc key))
  new-IsFit key value u on = key-IsFit key value (map.hfunc key) refl on (λ j k' v' h' b n a.
      elim (Bool-cases (map.cmp key k')) [
        | inl c ↦ absurd (ground (arith, u j k' v' h' b a, w.keying.cmp_symm key k' c))
        | inr c ↦ c
      ])

  pub old-IsFit :
      (key v value hash : ℕ)
      → r < size_of map
      → map.table r ≡ active key v hash
      → IsFit map r (active key value hash)
  old-IsFit key v value hash l e =
      key-IsFit key value hash (w.hashed r key v hash l e) (w.placed r key v hash l e)
        (λ j k' v' h' b n a. elim (Bool-cases (map.cmp key k')) [
          | inl c ↦ absurd (n (sym (w.unique r j key v hash k' v' h' l b e a c)))
          | inr c ↦ c
        ])

  pub deleted-IsFit : IsFit map r deleted
  deleted-IsFit = record {
    hashed = λ k v h s. cc;
    placed = λ k v h s. cc;
    single = λ k v h s j k' v' h' b n a. cc;
  }

  -- The slot of a key holds the key, and no other does.
  module _ (key k v h : ℕ) (l : r < size_of map) (a : map.table r ≡ active k v h)
      (same : map.cmp k key ≡ true) where
    pub old-here : (k' v' h' : ℕ) → map.table r ≡ active k' v' h' → map.cmp k' key ≡ true
    old-here k' v' h' e = subst (λ x. map.cmp x key ≡ true) (ap key_of (sym a ∙ e)) same

    pub old-other :
        (j k' v' h' : ℕ)
        → j < size_of map
        → j ≢ r
        → map.table j ≡ active k' v' h'
        → map.cmp k' key ≡ false
    old-other j k' v' h' b n e = elim (Bool-cases (map.cmp k' key)) [
      | inr d ↦ d
      | inl d ↦ absurd (
          n (
            w.unique j r k' v' h' k v h b l e a
              (w.keying.cmp_trans k' key k d (w.keying.cmp_symm k key same))))
    ]
