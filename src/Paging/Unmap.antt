-- ===== src/Paging/Unmap.antt =====
-- The loop of `unmap_zone`: kernel/paging.c.
use domin_os.Base.{
  ℕ, zero, suc, ◌+◌, ◌-◌, ◌*◌, ◌/◌, ◌%◌, true, false, leb, none, ◌≡◌, sym, subst, ◌∙◌, ◌≢◌, ◌≤◌,
  ◌<◌, ◌⊎◌, arith, Ensures, Ensures-mono,
}
use domin_os.Paging.{Memory, pd_index, pt_index, align, unmap_page, unmap_from, unmap_zone}
use domin_os.Paging.Tables.{WellMapped, Mapped, entry_at, translate, unmap_page-Mapped}
use domin_os.Paging.Zones.{other_entry, shift_page}

-- The `n + 1` pages from `virt` on have no entry, and no other page is changed.
pub record ZoneUnmapped (dir virt n : ℕ) (mem mem1 : Memory) : Type 0 where
  pub formed : WellMapped dir mem1
  pub unmapped : (m : ℕ) → m ≤ n → translate dir (virt + m * 4096) mem1 ≡ none
  pub others :
      (k j : ℕ)
      → ((m : ℕ) → m ≤ n → (k ≢ pd_index (virt + m * 4096)) ⊎ (j ≢ pt_index (virt + m * 4096)))
      → entry_at dir k j mem1 ≡ entry_at dir k j mem

one-ZoneUnmapped :
    (dir virt : ℕ) (mem mem1 : Memory)
    → Mapped dir virt none mem mem1
    → ZoneUnmapped dir virt 0 mem mem1
one-ZoneUnmapped dir virt mem mem1 p =
    let v : virt + 0 * 4096 ≡ virt = omega arith in
    record {
      formed = p.formed;
      unmapped = λ m h. let z : m ≡ 0 = omega arith in rw (z, v) p.mapped;
      others = λ k j d.
          p.others k j (subst (λ x. (k ≢ pd_index x) ⊎ (j ≢ pt_index x)) v (d 0 (omega arith)));
    }

more-ZoneUnmapped :
    (dir virt n : ℕ) (mem mem1 mem2 : Memory)
    → virt % 4096 ≡ 0
    → Mapped dir virt none mem mem1
    → ZoneUnmapped dir (virt + 4096) n mem1 mem2
    → ZoneUnmapped dir virt (suc n) mem mem2
more-ZoneUnmapped dir virt n mem mem1 mem2 a p z =
    let v : virt + 0 * 4096 ≡ virt = omega arith in
    record {
      formed = z.formed;
      unmapped = λ m h.
          elim m as (λ m. m ≤ suc n → translate dir (virt + m * 4096) mem2 ≡ none) [
            | zero ↦ λ h. rw v (
                z.others (pd_index virt) (pt_index virt)
                  (λ i g. rw (shift_page virt i) (other_entry virt i a))
                ∙ p.mapped)
            | suc m ↦ λ h. rw (sym (shift_page virt m)) (z.unmapped m (omega arith))
          ]
            h;
      others = λ k j d.
          z.others k j (λ i g. rw (shift_page virt i) (d (suc i) (omega arith)))
          ∙ p.others k j (subst (λ x. (k ≢ pd_index x) ⊎ (j ≢ pt_index x)) v (d 0 (omega arith)));
    }

unmap_from-ZoneUnmapped :
    (n fuel dir virt : ℕ) (mem : Memory)
    → WellMapped dir mem
    → virt % 4096 ≡ 0
    → n + 1 < fuel
    → Ensures (ZoneUnmapped dir virt n mem) (unmap_from fuel dir virt (virt + n * 4096) mem)
unfolding unmap_from
unmap_from-ZoneUnmapped n zero dir virt mem w a f = ground arith
unmap_from-ZoneUnmapped n (suc zero) dir virt mem w a f = ground arith
unmap_from-ZoneUnmapped zero (suc (suc fuel)) dir virt mem w a f =
    let go : leb virt (virt + 0 * 4096) ≡ true = ground arith in
    let stop : leb (virt + 4096) (virt + 0 * 4096) ≡ false = ground arith in
    rw (go, stop) (one-ZoneUnmapped dir virt mem _ (unmap_page-Mapped dir virt mem w))
unmap_from-ZoneUnmapped (suc n) (suc (suc fuel)) dir virt mem w a f =
    let go : leb virt (virt + suc n * 4096) ≡ true = ground arith in
    let p = unmap_page-Mapped dir virt mem w in
    rw go (
      Ensures-mono (ZoneUnmapped dir (virt + 4096) n (unmap_page dir virt mem)) _ _
        (rw (sym (shift_page virt n)) (
          unmap_from-ZoneUnmapped n (suc fuel) dir (virt + 4096) (unmap_page dir virt mem) p.formed
            (omega arith) (omega arith)))
        λ mem2 z. more-ZoneUnmapped dir virt n mem (unmap_page dir virt mem) mem2 a p z)

-- `unmap_zone` in well-formed tables, with enough fuel, ends: no page that the zone touches has
-- an entry, no other entry of the directory is changed, and the tables are well formed.
pub unmap_zone-ZoneUnmapped :
    (fuel dir virt_start virt_end : ℕ) (mem : Memory)
    → WellMapped dir mem
    → virt_start ≤ virt_end
    → virt_end / 4096 - virt_start / 4096 + 1 < fuel
    → Ensures
        (ZoneUnmapped dir (align virt_start) (virt_end / 4096 - virt_start / 4096) mem)
        (unmap_zone fuel dir virt_start virt_end mem)
unfolding unmap_zone
unmap_zone-ZoneUnmapped fuel dir vs ve mem w o f =
    let n = ve / 4096 - vs / 4096 in
    let end : align ve ≡ align vs + n * 4096 = omega arith in
    rw end (unmap_from-ZoneUnmapped n fuel dir (align vs) mem w (omega arith) f)
