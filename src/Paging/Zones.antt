-- ===== src/Paging/Zones.antt =====
-- The loop of `map_zone`, and the test of an address that a program gives: kernel/paging.c.
use domin_os.Base.{
  ℕ, zero, suc, ◌+◌, ◌-◌, ◌*◌, ◌/◌, ◌%◌, true, false, leb, some, [], ◌==◌, ◌≡◌, sym, ap, subst, ◌∙◌,
  ◌≢◌, ◌≤◌, ◌<◌, ◌⊎◌, inl, inr, arith, Bool-cases, length, Ensures, Ensures-bind, Ensures-mono,
}
use domin_os.Paging.{
  Memory, pd_index, pt_index, align, with_present, map_page, map_from, map_zone, is_user_addr,
}
use domin_os.Paging.Tables.{WellMapped, Mapped, entry_at, translate, map_page-Mapped}

-- Two pages have their entries at different places.
pub other_entry :
    (v n : ℕ)
    → v % 4096 ≡ 0
    → (pd_index v ≢ pd_index (v + suc n * 4096)) ⊎ (pt_index v ≢ pt_index (v + suc n * 4096))
other_entry v n a = elim (Bool-cases (pd_index v == pd_index (v + suc n * 4096))) [
  | inr e ↦ inl (ground arith)
  | inl e ↦ inr (λ q. ground arith)
]

-- The `n + 1` pages from `virt` on have the entries of the pages from `phy` on, and no other page is
-- changed.
pub record ZoneMapped (dir virt n phy flags : ℕ) (mem mem1 : Memory) : Type 0 where
  pub formed : WellMapped dir mem1
  pub mapped :
      (m : ℕ)
      → m ≤ n
      → translate dir (virt + m * 4096) mem1 ≡ some (phy + m * 4096 + with_present flags)
  pub others :
      (k j : ℕ)
      → ((m : ℕ) → m ≤ n → (k ≢ pd_index (virt + m * 4096)) ⊎ (j ≢ pt_index (virt + m * 4096)))
      → entry_at dir k j mem1 ≡ entry_at dir k j mem

pub shift_page : (v m : ℕ) → v + 4096 + m * 4096 ≡ v + suc m * 4096
shift_page v m = omega arith

one-ZoneMapped :
    (dir virt phy flags : ℕ) (mem mem1 : Memory)
    → Mapped dir virt (some (phy + with_present flags)) mem mem1
    → ZoneMapped dir virt 0 phy flags mem mem1
one-ZoneMapped dir virt phy flags mem mem1 p = record {
  formed = p.formed;
  mapped = λ m h.
      let z : m ≡ 0 = omega arith in
      let v : virt + 0 * 4096 ≡ virt = omega arith in
      let w : phy + 0 * 4096 ≡ phy = omega arith in rw (z, v, w) p.mapped;
  others = λ k j d.
      let v : virt + 0 * 4096 ≡ virt = omega arith in
      p.others k j (subst (λ x. (k ≢ pd_index x) ⊎ (j ≢ pt_index x)) v (d 0 (omega arith)));
}

more-ZoneMapped :
    (dir virt n phy flags : ℕ) (mem mem1 mem2 : Memory)
    → virt % 4096 ≡ 0
    → Mapped dir virt (some (phy + with_present flags)) mem mem1
    → ZoneMapped dir (virt + 4096) n (phy + 4096) flags mem1 mem2
    → ZoneMapped dir virt (suc n) phy flags mem mem2
more-ZoneMapped dir virt n phy flags mem mem1 mem2 a p z = record {
  formed = z.formed;
  mapped = λ m h.
      elim m
          as (λ m.
            m ≤ suc n
            → translate dir (virt + m * 4096) mem2 ≡ some (phy + m * 4096 + with_present flags)) [
              | zero ↦ λ h.
                  let v : virt + 0 * 4096 ≡ virt = omega arith in
                  let w : phy + 0 * 4096 ≡ phy = omega arith in
                  rw (v, w)
                    (z.others (pd_index virt) (pt_index virt)
                        (λ i g. rw (shift_page virt i) (other_entry virt i a))
                      ∙ p.mapped)
              | suc m ↦ λ h.
                  rw (sym (shift_page virt m), sym (shift_page phy m)) (z.mapped m (omega arith))
            ]
        h;
  others = λ k j d.
      let v : virt + 0 * 4096 ≡ virt = omega arith in
      z.others k j (λ i g. rw (shift_page virt i) (d (suc i) (omega arith)))
      ∙ p.others k j (subst (λ x. (k ≢ pd_index x) ⊎ (j ≢ pt_index x)) v (d 0 (omega arith)));
}

pub map_from-ZoneMapped :
    (n fuel dir virt phy flags : ℕ) (mem : Memory)
    → WellMapped dir mem
    → flags < 4096
    → virt % 4096 ≡ 0
    → phy % 4096 ≡ 0
    → n < length mem.free_pages
    → n + 1 < fuel
    → Ensures
        (ZoneMapped dir virt n phy flags mem)
        (map_from fuel dir virt (virt + n * 4096) phy flags mem)
unfolding map_from
map_from-ZoneMapped n zero dir virt phy flags mem w s a b l f = ground arith
map_from-ZoneMapped n (suc zero) dir virt phy flags mem w s a b l f = ground arith
map_from-ZoneMapped zero (suc (suc fuel)) dir virt phy flags mem w s a b l f =
    let go : leb virt (virt + 0 * 4096) ≡ true = ground arith in
    let stop : leb (virt + 4096) (virt + 0 * 4096) ≡ false = ground arith in
    rw go (
      Ensures-bind (Mapped dir virt (some (phy + with_present flags)) mem) _ _ _
        (map_page-Mapped dir virt phy flags mem w s b (λ e. ground (arith, ap length e)))
        λ mem1 p. rw stop (one-ZoneMapped dir virt phy flags mem mem1 p))
map_from-ZoneMapped (suc n) (suc (suc fuel)) dir virt phy flags mem w s a b l f =
    let go : leb virt (virt + suc n * 4096) ≡ true = ground arith in
    rw go (
      Ensures-bind (Mapped dir virt (some (phy + with_present flags)) mem) _ _ _
        (map_page-Mapped dir virt phy flags mem w s b (λ e. ground (arith, ap length e)))
        λ mem1 p.
          Ensures-mono (ZoneMapped dir (virt + 4096) n (phy + 4096) flags mem1) _ _
            (rw (sym (shift_page virt n)) (
              map_from-ZoneMapped n (suc fuel) dir (virt + 4096) (phy + 4096) flags mem1 p.formed s
                (omega arith) (omega arith) (omega (arith, p.left)) (omega arith)))
            λ mem2 z. more-ZoneMapped dir virt n phy flags mem mem1 mem2 a p z)

pub map_zone-ZoneMapped :
    (fuel dir virt_start virt_end phy_start phy_end flags : ℕ) (mem : Memory)
    → WellMapped dir mem
    → flags < 4096
    → virt_start ≤ virt_end
    → virt_end - virt_start ≡ phy_end - phy_start
    → virt_end / 4096 - virt_start / 4096 < length mem.free_pages
    → virt_end / 4096 - virt_start / 4096 + 1 < fuel
    → Ensures
        (ZoneMapped dir
          (align virt_start)
          (virt_end / 4096 - virt_start / 4096)
          (align phy_start)
          flags
          mem)
        (map_zone fuel dir virt_start virt_end phy_start phy_end flags mem)
unfolding map_zone
map_zone-ZoneMapped fuel dir vs ve ps pe flags mem w s o same l f =
    let n = ve / 4096 - vs / 4096 in
    let equal : (ve - vs == pe - ps) ≡ true = ground arith in
    let end : align ve ≡ align vs + n * 4096 = omega arith in
    rw (equal, end)
      (map_from-ZoneMapped n fuel dir (align vs) (align ps) flags mem w s (omega arith)
        (omega arith) l f)

is_user_addr-translate :
    (dir virt : ℕ) (mem : Memory) (entry : ℕ)
    → translate dir virt mem ≡ some entry
    → is_user_addr dir virt mem ≡ (entry / 4 % 2 == 1)
unfolding is_user_addr
is_user_addr-translate dir virt mem entry e = ground arith

-- After `map_page` under the same conditions, `is_user_addr` holds of the address exactly if the
-- flag US was given.
pub is_user_addr-map_page :
    (dir virt phy flags : ℕ) (mem : Memory)
    → WellMapped dir mem
    → flags < 4096
    → phy % 4096 ≡ 0
    → mem.free_pages ≢ []
    → Ensures
        (λ mem1. is_user_addr dir virt mem1 ≡ (flags / 4 % 2 == 1))
        (map_page dir virt phy flags mem)
is_user_addr-map_page dir virt phy flags mem w s a free =
    Ensures-mono (Mapped dir virt (some (phy + with_present flags)) mem) _ _
      (map_page-Mapped dir virt phy flags mem w s a free)
      λ mem1 p.
        is_user_addr-translate dir virt mem1 (phy + with_present flags) p.mapped
        ∙ ap (λ b. b == 1) (omega arith)
