-- ===== src/Shm/Both.antt =====
-- One process makes a shared page of kernel/shm.c and another one takes it.
use domin_os.Base.{ℕ, ◌+◌, some, ◌≡◌}
use domin_os.Paging.Tables.{translate}
use domin_os.Shm.{Shm}

-- The other process has the page `p` at `v`, where the first one has it.
abbrev pub IsShared : ℕ → ℕ → ℕ → ℕ → ℕ → Shm → ℕ × Shm → Type 0
IsShared dir dir' p v page shm' r =
    (r.0 ≡ v)
    × (translate dir v shm'.mem ≡ some (p + 7))
    × (translate dir' v r.1.mem ≡ some (p + 7))
    × ((r.1.shps page).refcount ≡ 2)
