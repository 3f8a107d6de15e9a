-- ===== src/Mm/Vmap/Serve.antt =====
-- mm/vmap.cc: what `vmap_io_range` leaves behind, with an address and without one.
use davix.Prelude.{
  ℕ, ◌+◌, ◌-◌, ◌*◌, ◌/◌, ◌%◌, ◌≤◌, ◌<◌, ◌≡◌, ◌⊎◌, Bool, false, Option, none, some, ltb, leb, ◌==◌,
  ◌&&◌, ◌||◌, if◌then◌else◌,
}
use davix.Prelude.Words.{word_mod, add64}
use davix.Dsl.VmaTree.Entries.{entries}
use davix.Dsl.VmaTree.Insert.{link_in}
use davix.Mm.Vmap.Guard.{IsGuarded}
use davix.Mm.Vmap.Map.{Vmap}
use davix.Mm.Vmap.Limits.{Covers}

-- Only addresses of areas are mapped.
abbrev pub IsBacked : Vmap → Type 0
IsBacked s = (a : ℕ) → (s.ptes a ≡ none) ⊎ Covers a (entries s.tree)

-- What a successful call has done: `whole` bytes at `addr` are a new area, mapped from `base` on.
pub record Placed (whole low high base addr : ℕ) (s t : Vmap) : Type 0 where
  pub guarded : IsGuarded whole low high addr (entries s.tree)
  pub area : entries t.tree ≡ link_in addr (addr + whole - 1) 0 (entries s.tree)
  pub pages :
      (i : ℕ) → i < whole / 4096 → t.ptes (addr + i * 4096) ≡ some ((base + i * 4096) % word_mod)
  pub others : (a : ℕ) → (a < addr) ⊎ (addr + whole ≤ a) → t.ptes a ≡ s.ptes a

-- The areas are the ones from before, and so are the mapped pages.
abbrev pub IsUndone : Vmap → Vmap → Type 0
IsUndone s t = (entries t.tree ≡ entries s.tree) × ((a : ℕ) → t.ptes a ≡ s.ptes a)

-- The areas are the ones from before, but pages of other areas may be lost: there was no entry for the first page of the
-- area, which was to begin where a top-level entry does, and every page of the first 512th of that entry is cleared.
pub record IsLost (get_pte : ℕ → Bool) (whole low high : ℕ) (s t : Vmap) (addr : ℕ) : Type 0 where
  pub guarded : IsGuarded whole low high addr (entries s.tree)
  pub no_entry : get_pte addr ≡ false
  pub first_of_table : addr % s.entry_size ≡ 0
  pub areas : entries t.tree ≡ entries s.tree
  pub cleared :
      (a : ℕ)
      → t.ptes a ≡ (
          if leb addr a
            && (add64 addr (s.entry_size / 512) == 0 || ltb a (add64 addr (s.entry_size / 512)))
          then none
          else s.ptes a)

-- How a call for `whole` bytes from `base` on ends, with an address `offset` into the area or without.
abbrev pub IsServed : (ℕ → Bool) → ℕ → ℕ → ℕ → ℕ → ℕ → Vmap → Option ℕ × Vmap → Type 0
IsServed get_pte whole low high base offset s (none, t) =
    IsUndone s t ⊎ ((addr : ℕ) × IsLost get_pte whole low high s t addr)
IsServed get_pte whole low high base offset s (some b, t) =
    (addr : ℕ) × (b ≡ add64 addr offset) × Placed whole low high base addr s t
