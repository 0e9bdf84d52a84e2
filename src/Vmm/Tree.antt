-- ===== src/Vmm/Tree.antt =====
-- The tables of src/kernel/memory/virtual/vmm.c as a tree: each table is a page of its own, and is
-- named by one entry only.
use apopt_os.Base.{ℕ, ◌+◌, ◌*◌, ◌%◌, ◌^◌, ◌<◌, ◌≤◌, ◌≡◌, true, page_size, page_to_bit}
use apopt_os.Bitmap.{is_set}
use apopt_os.Pmm.Supply.{IsSound}
use apopt_os.Vmm.Ops.{Vm}
use apopt_os.Vmm.Space.{base}

-- Which pages are tables, by their addresses: the level of each, 0 for other pages, and the address
-- of the entry that names it.
pub record Shape : Type 0 where
  pub level : ℕ → ℕ
  pub up : ℕ → ℕ

-- An entry of the table `t` that is present.
pub record IsChild (g : Shape) (t x entry : ℕ) : Type 0 where
  pub plain : entry % page_size < 512
  pub below : g.level (base entry) + 1 ≡ g.level t
  pub named : g.up (base entry) ≡ x

pub record IsTree (m : Vm) (root : ℕ) (g : Shape) : Type 0 where
  pub sound : IsSound m.pmm
  pub top : g.level root ≡ 4
  pub aligned : (a : ℕ) → 0 < g.level a → a % page_size ≡ 0
  pub bounded : (a : ℕ) → 0 < g.level a → a < 2 ^ 43
  pub used : (a : ℕ) → 0 < g.level a → is_set m.pmm.bitmap (page_to_bit a) ≡ true
  pub child :
      (t i : ℕ)
      → 2 ≤ g.level t
      → i < 512
      → m.words (t + 8 * i) % 2 ≡ 1
      → IsChild g t (t + 8 * i) (m.words (t + 8 * i))
