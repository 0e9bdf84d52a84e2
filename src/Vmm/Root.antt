-- ===== src/Vmm/Root.antt =====
-- The root table that vmm_init of src/kernel/memory/virtual/vmm.c allocates first, as a tree.
use apopt_os.Base.{
  ℕ, ◌+◌, ◌*◌, ◌<◌, ◌≡◌, refl, true, none, ◌==◌, if◌then◌else◌, page_size, page_to_bit, arith, inl,
  inr,
}
use apopt_os.Pmm.{pmm_alloc}
use apopt_os.Pmm.Safety.{pmm_alloc_one}
use apopt_os.Pmm.Supply.{free_pages, IsSound, Spent, pmm_alloc-free_pages, pmm_alloc-Spent}
use apopt_os.Str.Laws.{within}
use apopt_os.Vmm.Ops.{Vm, allocz_table}
use apopt_os.Vmm.Space.{AddressSpace, base, level_index, resolve, translate}
use apopt_os.Vmm.Tree.{Shape}
use apopt_os.Vmm.Refine.{IsSpace}

-- the space in which nothing is mapped
abbrev pub empty_space : AddressSpace
empty_space w = none

-- A page for the root, and nothing else.
root_shape : ℕ → Shape
root_shape a = record { level = λ x. if a == x then 4 else 0; up = λ x. 0 }

pub allocz_table-IsSpace :
    (m : Vm)
    → IsSound m.pmm
    → 0 < free_pages (allocz_table m).1.pmm
    → IsSpace (allocz_table m).0 empty_space (allocz_table m).1
unfolding allocz_table root_shape translate resolve
allocz_table-IsSpace m s free = elim (pmm_alloc-free_pages m.pmm s) [
  | inl (r, none_left) ↦ absurd (omega (arith, free, (pmm_alloc-Spent m.pmm s).fewer))
  | inr (pos, less, count, same) ↦
      let a = (pmm_alloc m.pmm 1).1 in
      let (page, low, was_free, bits) = pmm_alloc_one m.pmm s.pages refl pos in
      let self : (a == a) ≡ true = ground arith in
      record {
        tree = (
          root_shape a,
          record {
            sound = (pmm_alloc-Spent m.pmm s).sound;
            top = rw self refl;
            aligned = λ x h. ground (arith, page);
            bounded = λ x h. ground (arith, low, s.pages.small);
            used = λ x h. ground (arith, bits (page_to_bit x));
            child = λ t i two hi there. absurd (ground (arith, page));
          },
        );
        space = λ w.
            let base_a : base a ≡ a = omega (arith, page) in
            let inside : within a page_size (a + 8 * level_index w 4) ≡ true = ground arith in
            rw (base_a, inside) refl;
      }
]

pub allocz_table-Spent : (m : Vm) → IsSound m.pmm → Spent m.pmm (allocz_table m).1.pmm 1
unfolding allocz_table
allocz_table-Spent m s = pmm_alloc-Spent m.pmm s

-- The register does not matter to the tables.
pub loaded-IsSpace :
    {m : Vm} {root : ℕ} {s : AddressSpace} (value : ℕ)
    → IsSpace root s m
    → IsSpace root s (record m { cr3 = value })
loaded-IsSpace value is =
    let (g, tree) = is.tree in
    record {
      tree = (
        g,
        record {
          sound = tree.sound;
          top = tree.top;
          aligned = tree.aligned;
          bounded = tree.bounded;
          used = tree.used;
          child = tree.child;
        },
      );
      space = is.space;
    }
