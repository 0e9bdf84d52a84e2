-- ===== src/Vmm/Refine.antt =====
-- vmm_map_page of src/kernel/memory/virtual/vmm.c as an update of the address space.
use apopt_os.Base.{
  ℕ, ◌+◌, ◌*◌, ◌%◌, ◌<◌, ◌≡◌, refl, ◌∙◌, ap, some, bit_or, ◌==◌, if◌then◌else◌, page_size,
  align_down, phys_to_higher_half_data, arith, bit_or-mod_two,
}
use apopt_os.Pmm.Supply.{free_pages}
use apopt_os.Vmm.Ops.{
  Vm, PatCache, index_at, vmm_get_or_create_pml, vmm_pat_cache_to_flags, vmm_flush_tlb, set_entry,
  vmm_set_pt_value, vmm_map_page,
}
use apopt_os.Vmm.Space.{AddressSpace, base, translate, page_of, with_page}
use apopt_os.Vmm.Tree.{Shape, IsTree}
use apopt_os.Vmm.Walk.{cell-phys, cell-higher_half}
use apopt_os.Vmm.Supply.{vmm_get_or_create_pml-Spent}
use apopt_os.Vmm.Grow.{vmm_get_or_create_pml-Grown}
use apopt_os.Vmm.Store.{OnPath, if_present, stored-IsTree, translate-stored}

abbrev pub Tree : Vm → ℕ → Type 0
Tree m root = (g : Shape) × IsTree m root g

-- A tree with the space `s`.
pub record IsSpace (root : ℕ) (s : AddressSpace) (m : Vm) : Type 0 where
  pub tree : Tree m root
  pub space : (w : ℕ) → translate m.words root w ≡ s w

pub on_path :
    (words : ℕ → ℕ) (root a3 a2 a1 virt : ℕ)
    → root % page_size ≡ 0
    → words (root + 8 * index_at virt 39) % 2 ≡ 1
    → base (words (root + 8 * index_at virt 39)) ≡ a3
    → words (a3 + 8 * index_at virt 30) % 2 ≡ 1
    → base (words (a3 + 8 * index_at virt 30)) ≡ a2
    → words (a2 + 8 * index_at virt 21) % 2 ≡ 1
    → base (words (a2 + 8 * index_at virt 21)) ≡ a1
    → OnPath words 3 root virt a1
on_path words root a3 a2 a1 virt al p4 e4 p3 e3 p2 e2 =
    let er : base root ≡ root = omega arith in rw (er, e4, e3) (p4, (p3, (p2, e2)))

module _ (m : Vm) (root virt value flags : ℕ) (t : PatCache) where
  abbrev l3 : ℕ × Vm
  l3 = vmm_get_or_create_pml m (phys_to_higher_half_data root) (index_at virt 39) flags

  abbrev l2 : ℕ × Vm
  l2 = vmm_get_or_create_pml l3.1 l3.0 (index_at virt 30) flags

  abbrev l1 : ℕ × Vm
  l1 = vmm_get_or_create_pml l2.1 l2.0 (index_at virt 21) flags

  abbrev last_entry : ℕ
  last_entry = bit_or (bit_or value flags) (vmm_pat_cache_to_flags t)

  vmm_set_pt_value-IsSpace :
      Tree m root
      → flags < 512
      → flags % 2 ≡ 1
      → 0 < free_pages (vmm_set_pt_value m (phys_to_higher_half_data root) virt value flags t).pmm
      → IsSpace root
          (λ w.
            if page_of w == page_of virt then if_present last_entry else translate m.words root w)
          (vmm_set_pt_value m (phys_to_higher_half_data root) virt value flags t)
  unfolding vmm_set_pt_value vmm_flush_tlb set_entry
  vmm_set_pt_value-IsSpace (g, tree) few odd free =
      let small = tree.bounded root (omega (arith, tree.top)) in
      let al = tree.aligned root (omega (arith, tree.top)) in
      let s3 =
        vmm_get_or_create_pml-Spent m (phys_to_higher_half_data root) (index_at virt 39) flags
          tree.sound in
      let s2 = vmm_get_or_create_pml-Spent l3.1 l3.0 (index_at virt 30) flags s3.sound in
      let s1 = vmm_get_or_create_pml-Spent l2.1 l2.0 (index_at virt 21) flags s2.sound in
      let c4 = cell-higher_half root (index_at virt 39) small (omega arith) in
      let g3 =
        vmm_get_or_create_pml-Grown tree (phys_to_higher_half_data root) root (index_at virt 39)
          flags c4 (omega (arith, tree.top)) (omega arith) few odd
          (omega (arith, free, s3.fewer, s2.fewer, s1.fewer)) in
      let b3 : g3.shape.level l3.0 ≡ 3 = omega (arith, g3.below, tree.top) in
      let small3 = g3.tree.bounded l3.0 (omega arith) in
      let c3 = cell-phys l3.0 (index_at virt 30) (omega arith) (omega arith) in
      let g2 =
        vmm_get_or_create_pml-Grown g3.tree l3.0 l3.0 (index_at virt 30) flags c3 (omega arith)
          (omega arith) few odd (omega (arith, free, s2.fewer, s1.fewer)) in
      let b2 : g2.shape.level l2.0 ≡ 2 = omega (arith, g2.below, b3) in
      let small2 = g2.tree.bounded l2.0 (omega arith) in
      let c2 = cell-phys l2.0 (index_at virt 21) (omega arith) (omega arith) in
      let g1 =
        vmm_get_or_create_pml-Grown g2.tree l2.0 l2.0 (index_at virt 21) flags c2 (omega arith)
          (omega arith) few odd (omega (arith, free, s1.fewer)) in
      let b1 : g1.shape.level l1.0 ≡ 1 = omega (arith, g1.below, b2) in
      let small1 = g1.tree.bounded l1.0 (omega arith) in
      let c1 = cell-phys l1.0 (index_at virt 12) (omega arith) (omega arith) in
      let in3 = g3.tables root (omega (arith, tree.top)) in
      let in2 = g2.tables root (omega (arith, in3, tree.top)) in
      let in2' = g2.tables l3.0 (omega arith) in
      let k4 =
        g2.kept root (index_at virt 39) (omega (arith, in3, tree.top)) (omega arith) g3.present in
      let k4' =
        g1.kept root (index_at virt 39) (omega (arith, in2, in3, tree.top)) (omega arith)
          (ap (λ x. x % 2) k4 ∙ g3.present) in
      let k3 = g1.kept l3.0 (index_at virt 30) (omega (arith, in2', b3)) (omega arith) g2.present in
      let path =
        on_path l1.1.words root l3.0 l2.0 l1.0 virt al (ap (λ x. x % 2) (k4' ∙ k4) ∙ g3.present)
          (ap base (k4' ∙ k4) ∙ g3.leads) (ap (λ x. x % 2) k3 ∙ g2.present) (ap base k3 ∙ g2.leads)
          g1.present g1.leads in
      rw c1 (record {
        tree = (g1.shape, stored-IsTree g1.tree l1.0 virt last_entry b1 _);
        space = λ w.
            translate-stored g1.tree l1.0 virt last_entry b1 path w
            ∙ rw (g1.same w ∙ g2.same w ∙ g3.same w) refl;
      })

-- An entry with the present flag among its flags is present.
if_present-odd :
    (value flags cache : ℕ)
    → flags % 2 ≡ 1
    → if_present (bit_or (bit_or value flags) cache) ≡ some (bit_or (bit_or value flags) cache)
if_present-odd value flags cache odd =
    let two = bit_or-mod_two value flags in
    let two' = bit_or-mod_two (bit_or value flags) cache in
    let one : bit_or (bit_or value flags) cache % 2 ≡ 1 = omega arith in rw one refl

-- the entry of a page
abbrev pub entry_for : ℕ → PatCache → ℕ → ℕ
entry_for flags t phys = bit_or (bit_or phys flags) (vmm_pat_cache_to_flags t)

module _ (root flags : ℕ) (t : PatCache) (few : flags < 512) (odd : flags % 2 ≡ 1) where
  -- Where the tables are a tree with the address space `s`, and after the call a page is still free,
  -- vmm_map_page with the present flag among flags below 512 leaves a tree whose address space is `s`
  -- but for the page of the virtual address, which has the entry made of the physical page and the
  -- flags. The mappings of all other pages are kept.
  pub vmm_map_page-IsSpace :
      (m : Vm) (s : AddressSpace) (phys virt : ℕ)
      → IsSpace root s m
      → 0 < free_pages (vmm_map_page m (phys_to_higher_half_data root) phys virt flags t).pmm
      → IsSpace root
          (with_page s virt (entry_for flags t phys))
          (vmm_map_page m (phys_to_higher_half_data root) phys virt flags t)
  unfolding vmm_map_page
  vmm_map_page-IsSpace m s phys virt is free =
      let stored =
        vmm_set_pt_value-IsSpace m root (align_down virt) phys flags t is.tree few odd free in
      let same : page_of (align_down virt) ≡ page_of virt = omega arith in
      record {
        tree = stored.tree;
        space = λ w.
            stored.space w
            ∙ rw (same, is.space w, if_present-odd phys flags (vmm_pat_cache_to_flags t) odd) refl;
      }
