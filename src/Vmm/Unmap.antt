-- ===== src/Vmm/Unmap.antt =====
-- vmm_unmap_page of src/kernel/memory/virtual/vmm.c on a page that is mapped.
use apopt_os.Base.{
  ℕ, suc, ◌+◌, ◌*◌, ◌%◌, ◌^◌, ◌<◌, ◌≤◌, ◌≡◌, refl, sym, ◌∙◌, ap, true, false, some, none, ◌∷◌,
  bit_or, ◌==◌, if◌then◌else◌, align_down, phys_to_higher_half_data, arith, Bool-cases, inl, inr,
}
use apopt_os.Slab.Heap.{put}
use apopt_os.Pmm.Supply.{free_pages}
use apopt_os.Vmm.Ops.{
  Vm, PatCache, uncacheable, cell, table_of, index_at, vmm_get_or_create_pml,
  vmm_pat_cache_to_flags, vmm_flush_tlb, set_entry, vmm_set_pt_value, vmm_map_page, vmm_unmap_page,
}
use apopt_os.Vmm.Space.{without_page, AddressSpace, base, level_index, resolve, translate, page_of}
use apopt_os.Vmm.Tree.{Shape, IsTree}
use apopt_os.Vmm.Walk.{cell-phys, cell-higher_half}
use apopt_os.Vmm.Store.{if_present, stored-IsTree, translate-stored}
use apopt_os.Vmm.Refine.{IsSpace, on_path, entry_for, vmm_map_page-IsSpace}

-- A walk that finds something goes on through an entry that is present.
resolve-some :
    (words : ℕ → ℕ) (k entry virt : ℕ) {e : ℕ}
    → resolve words (suc k) entry virt ≡ some e
    → let w = words (base entry + 8 * level_index virt (suc k)) in
      (w % 2 ≡ 1) × (resolve words k w virt ≡ some e)
unfolding resolve
resolve-some words k entry virt found =
    let w = words (base entry + 8 * level_index virt (suc k)) in
    elim (Bool-cases (w % 2 == 1)) [
      | inl odd ↦ (ground (arith, odd), rw odd at found)
      | inr even ↦ absurd (ground (arith, (rw even at found)))
    ]

get-present :
    (m : Vm) (pml i flags : ℕ)
    → m.words (cell pml i) % 2 ≡ 1
    → vmm_get_or_create_pml m pml i flags ≡ (table_of (m.words (cell pml i)), m)
unfolding vmm_get_or_create_pml
get-present m pml i flags there =
    let no : (m.words (cell pml i) % 2 == 0) ≡ false = ground (arith, there) in rw no refl

-- One level of a walk that finds something.
module _ {m : Vm} {root : ℕ} {g : Shape} (tree : IsTree m root g) (flags : ℕ) where
  -- The call returns the table that the entry names, and changes nothing.
  get-base :
      (pml t i : ℕ)
      → cell pml i ≡ t + 8 * i
      → 2 ≤ g.level t
      → i < 512
      → m.words (t + 8 * i) % 2 ≡ 1
      → (vmm_get_or_create_pml m pml i flags ≡ (base (m.words (t + 8 * i)), m))
        × (g.level (base (m.words (t + 8 * i))) + 1 ≡ g.level t)
        × (base (m.words (t + 8 * i)) < 2 ^ 43)
  get-base pml t i at table index there =
      let c = tree.child t i table index there in
      let e : table_of (m.words (t + 8 * i)) ≡ base (m.words (t + 8 * i)) =
        omega (arith, c.plain) in
      let present : m.words (cell pml i) % 2 ≡ 1 = ap (λ x. m.words x % 2) at ∙ there in
      (
        get-present m pml i flags present
            ∙ ap (λ x. (table_of (m.words x), m)) at
            ∙ ap (λ x. (x, m)) e,
        c.below,
        tree.bounded (base (m.words (t + 8 * i))) (omega (arith, c.below)),
      )

  -- vmm_set_pt_value, where the three tables are there, stores the entry and flushes.
  vmm_set_pt_value-put :
      (a3 a2 a1 virt value : ℕ) (c : PatCache)
      → vmm_get_or_create_pml m (phys_to_higher_half_data root) (index_at virt 39) flags ≡ (a3, m)
      → vmm_get_or_create_pml m a3 (index_at virt 30) flags ≡ (a2, m)
      → vmm_get_or_create_pml m a2 (index_at virt 21) flags ≡ (a1, m)
      → cell a1 (index_at virt 12) ≡ a1 + 8 * index_at virt 12
      → vmm_set_pt_value m (phys_to_higher_half_data root) virt value flags c ≡ record m {
        words =
            put m.words
              (a1 + 8 * index_at virt 12)
              (bit_or (bit_or value flags) (vmm_pat_cache_to_flags c));
        flushed = virt ∷ m.flushed;
      }
  unfolding vmm_set_pt_value vmm_flush_tlb set_entry
  vmm_set_pt_value-put a3 a2 a1 virt value c e3 e2 e1 c1 = rw (e3, e2, e1, c1) refl

-- Where the page of an address is mapped, vmm_set_pt_value takes no page: it changes the entry.
mapped-IsSpace :
    (m : Vm) (root virt value flags e : ℕ) (c : PatCache) {s : AddressSpace}
    → IsSpace root s m
    → s virt ≡ some e
    → let m' = vmm_set_pt_value m (phys_to_higher_half_data root) virt value flags c in
      IsSpace root
        (λ w.
          if page_of w == page_of virt
          then if_present (bit_or (bit_or value flags) (vmm_pat_cache_to_flags c))
          else s w)
        m'
      × (m'.pmm ≡ m.pmm)
unfolding translate
mapped-IsSpace m root virt value flags e c {s} is found =
    let (g, tree) = is.tree in
    let al = tree.aligned root (omega (arith, tree.top)) in
    let small = tree.bounded root (omega (arith, tree.top)) in
    let base_root : base root ≡ root = omega arith in
    let (o4, r3) = resolve-some m.words 3 root virt (is.space virt ∙ found) in
    let p4 : m.words (root + 8 * index_at virt 39) % 2 ≡ 1 =
      ap (λ x. m.words (x + 8 * index_at virt 39) % 2) (sym base_root) ∙ o4 in
    let w4 = m.words (root + 8 * index_at virt 39) in
    let r3' : resolve m.words 3 w4 virt ≡ some e =
      ap (λ x. resolve m.words 3 (m.words (x + 8 * index_at virt 39)) virt) (sym base_root) ∙ r3 in
    let a3 = base w4 in
    let (p3, r2) = resolve-some m.words 2 w4 virt r3' in
    let w3 = m.words (a3 + 8 * index_at virt 30) in
    let a2 = base w3 in
    let (p2, r1) = resolve-some m.words 1 w3 virt r2 in
    let w2 = m.words (a2 + 8 * index_at virt 21) in
    let a1 = base w2 in
    let (e3, l3, b3) =
      get-base tree flags (phys_to_higher_half_data root) root (index_at virt 39)
        (cell-higher_half root (index_at virt 39) small (omega arith)) (omega (arith, tree.top))
        (omega arith) p4 in
    let (e2, l2, b2) =
      get-base tree flags a3 a3 (index_at virt 30)
        (cell-phys a3 (index_at virt 30) (omega (arith, b3)) (omega arith))
        (omega (arith, l3, tree.top)) (omega arith) p3 in
    let (e1, l1, b1) =
      get-base tree flags a2 a2 (index_at virt 21)
        (cell-phys a2 (index_at virt 21) (omega (arith, b2)) (omega arith))
        (omega (arith, l2, l3, tree.top)) (omega arith) p2 in
    let last : g.level a1 ≡ 1 = omega (arith, l1, l2, l3, tree.top) in
    let c1 = cell-phys a1 (index_at virt 12) (omega (arith, b1)) (omega arith) in
    let stays = vmm_set_pt_value-put tree flags a3 a2 a1 virt value c e3 e2 e1 c1 in
    let value' = bit_or (bit_or value flags) (vmm_pat_cache_to_flags c) in
    let path = on_path m.words root a3 a2 a1 virt al p4 refl p3 refl p2 refl in
    rw stays (
      record {
        tree = (g, stored-IsTree tree a1 virt value' last _);
        space = λ w. translate-stored tree a1 virt value' last path w ∙ rw (is.space w) refl;
      },
      refl,
    )

-- All addresses of a page have the same entry.
translate-page_of :
    (words : ℕ → ℕ) (root v w : ℕ)
    → page_of v ≡ page_of w
    → translate words root v ≡ translate words root w
unfolding translate resolve
translate-page_of words root v w same =
    let e4 : level_index v 4 ≡ level_index w 4 = omega arith in
    let e3 : level_index v 3 ≡ level_index w 3 = omega arith in
    let e2 : level_index v 2 ≡ level_index w 2 = omega arith in
    let e1 : level_index v 1 ≡ level_index w 1 = omega arith in rw (e4, e3, e2, e1) refl

space-page_of :
    {m : Vm} {root : ℕ} {s : AddressSpace} (v w : ℕ)
    → IsSpace root s m
    → page_of v ≡ page_of w
    → s v ≡ s w
space-page_of {m} {root} v w is same =
    sym (is.space v) ∙ translate-page_of m.words root v w same ∙ is.space w

-- Where the tables are a tree with the address space `s`, in which the virtual address has an entry:
-- vmm_unmap_page takes no page, and leaves a tree whose address space is `s` without the page of the
-- address.
pub vmm_unmap_page-IsSpace :
    (m : Vm) (s : AddressSpace) (root virt e : ℕ)
    → IsSpace root s m
    → s virt ≡ some e
    → IsSpace root (without_page s virt) (vmm_unmap_page m (phys_to_higher_half_data root) virt)
      × ((vmm_unmap_page m (phys_to_higher_half_data root) virt).pmm ≡ m.pmm)
unfolding vmm_unmap_page vmm_pat_cache_to_flags
vmm_unmap_page-IsSpace m s root virt e is found =
    let page : page_of (align_down virt) ≡ page_of virt = omega arith in
    let found' = space-page_of (align_down virt) virt is page ∙ found in
    let (left, same) = mapped-IsSpace m root (align_down virt) 0 0 e uncacheable is found' in
    (record { tree = left.tree; space = λ w. left.space w ∙ rw page refl }, same)

-- Where the tables are a tree with the address space `s`, in which the virtual address has no entry,
-- and a page is still free after vmm_map_page with the present flag among flags below 512: a call of
-- vmm_unmap_page for the address after it leaves a tree with the address space `s` again.
pub vmm_unmap_page-vmm_map_page :
    (m : Vm) (s : AddressSpace) (root phys virt flags : ℕ) (t : PatCache)
    → IsSpace root s m
    → s virt ≡ none
    → flags < 512
    → flags % 2 ≡ 1
    → let root' = phys_to_higher_half_data root in
      let mapped = vmm_map_page m root' phys virt flags t in
      0 < free_pages mapped.pmm → IsSpace root s (vmm_unmap_page mapped root' virt)
vmm_unmap_page-vmm_map_page m s root phys virt flags t is unmapped few odd free =
    let mapped = vmm_map_page-IsSpace root flags t few odd m s phys virt is free in
    let self : (page_of virt == page_of virt) ≡ true = ground arith in
    let (left, same) =
      vmm_unmap_page-IsSpace _ _ root virt (entry_for flags t phys) mapped (rw self refl) in
    record {
      tree = left.tree;
      space = λ w. left.space w ∙ elim (Bool-cases (page_of w == page_of virt)) [
        | inl same_page ↦
            rw same_page (sym (space-page_of w virt is (ground (arith, same_page)) ∙ unmapped))
        | inr other ↦ rw other refl
      ];
    }
