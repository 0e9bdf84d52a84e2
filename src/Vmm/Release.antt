-- ===== src/Vmm/Release.antt =====
-- vmm_unmap_range of src/kernel/memory/virtual/vmm.c as an update of the address space.
use apopt_os.Base.{
  ℕ, zero, suc, ◌+◌, ◌-◌, ◌*◌, ◌%◌, ◌^◌, ◌<◌, ◌≤◌, if◌then◌else◌, u64, ◌≡◌, refl, sym, ◌∙◌, ap,
  false, none, some, ◌==◌, ltb, page_size, align_down, phys_to_higher_half_data, arith,
}
use apopt_os.Vmm.Ops.{Vm, vmm_unmap_page, unmap_from, vmm_unmap_range, rounds}
use apopt_os.Vmm.Space.{over_range, AddressSpace, page_of, without_page, without_pages}
use apopt_os.Vmm.Refine.{IsSpace}
use apopt_os.Vmm.Ranges.{over_pages-suc, rounds-covers, rounds-lt, over_pages-over_range}
use apopt_os.Vmm.Unmap.{vmm_unmap_page-IsSpace}

next_page : (i : ℕ) → page_of (i + page_size) ≡ (page_of i + 1) % 2 ^ 36
next_page i = omega arith

later_page :
    (i d : ℕ) → d + 1 < 2 ^ 36 → (page_of (i + page_size + page_size * d) == page_of i) ≡ false
later_page i d h = ground arith

unmap_from-IsSpace :
    (root n i : ℕ) (m : Vm) (s : AddressSpace) (e : ℕ → ℕ)
    → n < 2 ^ 36
    → IsSpace root s m
    → ((d : ℕ) → d < n → s (i + page_size * d) ≡ some (e d))
    → IsSpace root (without_pages s i n) (unmap_from m (phys_to_higher_half_data root) n i)
      × ((unmap_from m (phys_to_higher_half_data root) n i).pmm ≡ m.pmm)
unfolding unmap_from
unmap_from-IsSpace root zero i m s e small is found = (
  record {
    tree = is.tree;
    space = λ w.
        let none_in : ltb ((page_of w + 2 ^ 36 - page_of i) % 2 ^ 36) 0 ≡ false = ground arith in
        is.space w ∙ rw none_in refl;
  },
  refl,
)
unmap_from-IsSpace root (suc n) i m s e small is found =
    let first : i + page_size * 0 ≡ i = omega arith in
    let (left, same) =
      vmm_unmap_page-IsSpace m s root i (e 0) is (ap s (sym first) ∙ found 0 (omega arith)) in
    let m1 = vmm_unmap_page m (phys_to_higher_half_data root) i in
    let (rest, same') =
      unmap_from-IsSpace root n (i + page_size) m1 (without_page s i) (λ d. e (d + 1)) (omega arith)
        left
        (λ d lt.
          let next : i + page_size + page_size * d ≡ i + page_size * (d + 1) = omega arith in
          rw (later_page i d (omega arith)) (ap s next ∙ found (d + 1) (omega arith))) in
    (
      record {
        tree = rest.tree;
        space = λ w.
            rest.space w
            ∙ over_pages-suc s i (i + page_size) n (λ d. none) w (omega arith) (next_page i);
      },
      same' ∙ same,
    )

-- Where the tables are a tree with the address space `s`, the end is below 2 ^ 64 by a page and beyond
-- the start's page by less than 2 ^ 48 bytes, and every page from the start's page on that starts
-- before the end has an entry: vmm_unmap_range takes no page, and leaves a tree whose address space is
-- `s` without these pages.
pub vmm_unmap_range-IsSpace :
    (m : Vm) (s : AddressSpace) (root start end : ℕ) (e : ℕ → ℕ)
    → end + page_size ≤ 2 ^ 64
    → end + page_size ≤ align_down start + 2 ^ 48
    → IsSpace root s m
    → ((d : ℕ)
        → align_down start + page_size * d < end
        → s (align_down start + page_size * d) ≡ some (e d))
    → IsSpace root
        (over_range s start end 0 (λ page. none))
        (vmm_unmap_range m (phys_to_higher_half_data root) start end)
      × ((vmm_unmap_range m (phys_to_higher_half_data root) start end).pmm ≡ m.pmm)
unfolding vmm_unmap_range
vmm_unmap_range-IsSpace m s root start end e fits short is found =
    let (left, same) =
      unmap_from-IsSpace root (rounds start end) (align_down start) m s e
        (rounds-lt start end fits short) is
        (λ d lt.
          let covers = rounds-covers start end d fits in found d (ground (arith, covers, lt))) in
    (
      record {
        tree = left.tree;
        space = λ w.
            let page : page_of (u64 (align_down start + 0)) ≡ page_of (align_down start) =
              omega arith in
            left.space w
            ∙ ap
                (λ q.
                  if ltb ((page_of w + 2 ^ 36 - q) % 2 ^ 36) (rounds start end) then none else s w)
                (sym page)
            ∙ over_pages-over_range s start end 0 (λ page. none) w fits;
      },
      same,
    )
