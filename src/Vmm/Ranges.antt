-- ===== src/Vmm/Ranges.antt =====
-- vmm_map_range of src/kernel/memory/virtual/vmm.c as an update of the address space.
use apopt_os.Base.{
  Option, some, ℕ, zero, suc, ◌+◌, ◌-◌, ◌*◌, ◌%◌, ◌^◌, ◌<◌, ◌≤◌, ◌≡◌, ◌≢◌, refl, ◌∙◌, ap, true,
  false, ◌==◌, ltb, page_size, align_down, phys_to_higher_half_data, arith, Bool-cases, inl, inr,
  u64,
}
use mathlib.Core.Path.{fun_ext}
use apopt_os.Pmm.Supply.{free_pages}
use apopt_os.Vmm.Ops.{Vm, PatCache, vmm_map_page, map_from, vmm_map_range, rounds}
use apopt_os.Vmm.Space.{
  AddressSpace, page_of, with_page, with_pages, over_page, over_pages, over_range,
}
use apopt_os.Vmm.Supply.{vmm_map_page-Spent, map_from-Spent}
use apopt_os.Vmm.Refine.{IsSpace, entry_for, vmm_map_page-IsSpace}

-- The distance from the page after `q`.
distance-first :
    (p q : ℕ) → p < 2 ^ 36 → p ≡ q → (p + 2 ^ 36 - (q + 1) % 2 ^ 36) % 2 ^ 36 ≡ 2 ^ 36 - 1
distance-first p q h e = omega arith

distance-next :
    (p q : ℕ)
    → p < 2 ^ 36
    → q < 2 ^ 36
    → p ≢ q
    → (p + 2 ^ 36 - q) % 2 ^ 36 ≡ (p + 2 ^ 36 - (q + 1) % 2 ^ 36) % 2 ^ 36 + 1
distance-next p q h h' ne = omega arith

-- One page in front of the others.
pub over_pages-suc :
    (s : AddressSpace) (v v' n : ℕ) (f : ℕ → Option ℕ) (w : ℕ)
    → n < 2 ^ 36
    → page_of v' ≡ (page_of v + 1) % 2 ^ 36
    → over_pages (over_page s v (f 0)) v' n (λ d. f (d + 1)) w ≡ over_pages s v (suc n) f w
over_pages-suc s v v' n f w small next =
    let p = page_of w in
    let q = page_of v in
    let hp : p < 2 ^ 36 = omega arith in
    let hq : q < 2 ^ 36 = omega arith in
    elim (Bool-cases (p == q)) [
      | inl same ↦
          let e : p ≡ q = ground (arith, same) in
          let far = distance-first p q hp e in
          let near : (p + 2 ^ 36 - q) % 2 ^ 36 ≡ 0 = omega arith in
          let out : ltb (2 ^ 36 - 1) n ≡ false = ground (arith, small) in
          let first : ltb 0 (suc n) ≡ true = ground arith in
          rw (next, far, near, out, first, same) refl
      | inr other ↦
          let d' = (p + 2 ^ 36 - (q + 1) % 2 ^ 36) % 2 ^ 36 in
          let e = distance-next p q hp hq (ground (arith, other)) in
          elim (Bool-cases (ltb d' n)) [
            | inl inside ↦
                let inside' : ltb (d' + 1) (suc n) ≡ true = ground (arith, inside) in
                rw (next, e, other, inside, inside') refl
            | inr outside ↦
                let outside' : ltb (d' + 1) (suc n) ≡ false = ground (arith, outside) in
                rw (next, e, other, outside, outside') refl
          ]
    ]

page_after :
    (i offset : ℕ)
    → page_of (u64 (i + page_size + offset)) ≡ (page_of (u64 (i + offset)) + 1) % 2 ^ 36
page_after i offset = omega arith

one_later : (i d : ℕ) → i + page_size + page_size * d ≡ i + page_size * (d + 1)
one_later i d = omega arith

-- The rounds of the loops are the pages that start before the end.
pub rounds-covers :
    (start end d : ℕ)
    → end + page_size ≤ 2 ^ 64
    → ltb d (rounds start end) ≡ ltb (align_down start + page_size * d) end
rounds-covers start end d fits =
    let whole : u64 (end + (page_size - 1)) ≡ end + (page_size - 1) = omega arith in
    rw whole (ground arith)

pub rounds-lt :
    (start end : ℕ)
    → end + page_size ≤ 2 ^ 64
    → end + page_size ≤ align_down start + 2 ^ 48
    → rounds start end < 2 ^ 36
rounds-lt start end fits short = omega arith

pub over_pages-over_range :
    (s : AddressSpace) (start end offset : ℕ) (f : ℕ → Option ℕ) (w : ℕ)
    → end + page_size ≤ 2 ^ 64
    → over_pages s
        (u64 (align_down start + offset))
        (rounds start end)
        (λ d. f (align_down start + page_size * d))
        w
      ≡ over_range s start end offset f w
over_pages-over_range s start end offset f w fits =
    rw
      (rounds-covers start end
        ((page_of w + 2 ^ 36 - page_of (u64 (align_down start + offset))) % 2 ^ 36) fits)
      refl

module _ (root flags : ℕ) (t : PatCache) (few : flags < 512) (odd : flags % 2 ≡ 1) where
  one_more :
      (i offset : ℕ) (s : AddressSpace) (n w : ℕ)
      → n < 2 ^ 36
      → with_pages
          (with_page s (u64 (i + offset)) (entry_for flags t i))
          (u64 (i + page_size + offset))
          n
          (λ d. entry_for flags t (i + page_size + page_size * d))
          w
        ≡ with_pages s (u64 (i + offset)) (suc n) (λ d. entry_for flags t (i + page_size * d)) w
  one_more i offset s n w small =
      let v = u64 (i + offset) in
      let v' = u64 (i + page_size + offset) in
      let e0 : entry_for flags t i ≡ entry_for flags t (i + page_size * 0) =
        ap (entry_for flags t) (omega arith) in
      let es : (λ (d : ℕ). entry_for flags t (i + page_size + page_size * d))
          ≡ (λ d. entry_for flags t (i + page_size * (d + 1))) =
        fun_ext λ d. ap (entry_for flags t) (one_later i d) in
      ap
        (λ x.
          with_pages (with_page s v x) v' n (λ d. entry_for flags t (i + page_size + page_size * d))
            w)
        e0
      ∙ ap (λ g. with_pages (with_page s v (entry_for flags t (i + page_size * 0))) v' n g w) es
      ∙ over_pages-suc s v v' n (λ d. some (entry_for flags t (i + page_size * d))) w small
          (page_after i offset)

  map_from-IsSpace :
      (n i offset : ℕ) (m : Vm) (s : AddressSpace)
      → n < 2 ^ 36
      → IsSpace root s m
      → 0 < free_pages (map_from m (phys_to_higher_half_data root) n i offset flags t).pmm
      → IsSpace root
          (with_pages s (u64 (i + offset)) n (λ d. entry_for flags t (i + page_size * d)))
          (map_from m (phys_to_higher_half_data root) n i offset flags t)
  unfolding map_from
  map_from-IsSpace zero i offset m s small is free = record {
    tree = is.tree;
    space = λ w.
        let none_in : ltb ((page_of w + 2 ^ 36 - page_of (u64 (i + offset))) % 2 ^ 36) 0 ≡ false =
          ground arith in
        is.space w ∙ rw none_in refl;
  }
  map_from-IsSpace (suc n) i offset m s small is free =
      let v = u64 (i + offset) in
      let m1 = vmm_map_page m (phys_to_higher_half_data root) i v flags t in
      let spent =
        vmm_map_page-Spent m (phys_to_higher_half_data root) i v flags t is.tree.1.sound in
      let spent' =
        map_from-Spent (phys_to_higher_half_data root) n (i + page_size) offset flags t m1
          spent.sound in
      let first =
        vmm_map_page-IsSpace root flags t few odd m s i v is (omega (arith, free, spent'.fewer)) in
      let rest =
        map_from-IsSpace n (i + page_size) offset m1 (with_page s v (entry_for flags t i))
          (omega arith) first free in
      record { tree = rest.tree; space = λ w. rest.space w ∙ one_more i offset s n w (omega arith) }

  -- Where the tables are a tree with the address space `s`, a page is still free after the call, and
  -- the end is below 2 ^ 64 by a page and beyond the start's page by less than 2 ^ 48 bytes:
  -- vmm_map_range, with the present flag among flags below 512, leaves a tree whose address space
  -- maps, `offset` further on, every page from the start's page on that starts before the end, each
  -- to itself with the flags, and is `s` for all other pages.
  pub vmm_map_range-IsSpace :
      (m : Vm) (s : AddressSpace) (start end offset : ℕ)
      → end + page_size ≤ 2 ^ 64
      → end + page_size ≤ align_down start + 2 ^ 48
      → IsSpace root s m
      → 0
        < free_pages (vmm_map_range m (phys_to_higher_half_data root) start end offset flags t).pmm
      → IsSpace root
          (over_range s start end offset (λ phys. some (entry_for flags t phys)))
          (vmm_map_range m (phys_to_higher_half_data root) start end offset flags t)
  unfolding vmm_map_range
  vmm_map_range-IsSpace m s start end offset fits short is free =
      let mapped =
        map_from-IsSpace (rounds start end) (align_down start) offset m s
          (rounds-lt start end fits short) is free in
      record {
        tree = mapped.tree;
        space = λ w.
            mapped.space w
            ∙ over_pages-over_range s start end offset (λ phys. some (entry_for flags t phys)) w
                fits;
      }
