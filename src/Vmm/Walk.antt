-- ===== src/Vmm/Walk.antt =====
-- vmm_map_page against the walk of the memory management unit.
use apopt_os.Base.{
  ℕ, ◌+◌, ◌*◌, ◌/◌, ◌%◌, ◌^◌, ◌<◌, ◌≤◌, ◌≡◌, ◌≢◌, ◌⊎◌, ◌∙◌, refl, ap, false, Option, some, none,
  bit_or, ◌==◌, if◌then◌else◌, page_size, align_down, phys_to_higher_half_data, arith,
}
use apopt_os.Str.Laws.{within}
use apopt_os.Slab.Heap.{put}
use apopt_os.Vmm.Ops.{
  Vm, PatCache, cell, index_at, vmm_get_or_create_pml, vmm_pat_cache_to_flags, vmm_flush_tlb,
  set_entry, vmm_set_pt_value, vmm_map_page,
}
use apopt_os.Vmm.Level.{IsPlain, Reached, vmm_get_or_create_pml-Reached}

-- One step of the unit: the table that a present entry of the table at `table` names.
abbrev pub next_table : (ℕ → ℕ) → ℕ → ℕ → Option ℕ
next_table words table i =
    if words (table + 8 * i) % 2 == 1
    then some (words (table + 8 * i) / page_size * page_size)
    else none

abbrev pub then_table : Option ℕ → (ℕ → Option ℕ) → Option ℕ
then_table none f = none
then_table (some t) f = f t

-- The entry that the unit finds for a virtual address, from the physical address of the root.
abbrev pub mmu_walk : (ℕ → ℕ) → ℕ → ℕ → Option ℕ
mmu_walk words root virt = then_table (next_table words root (index_at virt 39)) λ t3.
    then_table (next_table words t3 (index_at virt 30)) λ t2.
      then_table (next_table words t2 (index_at virt 21))
        λ t1. some (words (t1 + 8 * index_at virt 12))

-- Entries of a table at a physical address, and of one that is reached through the higher half.
pub cell-phys : (t i : ℕ) → t < 2 ^ 52 → i < 512 → cell t i ≡ t + 8 * i
unfolding cell
cell-phys t i ht hi = ground arith

pub cell-higher_half :
    (t i : ℕ) → t < 2 ^ 43 → i < 512 → cell (phys_to_higher_half_data t) i ≡ t + 8 * i
unfolding cell
cell-higher_half t i ht hi = ground arith

-- The tables at `a` and `b` are different pages.
abbrev pub Apart : ℕ → ℕ → Type 0
Apart a b = (a + page_size ≤ b) ⊎ (b + page_size ≤ a)

-- Entries of a table that is apart from the two tables of a level are kept.
kept :
    (m : Vm) (pml i t a j : ℕ) {r : ℕ × Vm}
    → Reached m pml i r
    → cell pml i ≡ t + 8 * i
    → i < 512
    → j < 512
    → Apart a t
    → Apart a r.0
    → r.1.words (a + 8 * j) ≡ m.words (a + 8 * j)
kept m pml i t a j {r} reached e hi hj off on =
    reached.frame (a + 8 * j) (λ same. absurd (away-entry off (same ∙ e))) (away-page on)
  where
    away-entry : Apart a t → a + 8 * j ≢ t + 8 * i
    away-entry off = omega arith

    away-page : Apart a r.0 → within r.0 page_size (a + 8 * j) ≡ false
    away-page on = ground arith

put-kept :
    (words : ℕ → ℕ) (t i a j v : ℕ)
    → i < 512
    → j < 512
    → Apart a t
    → put words (t + 8 * i) v (a + 8 * j) ≡ words (a + 8 * j)
put-kept words t i a j v hi hj off = ground arith

put-here : (words : ℕ → ℕ) (x v : ℕ) → put words x v x ≡ v
put-here words x v = ground arith

walks :
    (words : ℕ → ℕ) (root t3 t2 t1 virt : ℕ)
    → next_table words root (index_at virt 39) ≡ some t3
    → next_table words t3 (index_at virt 30) ≡ some t2
    → next_table words t2 (index_at virt 21) ≡ some t1
    → mmu_walk words root virt ≡ some (words (t1 + 8 * index_at virt 12))
walks words root t3 t2 t1 virt e3 e2 e1 = rw (e3, e2, e1)

steps :
    (words : ℕ → ℕ) (t i : ℕ) {w u : ℕ}
    → words (t + 8 * i) ≡ w
    → w % 2 ≡ 1
    → w / page_size * page_size ≡ u
    → next_table words t i ≡ some u
steps words t i e odd leads = rw e (ground (arith, odd, leads))

-- The walk depends on the four indices only.
walk-same :
    (words : ℕ → ℕ) (root a b : ℕ)
    → index_at a 39 ≡ index_at b 39
    → index_at a 30 ≡ index_at b 30
    → index_at a 21 ≡ index_at b 21
    → index_at a 12 ≡ index_at b 12
    → mmu_walk words root b ≡ mmu_walk words root a
walk-same words root a b e4 e3 e2 e1 = rw (e4, e3, e2, e1) refl

module _ (m : Vm) (root phys virt flags : ℕ) (t : PatCache) where
  abbrev l3 : ℕ × Vm
  l3 = vmm_get_or_create_pml m (phys_to_higher_half_data root) (index_at virt 39) flags

  abbrev l2 : ℕ × Vm
  l2 = vmm_get_or_create_pml l3.1 l3.0 (index_at virt 30) flags

  abbrev l1 : ℕ × Vm
  l1 = vmm_get_or_create_pml l2.1 l2.0 (index_at virt 21) flags

  -- The four tables on the way to a page are four pages.
  pub record Separate : Type 0 where
    pub root_pdpt : Apart root l3.0
    pub root_pd : Apart root l2.0
    pub root_pt : Apart root l1.0
    pub pdpt_pd : Apart l3.0 l2.0
    pub pdpt_pt : Apart l3.0 l1.0
    pub pd_pt : Apart l2.0 l1.0

  -- the value that the last entry gets
  abbrev pub new_entry : ℕ
  new_entry = bit_or (bit_or phys flags) (vmm_pat_cache_to_flags t)

  -- After vmm_set_pt_value with the present flag, the memory management unit finds the stored value
  -- for the virtual page, where the tables on the way are separate pages.
  set_pt_value-walk :
      IsPlain m
      → root < 2 ^ 43
      → flags < 512
      → flags % 2 ≡ 1
      → Separate
      → mmu_walk
          (vmm_set_pt_value m (phys_to_higher_half_data root) virt phys flags t).words
          root
          virt
        ≡ some new_entry
  unfolding vmm_set_pt_value vmm_flush_tlb set_entry
  set_pt_value-walk plain hr few odd sep =
      let r3 =
        vmm_get_or_create_pml-Reached m (phys_to_higher_half_data root) (index_at virt 39) flags
          plain few odd in
      let r2 = vmm_get_or_create_pml-Reached l3.1 l3.0 (index_at virt 30) flags r3.plain few odd in
      let r1 = vmm_get_or_create_pml-Reached l2.1 l2.0 (index_at virt 21) flags r2.plain few odd in
      let i4 : index_at virt 39 < 512 = omega arith in
      let i3 : index_at virt 30 < 512 = omega arith in
      let i2 : index_at virt 21 < 512 = omega arith in
      let i1 : index_at virt 12 < 512 = omega arith in
      let c4 = cell-higher_half root (index_at virt 39) hr i4 in
      let c3 = cell-phys l3.0 (index_at virt 30) r3.bounded i3 in
      let c2 = cell-phys l2.0 (index_at virt 21) r2.bounded i2 in
      let c1 = cell-phys l1.0 (index_at virt 12) r1.bounded i1 in
      let p4 =
        put-kept l1.1.words l1.0 (index_at virt 12) root (index_at virt 39) new_entry i1 i4
          sep.root_pt in
      let p3 =
        put-kept l1.1.words l1.0 (index_at virt 12) l3.0 (index_at virt 30) new_entry i1 i3
          sep.pdpt_pt in
      let p2 =
        put-kept l1.1.words l1.0 (index_at virt 12) l2.0 (index_at virt 21) new_entry i1 i2
          sep.pd_pt in
      let k4 =
        kept l3.1 l3.0 (index_at virt 30) l3.0 root (index_at virt 39) r2 c3 i3 i4 sep.root_pdpt
          sep.root_pd in
      let k4' =
        kept l2.1 l2.0 (index_at virt 21) l2.0 root (index_at virt 39) r1 c2 i2 i4 sep.root_pd
          sep.root_pt in
      let words' = put l1.1.words (l1.0 + 8 * index_at virt 12) new_entry in
      let k3 =
        kept l2.1 l2.0 (index_at virt 21) l2.0 l3.0 (index_at virt 30) r1 c2 i2 i3 sep.pdpt_pd
          sep.pdpt_pt in
      rw c1 (
        walks words' root l3.0 l2.0 l1.0 virt
          (steps words' root (index_at virt 39) (p4 ∙ k4' ∙ k4) (rw c4 at r3.present)
            (rw c4 at r3.leads))
          (steps words' l3.0 (index_at virt 30) (p3 ∙ k3) (rw c3 at r2.present) (rw c3 at r2.leads))
          (steps words' l2.0 (index_at virt 21) p2 (rw c2 at r1.present) (rw c2 at r1.leads))
        ∙ ap some (put-here l1.1.words (l1.0 + 8 * index_at virt 12) new_entry))

module _ (m : Vm) (root phys virt flags : ℕ) (t : PatCache) where
  -- After vmm_map_page with flags below 512, the present flag among them, and a root table below
  -- 2 ^ 43, on a valid state whose words are aligned addresses with flags, the walk of the memory
  -- management unit from the root finds, for the virtual address, the entry made of the physical page,
  -- the flags and the cache type's flags. The root and the three tables on the way must be four
  -- separate pages.
  pub vmm_map_page-walk :
      IsPlain m
      → root < 2 ^ 43
      → flags < 512
      → flags % 2 ≡ 1
      → Separate m root phys (align_down virt) flags t
      → mmu_walk (vmm_map_page m (phys_to_higher_half_data root) phys virt flags t).words root virt
        ≡ some (bit_or (bit_or phys flags) (vmm_pat_cache_to_flags t))
  unfolding vmm_map_page
  vmm_map_page-walk plain hr few odd sep =
      let e4 : index_at (align_down virt) 39 ≡ index_at virt 39 = omega arith in
      let e3 : index_at (align_down virt) 30 ≡ index_at virt 30 = omega arith in
      let e2 : index_at (align_down virt) 21 ≡ index_at virt 21 = omega arith in
      let e1 : index_at (align_down virt) 12 ≡ index_at virt 12 = omega arith in
      let words =
        (vmm_set_pt_value m (phys_to_higher_half_data root) (align_down virt) phys flags t).words in
      walk-same words root (align_down virt) virt e4 e3 e2 e1
      ∙ set_pt_value-walk m root phys (align_down virt) flags t plain hr few odd sep
