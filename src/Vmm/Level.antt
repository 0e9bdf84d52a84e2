-- ===== src/Vmm/Level.antt =====
-- One level of the page tables: vmm_get_or_create_pml.
use apopt_os.Base.{
  ℕ, ◌+◌, ◌*◌, ◌/◌, ◌%◌, ◌^◌, ◌<◌, ◌≡◌, ◌≢◌, ◌⊎◌, ◌∙◌, inl, inr, refl, sym, ap, true, false, bit_or,
  ◌==◌, ==_iff, page_size, arith, Bool-cases, bit_or-low, bit_or-lt, bit_or-mod_two,
}
use apopt_os.Pmm.{Pmm, pmm_alloc}
use apopt_os.Pmm.Alloc.{IsValid, Claimed, Refused, pmm_alloc_lem}
use apopt_os.Pmm.Safety.{pmm_alloc-IsValid}
use apopt_os.Str.Laws.{within}
use apopt_os.Vmm.Ops.{Vm, cell, allocz_table, table_of, vmm_get_or_create_pml}

-- A word that can stand in a table: an aligned address below 2 ^ 52 with flags below 512.
abbrev pub IsEntry : ℕ → Type 0
IsEntry e = (e < 2 ^ 52) × (e % page_size < 512)

pub record IsPlain (m : Vm) : Type 0 where
  pub pages : IsValid m.pmm
  pub entry : (x : ℕ) → IsEntry (m.words x)

pub bit_or-IsEntry :
    (a flags : ℕ) → a % page_size ≡ 0 → a < 2 ^ 52 → flags < 512 → IsEntry (bit_or a flags)
bit_or-IsEntry a flags al small few =
    let k = a / 4096 in
    let ea : k * 2 ^ 12 + 0 ≡ a = omega arith in
    let e = bit_or-low 12 k 0 flags (omega arith) (omega arith) in
    let z : bit_or 0 flags < 2 ^ 9 = bit_or-lt 9 0 flags (omega arith) (omega arith) in
    let e' : bit_or a flags ≡ k * 2 ^ 12 + bit_or 0 flags = ap (λ t. bit_or t flags) (sym ea) ∙ e in
    (omega arith, omega arith)

-- What pmm_alloc returns for one page is 0 or a page address below 2 ^ 43.
alloc-aligned :
    (p : Pmm) → IsValid p → ((pmm_alloc p 1).1 % page_size ≡ 0) × ((pmm_alloc p 1).1 < 2 ^ 43)
alloc-aligned p v = by_case (pmm_alloc_lem p 1 v (omega arith) (omega arith))
  where
    by_case :
        Claimed p 1 (pmm_alloc p 1) ⊎ Refused p (pmm_alloc p 1)
        → ((pmm_alloc p 1).1 % page_size ≡ 0) × ((pmm_alloc p 1).1 < 2 ^ 43)
    by_case (inl (k, r, lo, hi, free, used, su)) =
        let small = v.small in rw r (omega arith, omega arith)
    by_case (inr (r, why)) = rw r (omega arith, omega arith)

-- After a call with the present flag among the flags: the entry is present and leads to the table
-- that the call returns; and outside that entry and that table no word has changed.
pub record Reached (m : Vm) (pml i : ℕ) (r : ℕ × Vm) : Type 0 where
  pub plain : IsPlain r.1
  pub present : r.1.words (cell pml i) % 2 ≡ 1
  pub leads : r.1.words (cell pml i) / page_size * page_size ≡ r.0
  pub bounded : r.0 < 2 ^ 52
  pub frame : (x : ℕ) → x ≢ cell pml i → within r.0 page_size x ≡ false → r.1.words x ≡ m.words x

pub entry-table : (e : ℕ) → IsEntry e → e / page_size * page_size ≡ table_of e
entry-table e (small, low) = omega arith

pub table_of-bit_or :
    (a flags : ℕ) → a % page_size ≡ 0 → flags < 512 → table_of (bit_or a flags) ≡ a
table_of-bit_or a flags al few =
    let k = a / 4096 in
    let ea : k * 2 ^ 12 + 0 ≡ a = omega arith in
    let e = bit_or-low 12 k 0 flags (omega arith) (omega arith) in
    let z : bit_or 0 flags < 2 ^ 9 = bit_or-lt 9 0 flags (omega arith) (omega arith) in
    let e' : bit_or a flags ≡ k * 2 ^ 12 + bit_or 0 flags = ap (λ t. bit_or t flags) (sym ea) ∙ e in
    omega arith

-- On a valid state whose words are aligned addresses with flags, vmm_get_or_create_pml with the
-- present flag, among flags below 512, leaves such a state, in which the entry is present and
-- leads to the table that the call returns; outside that entry and that table no word changes.
pub vmm_get_or_create_pml-Reached :
    (m : Vm) (pml i flags : ℕ)
    → IsPlain m
    → flags < 512
    → flags % 2 ≡ 1
    → Reached m pml i (vmm_get_or_create_pml m pml i flags)
unfolding vmm_get_or_create_pml allocz_table
vmm_get_or_create_pml-Reached m pml i flags v few odd =
    elim (Bool-cases (m.words (cell pml i) % 2 == 0)) [
      | inl absent ↦
          let a = (pmm_alloc m.pmm 1).1 in
          let (al, small) = alloc-aligned m.pmm v.pages in
          let e = bit_or-IsEntry a flags al (omega arith) few in
          let two = bit_or-mod_two a flags in
          let base : table_of (bit_or a flags) ≡ a = table_of-bit_or a flags al few in
          let same : (cell pml i == cell pml i) ≡ true = (==_iff _ _).1 refl in
          rw (absent, same)
            (record {
              plain = record {
                pages = pmm_alloc-IsValid m.pmm 1 v.pages (omega arith) (omega arith);
                entry = λ x. (ground (arith, v.entry x, e), ground (arith, v.entry x, e));
              };
              present = rw same (omega (arith, two));
              leads = rw same (entry-table (bit_or a flags) e);
              bounded = omega (arith, base);
              frame = λ x ne out. ground (arith, base);
            })
      | inr there ↦ rw there (record {
        plain = v;
        present = ground arith;
        leads = entry-table (m.words (cell pml i)) (v.entry (cell pml i));
        bounded = let (small, low) = v.entry (cell pml i) in omega arith;
        frame = λ x ne out. refl;
      })
    ]
