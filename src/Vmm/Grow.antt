-- ===== src/Vmm/Grow.antt =====
-- vmm_get_or_create_pml on a tree of tables.
use apopt_os.Base.{
  ℕ, ◌+◌, ◌-◌, ◌*◌, ◌%◌, ◌^◌, ◌<◌, ◌≤◌, ◌≡◌, ◌≢◌, refl, sym, ◌∙◌, ap, true, false, bit_or, ◌==◌,
  if◌then◌else◌, page_size, page_to_bit, arith, Bool-cases, inl, inr, bit_or-mod_two,
}
use apopt_os.Bitmap.{is_set}
use apopt_os.Pmm.{Pmm, pmm_alloc}
use apopt_os.Pmm.Safety.{pmm_alloc_one}
use apopt_os.Pmm.Supply.{free_pages, IsSound, pmm_alloc-free_pages, pmm_alloc-Spent}
use apopt_os.Str.Laws.{within}
use apopt_os.Slab.Heap.{put}
use apopt_os.Vmm.Ops.{Vm, cell, table_of, allocz_table, vmm_get_or_create_pml}
use apopt_os.Vmm.Level.{bit_or-IsEntry, table_of-bit_or, entry-table}
use apopt_os.Vmm.Space.{base, translate}
use apopt_os.Vmm.Tree.{Shape, IsChild, IsTree}
use apopt_os.Vmm.Fresh.{IsFresh, same_entry, resolve-fresh}

-- After vmm_get_or_create_pml for entry `i` of the table `t`: a tree with the tables of before, in
-- which the entry names the table that the call returns, and every walk finds what it found before.
pub record Grown (m : Vm) (root : ℕ) (g : Shape) (t i : ℕ) (r : ℕ × Vm) : Type 0 where
  pub shape : Shape
  pub tree : IsTree r.1 root shape
  pub same : (virt : ℕ) → translate r.1.words root virt ≡ translate m.words root virt
  pub tables : (s : ℕ) → 0 < g.level s → shape.level s ≡ g.level s
  pub kept :
      (s j : ℕ)
      → 0 < g.level s
      → j < 512
      → m.words (s + 8 * j) % 2 ≡ 1
      → r.1.words (s + 8 * j) ≡ m.words (s + 8 * j)
  pub present : r.1.words (t + 8 * i) % 2 ≡ 1
  pub leads : base (r.1.words (t + 8 * i)) ≡ r.0
  pub below : shape.level r.0 + 1 ≡ g.level t

abbrev pub zeroed : (ℕ → ℕ) → ℕ → ℕ → ℕ
zeroed words a x = if within a page_size x then 0 else words x

module _ {m : Vm} {root : ℕ} {g : Shape} (tree : IsTree m root g) (t i : ℕ) (table : 2 ≤ g.level t)
    (index : i < 512) where
  -- an entry that is present
  present-Grown :
      m.words (t + 8 * i) % 2 ≡ 1 → Grown m root g t i (table_of (m.words (t + 8 * i)), m)
  present-Grown there =
      let c = tree.child t i table index there in
      let e : base (m.words (t + 8 * i)) ≡ table_of (m.words (t + 8 * i)) =
        omega (arith, c.plain) in
      record {
        shape = g;
        tree = tree;
        same = λ virt. refl;
        tables = λ s h. refl;
        kept = λ s j h hj o. refl;
        present = there;
        leads = e;
        below = rw e at c.below;
      }

  module _ (flags a : ℕ) (few : flags < 512) (odd : flags % 2 ≡ 1) (page : a % page_size ≡ 0)
      (small : a < 2 ^ 43) (outside : g.level a ≡ 0) (absent : m.words (t + 8 * i) % 2 ≡ 0) where
    abbrev e : ℕ
    e = bit_or a flags

    abbrev after : ℕ → ℕ
    after = put (zeroed m.words a) (t + 8 * i) e

    -- A table is not the new page.
    other_page : (s : ℕ) → 0 < g.level s → s ≢ a
    other_page s h eq = omega (arith, h, outside, ap g.level eq)

    outside-page : (s j : ℕ) → 0 < g.level s → j < 512 → within a page_size (s + 8 * j) ≡ false
    outside-page s j h hj =
        let al = tree.aligned s h in let ne = other_page s h in ground (arith, page)

    outside-entry : (j : ℕ) → j < 512 → t + 8 * i ≢ a + 8 * j
    outside-entry j hj eq =
        let al = tree.aligned t (omega arith) in other_page t (omega arith) (omega arith)

    pub e-IsFresh : IsFresh m.words after g t i a e
    e-IsFresh =
        let (low, plain) = bit_or-IsEntry a flags page (omega arith) few in
        let two = bit_or-mod_two a flags in
        record {
          table = table;
          index = index;
          absent = absent;
          outside = outside;
          page = page;
          present = omega arith;
          plain = plain;
          names = entry-table e (low, plain) ∙ table_of-bit_or a flags page few;
          zero_words = λ j hj. let ne = outside-entry j hj in ground arith;
          old = λ s j h hj. rw (outside-page s j h hj) refl;
        }

    abbrev shape' : Shape
    shape' = record { level = put g.level a (g.level t - 1); up = put g.up a (t + 8 * i) }

    old_level : (s : ℕ) → 0 < g.level s → shape'.level s ≡ g.level s
    old_level s h = let ne = other_page s h in ground arith

    old_up : (s : ℕ) → 0 < g.level s → shape'.up s ≡ g.up s
    old_up s h = let ne = other_page s h in ground arith

    -- the new entry
    IsChild-new :
        (s j : ℕ)
        → 2 ≤ g.level s
        → j < 512
        → t + 8 * i ≡ s + 8 * j
        → IsChild shape' s (s + 8 * j) (after (s + 8 * j))
    IsChild-new s j two hj same =
        let f = e-IsFresh in
        let (e1, e2) = same_entry tree t i s j (omega arith) (omega arith) index hj same in
        let lift = ap g.level e1 in
        let here_true : (t + 8 * i == s + 8 * j) ≡ true = ground (arith, same) in
        let named : after (s + 8 * j) ≡ e = f.old s j (omega arith) hj ∙ rw here_true refl in
        let self : (a == a) ≡ true = ground arith in
        rw named (record {
          plain = f.plain;
          below = rw (f.names, self) (omega (arith, old_level s (omega arith), lift, table));
          named = rw (f.names, self) same;
        })

    -- an entry of before
    IsChild-old :
        (s j : ℕ)
        → 2 ≤ g.level s
        → j < 512
        → (t + 8 * i == s + 8 * j) ≡ false
        → after (s + 8 * j) % 2 ≡ 1
        → IsChild shape' s (s + 8 * j) (after (s + 8 * j))
    IsChild-old s j two hj apart there =
        let w = m.words (s + 8 * j) in
        let kept : after (s + 8 * j) ≡ w = e-IsFresh.old s j (omega arith) hj ∙ rw apart refl in
        let c = tree.child s j two hj (rw kept at there) in
        let lower : 0 < g.level (base w) = omega (arith, c.below) in
        rw kept (record {
          plain = c.plain;
          below = omega (arith, c.below, old_level (base w) lower, old_level s (omega arith));
          named = old_up (base w) lower ∙ c.named;
        })

    kept_present :
        (s j : ℕ)
        → 0 < g.level s
        → j < 512
        → m.words (s + 8 * j) % 2 ≡ 1
        → after (s + 8 * j) ≡ m.words (s + 8 * j)
    kept_present s j h hj there =
        let ne : t + 8 * i ≢ s + 8 * j = λ eq. omega (arith, there, absent, ap m.words eq) in
        let apart : (t + 8 * i == s + 8 * j) ≡ false = ground (arith, ne) in
        e-IsFresh.old s j h hj ∙ rw apart refl

    module _ (q : Pmm) (sound : IsSound q)
        (bits : (j : ℕ)
          → is_set q.bitmap j ≡ (if page_to_bit a == j then true else is_set m.pmm.bitmap j)) where
      abbrev grown : Vm
      grown = record m { pmm = q; words = after }

      -- an entry that is present in the new tables
      IsChild-after :
          (s j : ℕ)
          → 2 ≤ shape'.level s
          → j < 512
          → after (s + 8 * j) % 2 ≡ 1
          → IsChild shape' s (s + 8 * j) (after (s + 8 * j))
      IsChild-after s j h hj there = elim (Bool-cases (a == s)) [
        | inl new ↦
            let eq : a ≡ s = ground (arith, new) in
            let z : after (s + 8 * j) ≡ 0 =
              ap (λ x. after (x + 8 * j)) (sym eq) ∙ e-IsFresh.zero_words j hj in
            absurd (omega (arith, there, z))
        | inr other ↦
            let two : 2 ≤ g.level s = ground (arith, h, other) in
            elim (Bool-cases (t + 8 * i == s + 8 * j)) [
              | inl same ↦ IsChild-new s j two hj (ground (arith, same))
              | inr apart ↦ IsChild-old s j two hj apart there
            ]
      ]

      grown-IsTree : IsTree grown root shape'
      grown-IsTree = record {
        sound = sound;
        top = old_level root (omega (arith, tree.top)) ∙ tree.top;
        aligned = λ x h. ground (arith, tree.aligned x, page);
        bounded = λ x h. ground (arith, tree.bounded x, small);
        used = λ x h. ground (arith, tree.used x, bits (page_to_bit x));
        child = IsChild-after;
      }

      grown-Grown : Grown m root g t i (table_of (after (t + 8 * i)), grown)
      unfolding translate
      grown-Grown =
          let f = e-IsFresh in
          let self : (a == a) ≡ true = ground arith in
          let here_true : (t + 8 * i == t + 8 * i) ≡ true = ground arith in
          let stands : after (t + 8 * i) ≡ e = rw here_true refl in
          let base_root : base root ≡ root =
            let al = tree.aligned root (omega (arith, tree.top)) in omega arith in
          let tab : table_of (after (t + 8 * i)) ≡ a =
            ap table_of stands ∙ table_of-bit_or a flags page few in
          record {
            shape = shape';
            tree = grown-IsTree;
            same = λ virt.
                resolve-fresh tree e-IsFresh 4 root virt (λ pos. ap g.level base_root ∙ tree.top);
            tables = old_level;
            kept = kept_present;
            present = ap (λ x. x % 2) stands ∙ f.present;
            leads = ap base stands ∙ f.names ∙ sym tab;
            below = rw (tab, self) (omega (arith, table));
          }

module _ {m : Vm} {root : ℕ} {g : Shape} (tree : IsTree m root g) where
  -- A page that pmm_alloc gives is no table.
  outside-free : (a : ℕ) → is_set m.pmm.bitmap (page_to_bit a) ≡ false → g.level a ≡ 0
  outside-free a free = elim (Bool-cases (g.level a == 0)) [
    | inl zero_level ↦ ground arith
    | inr table ↦ absurd (ground (arith, tree.used a (ground (arith, table))))
  ]

  -- For a table of the tree above the last level, with a free page left and the present flag among
  -- flags below 512.
  pub vmm_get_or_create_pml-Grown :
      (pml t i flags : ℕ)
      → cell pml i ≡ t + 8 * i
      → 2 ≤ g.level t
      → i < 512
      → flags < 512
      → flags % 2 ≡ 1
      → 0 < free_pages m.pmm
      → Grown m root g t i (vmm_get_or_create_pml m pml i flags)
  unfolding vmm_get_or_create_pml allocz_table
  vmm_get_or_create_pml-Grown pml t i flags at table index few odd some_free =
      rw at (elim (Bool-cases (m.words (t + 8 * i) % 2 == 0)) [
        | inr there ↦ rw there (present-Grown tree t i table index (ground (arith, there)))
        | inl absent ↦ rw absent (elim (pmm_alloc-free_pages m.pmm tree.sound) [
          | inl (r, none_left) ↦ absurd (omega arith)
          | inr (pos, less, count, same) ↦
              let (q, a) = pmm_alloc m.pmm 1 in
              let (page, low, free, bits) = pmm_alloc_one m.pmm tree.sound.pages refl pos in
              grown-Grown tree t i table index flags a few odd page
                (omega (arith, low, tree.sound.pages.small)) (outside-free a free)
                (ground (arith, absent)) q (pmm_alloc-Spent m.pmm tree.sound).sound bits
        ])
      ])
