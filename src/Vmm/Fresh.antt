-- ===== src/Vmm/Fresh.antt =====
-- A table that is added to the tree: an empty page that one entry begins to name.
use apopt_os.Base.{
  ℕ, zero, suc, ◌+◌, ◌*◌, ◌%◌, ◌<◌, ◌≤◌, ◌≡◌, refl, ap, none, ◌==◌, if◌then◌else◌, page_size, arith,
  Bool-cases, inl, inr,
}
use apopt_os.Vmm.Ops.{Vm}
use apopt_os.Vmm.Space.{base, level_index, resolve}
use apopt_os.Vmm.Tree.{Shape, IsTree}

-- The page `a`, which is no table, becomes the empty table that entry `i` of the table `t` names.
pub record IsFresh (words after : ℕ → ℕ) (g : Shape) (t i a e : ℕ) : Type 0 where
  pub table : 2 ≤ g.level t
  pub index : i < 512
  pub absent : words (t + 8 * i) % 2 ≡ 0
  pub outside : g.level a ≡ 0
  pub page : a % page_size ≡ 0
  pub present : e % 2 ≡ 1
  pub plain : e % page_size < 512
  pub names : base e ≡ a
  pub zero_words : (j : ℕ) → j < 512 → after (a + 8 * j) ≡ 0
  pub old :
      (s j : ℕ)
      → 0 < g.level s
      → j < 512
      → after (s + 8 * j) ≡ (if t + 8 * i == s + 8 * j then e else words (s + 8 * j))

module _ {m : Vm} {root : ℕ} {g : Shape} (tree : IsTree m root g) where
  -- Two entries at the same address are the same entry of the same table.
  pub same_entry :
      (t i s j : ℕ)
      → 0 < g.level t
      → 0 < g.level s
      → i < 512
      → j < 512
      → t + 8 * i ≡ s + 8 * j
      → (t ≡ s) × (i ≡ j)
  same_entry t i s j lt ls hi hj e =
      let al_t = tree.aligned t lt in let al_s = tree.aligned s ls in (omega arith, omega arith)

  module _ {after : ℕ → ℕ} {t i a e : ℕ} (f : IsFresh m.words after g t i a e) where
    -- No walk finds anything in the new table.
    resolve-empty : (k virt : ℕ) → resolve after (suc k) e virt ≡ none
    unfolding resolve
    resolve-empty k virt =
        let z = f.zero_words (level_index virt (suc k)) (omega arith) in rw (f.names, z) refl

    empty-at : (k virt : ℕ) → 2 ≤ suc k → resolve after k e virt ≡ none
    empty-at zero virt h = absurd (omega arith)
    empty-at (suc k) virt h = resolve-empty k virt

    -- Every walk finds what it found before.
    pub resolve-fresh :
        (k entry virt : ℕ)
        → (0 < k → g.level (base entry) ≡ k)
        → resolve after k entry virt ≡ resolve m.words k entry virt
    unfolding resolve
    resolve-fresh zero entry virt h = refl
    resolve-fresh (suc k) entry virt h =
        let s = base entry in
        let j = level_index virt (suc k) in
        let ls : g.level s ≡ suc k = h (omega arith) in
        let hj : j < 512 = omega arith in
        let o = f.old s j (omega arith) hj in
        elim (Bool-cases (t + 8 * i == s + 8 * j)) [
          | inl same ↦
              let same' : t + 8 * i ≡ s + 8 * j = ground (arith, same) in
              let lt = f.table in
              let (e1, e2) = same_entry t i s j (omega arith) (omega arith) f.index hj same' in
              let gone : m.words (s + 8 * j) % 2 ≡ 0 = rw same' at f.absent in
              let higher : 2 ≤ suc k = omega (arith, ls, lt, ap g.level e1) in
              let named : after (s + 8 * j) ≡ e = rw same at o in
              rw (named, f.present, gone) (empty-at k virt higher)
          | inr other ↦
              let kept : after (s + 8 * j) ≡ m.words (s + 8 * j) = rw other at o in
              rw kept (elim (Bool-cases (m.words (s + 8 * j) % 2 == 1)) [
                | inl there ↦ rw there (
                    resolve-fresh k (m.words (s + 8 * j)) virt (λ pos.
                      omega (
                        arith,
                        ls,
                        (tree.child s j (omega arith) hj (ground (arith, there))).below,
                      )))
                | inr gone ↦ rw gone refl
              ])
        ]
