-- ===== src/Vmm/Store.antt =====
-- The store of the last entry in vmm_set_pt_value, on a tree of tables.
use apopt_os.Base.{
  ℕ, zero, suc, ◌+◌, ◌*◌, ◌%◌, ◌<◌, ◌≤◌, ◌≡◌, ◌≢◌, refl, sym, ◌∙◌, ap, Bool, true, false, ◌&&◌,
  Option, some, none, List, ◌==◌, if◌then◌else◌, arith, Bool-cases, inl, inr,
}
use apopt_os.Slab.Heap.{put}
use apopt_os.Vmm.Ops.{Vm}
use apopt_os.Vmm.Space.{
  base, level_index, resolve, translate, same_from, same_from-page_of, page_of,
}
use apopt_os.Vmm.Tree.{Shape, IsTree}
use apopt_os.Vmm.Fresh.{same_entry}

-- The walk for `v` from the table of level `k + 1` that `entry` names leads to the last table `t`.
abbrev pub OnPath : (ℕ → ℕ) → ℕ → ℕ → ℕ → ℕ → Type 0
OnPath words zero entry v t = base entry ≡ t
OnPath words (suc k) entry v t =
    let w = words (base entry + 8 * level_index v (suc (suc k))) in
    (w % 2 ≡ 1) × OnPath words k w v t

-- what the unit makes of a last entry
abbrev pub if_present : ℕ → Option ℕ
if_present value = if value % 2 == 1 then some value else none

differ : (a b c d : ℕ) (r : Bool) → (a ≡ b → c ≢ d) → ((a == b) && ((c == d) && r)) ≡ false
differ a b c d r ne = elim (Bool-cases (a == b)) [
  | inr apart ↦ rw apart refl
  | inl yes_first ↦ elim (Bool-cases (c == d)) [
    | inr apart ↦ rw (yes_first, apart) refl
    | inl yes_second ↦ absurd (ne (ground (arith, yes_first)) (ground (arith, yes_second)))
  ]
]

module _ {m : Vm} {root : ℕ} {g : Shape} (tree : IsTree m root g) (t v value : ℕ)
    (last : g.level t ≡ 1) where
  abbrev pub stored : ℕ → ℕ
  stored = put m.words (t + 8 * level_index v 1) value

  -- The entries of the tables above the last level stay.
  stored-above : (s j : ℕ) → 2 ≤ g.level s → j < 512 → stored (s + 8 * j) ≡ m.words (s + 8 * j)
  stored-above s j h hj =
      let ne : t + 8 * level_index v 1 ≢ s + 8 * j = λ eq.
        let (e1, e2) =
          same_entry tree t (level_index v 1) s j (omega arith) (omega arith) (omega arith) hj eq in
        omega (arith, ap g.level e1) in
      ground arith

  -- One walk, for an address `w`, against the path of `v`.
  resolve-stored :
      (k entry entry' w : ℕ)
      → g.level (base entry) ≡ suc k
      → g.level (base entry') ≡ suc k
      → OnPath m.words k entry v t
      → resolve stored (suc k) entry' w ≡ (
          if (base entry' == base entry) && same_from (suc k) w v
          then if_present value
          else resolve m.words (suc k) entry' w)
  unfolding resolve
  resolve-stored zero entry entry' w ls ls' path =
      let s' = base entry' in
      let j' = level_index w 1 in
      elim (Bool-cases (t + 8 * level_index v 1 == s' + 8 * j')) [
        | inl same ↦
            let (e1, e2) =
              same_entry tree t (level_index v 1) s' j' (omega arith) (omega arith) (omega arith)
                (omega arith) (ground (arith, same)) in
            let cond : ((base entry' == base entry) && same_from 1 w v) ≡ true =
              ground (arith, path) in
            rw (same, cond) refl
        | inr other ↦
            let cond : ((base entry' == base entry) && same_from 1 w v) ≡ false =
              ground (arith, path, other) in
            rw (other, cond) refl
      ]
  resolve-stored (suc k) entry entry' w ls ls' (there, path) =
      let s = base entry in
      let s' = base entry' in
      let j = level_index v (suc (suc k)) in
      let j' = level_index w (suc (suc k)) in
      let st : stored (s' + 8 * j') ≡ m.words (s' + 8 * j') =
        stored-above s' j' (omega arith) (omega arith) in
      rw st (elim (Bool-cases (m.words (s' + 8 * j') % 2 == 1)) [
        | inl odd ↦
            let c = tree.child s j (omega arith) (omega arith) there in
            let c' = tree.child s' j' (omega arith) (omega arith) (ground (arith, odd)) in
            let next =
              resolve-stored k (m.words (s + 8 * j)) (m.words (s' + 8 * j')) w
                (omega (arith, c.below)) (omega (arith, c'.below)) path in
            rw odd (elim (Bool-cases (base (m.words (s' + 8 * j')) == base (m.words (s + 8 * j)))) [
              | inl same ↦
                  let named : s' + 8 * j' ≡ s + 8 * j =
                    sym c'.named ∙ ap g.up (ground (arith, same)) ∙ c.named in
                  let (e1, e2) =
                    same_entry tree s' j' s j (omega arith) (omega arith) (omega arith)
                      (omega arith) named in
                  let es : (s' == s) ≡ true = ground (arith, e1) in
                  let ej : (j' == j) ≡ true = ground (arith, e2) in
                  rw (es, ej) (next ∙ rw same refl)
              | inr apart ↦
                  let ne : s' ≡ s → j' ≢ j = λ e1 e2.
                    let eq : s' + 8 * j' ≡ s + 8 * j = omega (arith, e1, e2) in
                    ground (arith, apart, ap (λ x. base (m.words x)) eq) in
                  rw (differ s' s j' j (same_from (suc k) w v) ne) (next ∙ rw apart refl)
            ])
        | inr even ↦
            let ne : s' ≡ s → j' ≢ j = λ e1 e2.
              let eq : s' + 8 * j' ≡ s + 8 * j = omega (arith, e1, e2) in
              ground (arith, even, there, ap m.words eq) in
            rw (even, differ s' s j' j (same_from (suc k) w v) ne) refl
      ])

  -- The tables stay a tree.
  pub stored-IsTree :
      (flushed : List ℕ) → IsTree (record m { words = stored; flushed = flushed }) root g
  stored-IsTree flushed = record {
    sound = tree.sound;
    top = tree.top;
    aligned = tree.aligned;
    bounded = tree.bounded;
    used = tree.used;
    child = λ s j two hj there.
        let same = stored-above s j two hj in rw same (tree.child s j two hj (rw same at there));
  }

  -- The space gets the entry for the page of `v`, where the walk for `v` leads to the table `t`.
  pub translate-stored :
      OnPath m.words 3 root v t
      → (w : ℕ)
      → translate stored root w
        ≡ (if page_of w == page_of v then if_present value else translate m.words root w)
  unfolding translate
  translate-stored path w =
      let al = tree.aligned root (omega (arith, tree.top)) in
      let base_root : base root ≡ root = omega arith in
      let lr : g.level (base root) ≡ 4 = ap g.level base_root ∙ tree.top in
      let self : (base root == base root) ≡ true = ground arith in
      resolve-stored 3 root root w lr lr path ∙ rw (self, same_from-page_of w v) refl
