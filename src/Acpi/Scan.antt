-- ===== src/Acpi/Scan.antt =====
-- The loop of madt_init over the entries of the table.
use apopt_os.Base.{
  ◌*◌, ℕ, zero, suc, ◌+◌, ◌-◌, ◌<◌, ◌≤◌, ◌≡◌, ◌∙◌, true, false, none, some, List, [], ◌∷◌, ◌++◌,
  length, ltb, ◌==◌, if◌then◌else◌, arith, Bool-cases, inl, inr, refl, ap,
}
use mathlib.Core.List.{append_assoc, append-nil}
use apopt_os.Str.{Memory}
use apopt_os.Acpi.Madt.{Madt, empty_madt, store_entry, scan}

-- The entries from `p` on are `es`: each starts before the end and says how long it is, and the last
-- one ends at the end or behind it.
abbrev pub EntryChain : Memory → ℕ → ℕ → List ℕ → Type 0
EntryChain m end p [] = end ≤ p
EntryChain m end p (e ∷ es) = (p ≡ e) × (e < end) × EntryChain m end (e + m (e + 1)) es

-- The entries of a type, in their order.
abbrev pub of_kind : Memory → ℕ → List ℕ → List ℕ
of_kind m kind [] = []
of_kind m kind (e ∷ es) = if m e == kind then e ∷ of_kind m kind es else of_kind m kind es

abbrev pub filed : Memory → Madt → List ℕ → Madt
filed m t es = record {
  lapics = t.lapics ++ of_kind m 0 es;
  ioapics = t.ioapics ++ of_kind m 1 es;
  isos = t.isos ++ of_kind m 2 es;
  lapic_nmis = t.lapic_nmis ++ of_kind m 4 es;
}

snoc : (xs ys : List ℕ) (e : ℕ) → (xs ++ (e ∷ [])) ++ ys ≡ xs ++ (e ∷ ys)
snoc xs ys e = append_assoc xs (e ∷ []) ys

-- One entry is filed by its type, the others behind it.
filed-store_entry :
    (m : Memory) (t : Madt) (e : ℕ) (es : List ℕ)
    → filed m (store_entry m t e) es ≡ filed m t (e ∷ es)
unfolding store_entry
filed-store_entry m t e es = elim (Bool-cases (m e == 0)) [
  | inl k ↦
      let kind : m e ≡ 0 = ground (arith, k) in rw (kind, snoc t.lapics (of_kind m 0 es) e) refl
  | inr k0 ↦ elim (Bool-cases (m e == 1)) [
    | inl k ↦
        let kind : m e ≡ 1 = ground (arith, k) in rw (kind, snoc t.ioapics (of_kind m 1 es) e) refl
    | inr k1 ↦ elim (Bool-cases (m e == 2)) [
      | inl k ↦
          let kind : m e ≡ 2 = ground (arith, k) in rw (kind, snoc t.isos (of_kind m 2 es) e) refl
      | inr k2 ↦ elim (Bool-cases (m e == 4)) [
        | inl k ↦
            let kind : m e ≡ 4 = ground (arith, k) in
            rw (kind, snoc t.lapic_nmis (of_kind m 4 es) e) refl
        | inr k4 ↦ rw (k0, k1, k2, k4) refl
      ]
    ]
  ]
]

filed-nil : (m : Memory) (t : Madt) → filed m t [] ≡ t
filed-nil m t =
    rw (append-nil t.lapics, append-nil t.ioapics, append-nil t.isos, append-nil t.lapic_nmis) refl

scan-filed :
    (m : Memory) (end fuel p : ℕ) (t : Madt) (es : List ℕ)
    → EntryChain m end p es
    → length es < fuel
    → scan m end fuel t p ≡ some (filed m t es)
unfolding scan
scan-filed m end zero p t es chain enough = absurd (omega arith)
scan-filed m end (suc fuel) p t [] chain enough =
    let stop : ltb p end ≡ false = ground arith in rw (stop, filed-nil m t) refl
scan-filed m end (suc fuel) p t (e ∷ es) (same, before, chain) enough =
    let more : ltb e end ≡ true = ground arith in
    rw (same, more)
      (scan-filed m end fuel (e + m (e + 1)) (store_entry m t e) es chain (omega arith)
        ∙ ap some (filed-store_entry m t e es))

pub length-of_kind : (m : Memory) (kind : ℕ) (es : List ℕ) → length (of_kind m kind es) ≤ length es
length-of_kind m kind [] = omega arith
length-of_kind m kind (e ∷ es) = elim (Bool-cases (m e == kind)) [
  | inl same ↦ rw same (omega (arith, length-of_kind m kind es))
  | inr other ↦ rw other (omega (arith, length-of_kind m kind es))
]

-- No type has more entries than its array has places: a block of 256 bytes holds 32 pointers.
abbrev pub HasPlaces : Memory → List ℕ → Type 0
HasPlaces m es = (kind : ℕ) → length (of_kind m kind es) ≤ 32

-- Where the entries of the table are `es`, at most 32 of each type, the scan with more fuel than
-- entries ends, and each array holds the entries of its type, in their order, inside its block.
pub scan-of_kind :
    (m : Memory) (end fuel p : ℕ) (es : List ℕ)
    → EntryChain m end p es
    → HasPlaces m es
    → length es < fuel
    → (t : Madt) × (scan m end fuel empty_madt p ≡ some t)
      × ((t.lapics ≡ of_kind m 0 es)
          × (t.ioapics ≡ of_kind m 1 es)
          × (t.isos ≡ of_kind m 2 es)
          × (t.lapic_nmis ≡ of_kind m 4 es)
          × (8 * length t.lapics ≤ 256)
          × (8 * length t.ioapics ≤ 256)
          × (8 * length t.isos ≤ 256)
          × (8 * length t.lapic_nmis ≤ 256))
scan-of_kind m end fuel p es chain places enough = (
  filed m empty_madt es,
  scan-filed m end fuel p empty_madt es chain enough,
  (
    refl,
    refl,
    refl,
    refl,
    omega (arith, places 0),
    omega (arith, places 1),
    omega (arith, places 2),
    omega (arith, places 4),
  ),
)

-- The scan ends for every table whose entries have lengths that are not 0, and with more fuel than
-- the table has bytes.
pub scan_ends :
    (m : Memory) (end fuel p : ℕ) (t : Madt)
    → ((x : ℕ) → 0 < m (x + 1))
    → end - p < fuel
    → (u : Madt) × (scan m end fuel t p ≡ some u)
unfolding scan
scan_ends m end zero p t pos enough = absurd (omega arith)
scan_ends m end (suc fuel) p t pos enough = elim (Bool-cases (ltb p end)) [
  | inl more ↦
      let positive = pos p in
      let before : p < end = ground arith in
      rw more (scan_ends m end fuel (p + m (p + 1)) (store_entry m t p) pos (omega arith))
  | inr stop ↦ rw stop (t, refl)
]

-- It does not end, whatever the fuel, where it meets an entry of length 0.
pub scan_stuck :
    (m : Memory) (end fuel p : ℕ) (t : Madt) → p < end → m (p + 1) ≡ 0 → scan m end fuel t p ≡ none
unfolding scan
scan_stuck m end zero p t before none_long = refl
scan_stuck m end (suc fuel) p t before none_long =
    let more : ltb p end ≡ true = ground arith in
    let same : p + m (p + 1) ≡ p = omega arith in
    rw (more, same) (scan_stuck m end fuel p (store_entry m t p) before none_long)
