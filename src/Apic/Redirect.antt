-- ===== src/Apic/Redirect.antt =====
-- ioapic_set_irq_redirect: which IOAPIC and which of its registers an IRQ is redirected by.
use apopt_os.Base.{
  ◌⊎◌, ◌≢◌, false, ◌==◌, ℕ, ◌+◌, ◌-◌, ◌*◌, ◌^◌, ◌<◌, ◌≤◌, ◌≡◌, ◌∙◌, refl, ap, Bool, true, ◌&&◌,
  Option, none, some, List, [], ◌∷◌, u8, u32, u64, shr, ltb, leb, if◌then◌else◌, arith, Bool-cases,
  inl, inr, phys_to_higher_half_data,
}
use apopt_os.Str.{Memory}
use apopt_os.Acpi.Madt.{Madt}
use apopt_os.Apic.Entry.{redirect_entry-IsEntry}
use apopt_os.Apic.{
  irq_source, iso_gsi, iso_flags, Writes, Device, ioregsel, iowin, ioapic_address, gsi_base,
  write_reg, ioapic_select, ioapic_write_reg, ioapic_get_max_redirect, ioapic_from_gsi,
  redirect_entry, redirected, ioapic_set_gsi_redirect, find_iso, resolved, with_gsi,
  ioapic_set_irq_redirect,
}

-- The maximum redirection entry in the version register of an IOAPIC, the number of its last input and
-- so one less than the number of its inputs, is a property of the device: a read gives the same
-- whatever was written before. Its range ends below 2 ^ 32.
pub record KeepsVersion (device : Device) (m : Memory) (last_input : ℕ → ℕ) (ioapic : ℕ)
    : Type 0 where
  pub version : (w : Writes) → (ioapic_get_max_redirect device m w ioapic).0 ≡ last_input ioapic
  pub small : gsi_base m ioapic + last_input ioapic < 2 ^ 32

abbrev pub KeepVersions : Device → Memory → (ℕ → ℕ) → List ℕ → Type 0
KeepVersions device m last_input [] = Unit {0}
KeepVersions device m last_input (p ∷ ps) =
    KeepsVersion device m last_input p × KeepVersions device m last_input ps

-- A global interrupt number that the source takes for one of an IOAPIC: from its base on and before
-- its last input.
abbrev pub serves : Memory → (ℕ → ℕ) → ℕ → ℕ → Bool
serves m last_input gsi ioapic =
    leb (gsi_base m ioapic) gsi && ltb gsi (gsi_base m ioapic + last_input ioapic)

abbrev pub first_serving : Memory → (ℕ → ℕ) → ℕ → List ℕ → Option ℕ
first_serving m last_input gsi [] = none
first_serving m last_input gsi (p ∷ ps) =
    if serves m last_input gsi p then some p else first_serving m last_input gsi ps

module _ (device : Device) (m : Memory) (last_input : ℕ → ℕ) where
  -- The search gives the first IOAPIC with the number before its last input, or panics without one.
  pub ioapic_from_gsi-first :
      (w : Writes) (gsi : ℕ) (ioapics : List ℕ)
      → KeepVersions device m last_input ioapics
      → (ioapic_from_gsi device m w gsi ioapics).0 ≡ first_serving m last_input gsi ioapics
  unfolding ioapic_from_gsi
  ioapic_from_gsi-first w gsi [] keep = refl
  ioapic_from_gsi-first w gsi (p ∷ ps) (keeps, keep) =
      let v = keeps.version w in
      let s = keeps.small in
      let same : u32 (gsi_base m p + (ioapic_get_max_redirect device m w p).0)
          ≡ gsi_base m p + last_input p =
        omega (arith, v, s) in
      rw same (elim (Bool-cases (serves m last_input gsi p)) [
        | inl yes_serves ↦ rw yes_serves refl
        | inr other ↦
            rw other (ioapic_from_gsi-first (ioapic_get_max_redirect device m w p).1 gsi ps keep)
      ])

-- The global interrupt number and the flags of an IRQ: those of its first override, and without one
-- its own number and the default flags.
abbrev pub Overrides : Memory → ℕ → List ℕ → ℕ → ℕ → Type 0
Overrides m irq [] gsi flags = (gsi ≡ irq) × (flags ≡ 0)
Overrides m irq (iso ∷ isos) gsi flags =
    ((irq_source m iso ≡ irq) × (gsi ≡ iso_gsi m iso) × (flags ≡ iso_flags m iso))
    ⊎ ((irq_source m iso ≢ irq) × Overrides m irq isos gsi flags)

resolved-Overrides :
    (m : Memory) (irq gsi flags : ℕ) (isos : List ℕ)
    → Overrides m irq isos gsi flags
    → resolved m irq (find_iso m irq isos) ≡ (gsi, flags)
unfolding find_iso
resolved-Overrides m irq gsi flags [] (own, default) = rw (own, default) refl
resolved-Overrides m irq gsi flags (iso ∷ isos) (inl (same, eg, ef)) =
    let here : (irq_source m iso == irq) ≡ true = ground (arith, same) in rw (here, eg, ef) refl
resolved-Overrides m irq gsi flags (iso ∷ isos) (inr (other, rest)) =
    let apart : (irq_source m iso == irq) ≡ false = ground (arith, other) in
    rw apart (resolved-Overrides m irq gsi flags isos rest)

-- The four writes that store an entry in the registers of an input.
pub record IsStored (m : Memory) (p input e : ℕ) (w v : Writes) : Type 0 where
  pub window : ℕ
  pub low : ℕ
  pub high : ℕ
  pub at : window ≡ phys_to_higher_half_data (ioapic_address m p)
  pub halves : low + 2 ^ 32 * high ≡ e
  pub writes :
      v
      ≡ (u64 (window + iowin), high)
        ∷ (window, 0x10 + 2 * input + 1)
        ∷ (u64 (window + iowin), low)
        ∷ (window, 0x10 + 2 * input)
        ∷ w

redirected-IsStored :
    (m : Memory) (e gsi p : ℕ) (w : Writes)
    → e < 2 ^ 64
    → gsi_base m p ≤ gsi
    → gsi < 2 ^ 32
    → gsi - gsi_base m p < 120
    → (v : Writes) × (redirected m e gsi (some p, w) ≡ some v)
      × IsStored m p (gsi - gsi_base m p) e w v
unfolding ioapic_write_reg ioapic_select write_reg
redirected-IsStored m e gsi p w small above gs few =
    let base = gsi_base m p in
    let input : u32 (gsi + 2 ^ 32 - base) ≡ gsi - base = omega arith in
    let first : u32 (u8 (u32 ((gsi - base) * 2 + 0x10))) ≡ 0x10 + 2 * (gsi - base) = omega arith in
    let second : u32 (u8 (u32 ((gsi - base) * 2 + 0x10) + 1)) ≡ 0x10 + 2 * (gsi - base) + 1 =
      omega arith in
    let a = phys_to_higher_half_data (ioapic_address m p) in
    let select : u64 (a + ioregsel) ≡ a = omega arith in
    (
      _,
      refl,
      record {
        window = a;
        low = u32 (u32 e);
        high = u32 (u32 (shr e 32));
        at = refl;
        halves = omega arith;
        writes = rw (input, first, second, select) refl;
      },
    )

serves-range :
    (m : Memory) (last_input : ℕ → ℕ) (gsi : ℕ) (ps : List ℕ) {p : ℕ}
    → first_serving m last_input gsi ps ≡ some p
    → serves m last_input gsi p ≡ true
serves-range m last_input gsi [] e = absurd (ground (arith, e))
serves-range m last_input gsi (q ∷ ps) {p} e = elim (Bool-cases (serves m last_input gsi q)) [
  | inl yes_serves ↦ ground (arith, e)
  | inr other ↦ serves-range m last_input gsi ps (ground (arith, e))
]

-- the rest of ioapic_set_irq_redirect once the number and the flags are known
abbrev ioapic_set_resolved :
    Device → Memory → Madt → Writes → ℕ → ℕ → Bool → ℕ × ℕ → Option (ℕ × Writes)
ioapic_set_resolved device m t w lapic_id vector mask (gsi, flags) =
    with_gsi gsi (ioapic_set_gsi_redirect device m t.ioapics w lapic_id vector gsi flags mask)

redirect_entry-lt :
    (lapic_id vector flags : ℕ) (mask : Bool)
    → vector < 256
    → redirect_entry lapic_id vector flags mask < 2 ^ 64
redirect_entry-lt lapic_id vector flags mask small =
    let top = (redirect_entry-IsEntry lapic_id vector flags mask small).destination in
    omega (arith, top)

module _ (device : Device) (m : Memory) (last_input : ℕ → ℕ) where
  -- An IRQ is redirected by its first interrupt source override, if it has one, and else under its own
  -- number with the default flags: the first IOAPIC from whose base on, and before whose last input,
  -- that number lies gets the entry, its low half in the input's first register and its high half in
  -- the second, and the number is returned. The last inputs must be constants of the devices, that of
  -- the IOAPIC be 120 at most, and the ranges end below 2 ^ 32. The last input itself is not covered.
  pub ioapic_set_irq_redirect-IsStored :
      (t : Madt) (w : Writes) (lapic_id vector irq gsi flags : ℕ) (mask : Bool) (p : ℕ)
      → KeepVersions device m last_input t.ioapics
      → vector < 256
      → Overrides m irq t.isos gsi flags
      → gsi < 2 ^ 32
      → last_input p ≤ 120
      → first_serving m last_input gsi t.ioapics ≡ some p
      → (v w' : Writes) × (ioapic_set_irq_redirect device m t w lapic_id vector irq mask
          ≡ some (gsi, v))
        × IsStored m p (gsi - gsi_base m p) (redirect_entry lapic_id vector flags mask) w' v
  unfolding ioapic_set_irq_redirect ioapic_set_gsi_redirect
  ioapic_set_irq_redirect-IsStored t w lapic_id vector irq gsi flags mask p keep small overrides gs
        few e =
      let entry = redirect_entry lapic_id vector flags mask in
      let found = ioapic_from_gsi device m w gsi t.ioapics in
      let range = serves-range m last_input gsi t.ioapics e in
      let (v, stored, is) =
        redirected-IsStored m entry gsi p found.1
          (redirect_entry-lt lapic_id vector flags mask small) (ground (arith, range)) gs
          (ground (arith, range)) in
      let hit : found.0 ≡ some p =
        ioapic_from_gsi-first device m last_input w gsi t.ioapics keep ∙ e in
      (
        v,
        found.1,
        ap (λ (r : ℕ × ℕ). ioapic_set_resolved device m t w lapic_id vector mask r)
              (resolved-Overrides m irq gsi flags t.isos overrides)
            ∙ ap (λ o. with_gsi gsi (redirected m entry gsi (o, found.1))) hit
            ∙ ap (with_gsi gsi) stored,
        is,
      )
