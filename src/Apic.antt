-- ===== src/Apic.antt =====
-- src/kernel/hardware/apic/apic.c: the interrupt controllers of the processors (LAPIC) and of the
-- devices (IOAPIC) behind their registers in memory. The devices are a parameter: what a register
-- gives when it is read, from the writes to all registers so far, the latest first.
pub mod Hpet
pub mod Entry
pub mod Redirect
pub mod Init
pub mod Tests
use apopt_os.Base.{
  ℕ, zero, suc, ◌+◌, ◌-◌, ◌*◌, ◌/◌, ◌%◌, ◌^◌, Bool, true, false, ◌&&◌, Option, none, some, List, [],
  ◌∷◌, bit_or, bit_and, u8, u32, u64, shr, ltb, leb, ◌==◌, if◌then◌else◌, phys_to_higher_half_data,
}
use apopt_os.Str.{Memory}
use apopt_os.Boot.{read_bytes}
use apopt_os.Acpi.Madt.{Madt}

abbrev pub Writes : Type 0
Writes = List (ℕ × ℕ)

abbrev pub Device : Type 0
Device = Writes → ℕ → ℕ

abbrev pub lapic_id_reg : ℕ
lapic_id_reg = 0x020

abbrev pub lapic_eoi_reg : ℕ
lapic_eoi_reg = 0x0B0

abbrev pub lapic_spurious_reg : ℕ
lapic_spurious_reg = 0x0F0

abbrev pub lapic_icr0_reg : ℕ
lapic_icr0_reg = 0x300

abbrev pub lapic_icr1_reg : ℕ
lapic_icr1_reg = 0x310

abbrev pub lapic_timer_reg : ℕ
lapic_timer_reg = 0x320

abbrev pub lapic_timer_initcnt_reg : ℕ
lapic_timer_initcnt_reg = 0x380

abbrev pub lapic_timer_curcnt_reg : ℕ
lapic_timer_curcnt_reg = 0x390

abbrev pub lapic_timer_div_reg : ℕ
lapic_timer_div_reg = 0x3E0

abbrev pub lapic_enable_bit : ℕ
lapic_enable_bit = 2 ^ 8

abbrev pub lapic_timer_disable_bit : ℕ
lapic_timer_disable_bit = 2 ^ 16

abbrev pub ioregsel : ℕ
ioregsel = 0

abbrev pub iowin : ℕ
iowin = 0x10

abbrev pub ioapicver_reg : ℕ
ioapicver_reg = 1

abbrev pub ioapic_pinpol_bit : ℕ
ioapic_pinpol_bit = 2 ^ 13

abbrev pub ioapic_trigmode_bit : ℕ
ioapic_trigmode_bit = 2 ^ 15

abbrev pub ioapic_mask_bit : ℕ
ioapic_mask_bit = 2 ^ 16

-- in what the processor says of its features
abbrev pub cpuid_feat_edx_apic : ℕ
cpuid_feat_edx_apic = 2 ^ 9

unfoldable pub apic_is_available : ℕ → Bool
apic_is_available edx = if bit_and edx cpuid_feat_edx_apic == 0 then false else true

abbrev pub lapic_timer_int : ℕ
lapic_timer_int = 32

-- IRQ_TO_IOREDTBL_REG on a `uint32_t`
abbrev pub irq_to_ioredtbl_reg : ℕ → ℕ
irq_to_ioredtbl_reg irq = u32 (irq * 2 + 0x10)

-- The fields of `madt_ioapic_t` and `madt_iso_t` at an address.
abbrev pub ioapic_address : Memory → ℕ → ℕ
ioapic_address m p = read_bytes m (p + 4) 4

abbrev pub gsi_base : Memory → ℕ → ℕ
gsi_base m p = read_bytes m (p + 8) 4

abbrev pub irq_source : Memory → ℕ → ℕ
irq_source m p = m (p + 3)

abbrev pub iso_gsi : Memory → ℕ → ℕ
iso_gsi m p = read_bytes m (p + 4) 4

abbrev pub iso_flags : Memory → ℕ → ℕ
iso_flags m p = read_bytes m (p + 8) 2

unfoldable pub write_reg : Writes → ℕ → ℕ → Writes
write_reg w address value = (u64 address, u32 value) ∷ w

module _ (device : Device) where
  unfoldable pub read_reg : Writes → ℕ → ℕ
  read_reg w address = u32 (device w (u64 address))

  -- `lapic` is the global lapic_address.
  unfoldable pub lapic_read_reg : Writes → ℕ → ℕ → ℕ
  lapic_read_reg w lapic reg = read_reg w (lapic + reg)

  unfoldable pub lapic_get_id : Writes → ℕ → ℕ
  lapic_get_id w lapic = u8 (shr (lapic_read_reg w lapic lapic_id_reg) 24)

unfoldable pub lapic_write_reg : Writes → ℕ → ℕ → ℕ → Writes
lapic_write_reg w lapic reg value = write_reg w (lapic + reg) value

unfoldable pub lapic_enable : Device → Writes → ℕ → Writes
lapic_enable device w lapic =
    lapic_write_reg w lapic lapic_spurious_reg
      (bit_or (bit_or (lapic_read_reg device w lapic lapic_spurious_reg) lapic_enable_bit) 255)

unfoldable pub lapic_signal_eoi : Writes → ℕ → Writes
lapic_signal_eoi w lapic = lapic_write_reg w lapic lapic_eoi_reg 0

unfoldable pub lapic_send_ipi : Writes → ℕ → ℕ → ℕ → Writes
lapic_send_ipi w lapic lapic_id vector =
    lapic_write_reg (lapic_write_reg w lapic lapic_icr1_reg (u32 (lapic_id * 2 ^ 24))) lapic
      lapic_icr0_reg vector

-- With the global lapic_timer_freq.
unfoldable pub lapic_timer_oneshot : Writes → ℕ → ℕ → ℕ → Writes
lapic_timer_oneshot w lapic lapic_timer_freq us =
    let ticks = u32 (us * (lapic_timer_freq / 1000000)) in
    lapic_write_reg
      (lapic_write_reg (lapic_write_reg w lapic lapic_timer_reg lapic_timer_int) lapic
        lapic_timer_div_reg 3)
      lapic lapic_timer_initcnt_reg ticks

-- The registers of an IOAPIC are reached through the window: its number is written first.
unfoldable pub ioapic_select : Memory → Writes → ℕ → ℕ → Writes
ioapic_select m w ioapic reg =
    write_reg w (phys_to_higher_half_data (ioapic_address m ioapic) + ioregsel) reg

unfoldable pub ioapic_read_reg : Device → Memory → Writes → ℕ → ℕ → ℕ × Writes
ioapic_read_reg device m w ioapic reg =
    let w' = ioapic_select m w ioapic reg in
    (read_reg device w' (phys_to_higher_half_data (ioapic_address m ioapic) + iowin), w')

unfoldable pub ioapic_write_reg : Memory → Writes → ℕ → ℕ → ℕ → Writes
ioapic_write_reg m w ioapic reg value =
    write_reg (ioapic_select m w ioapic reg)
      (phys_to_higher_half_data (ioapic_address m ioapic) + iowin) value

-- `(x & 0xFF0000) >> 16`
unfoldable pub ioapic_get_max_redirect : Device → Memory → Writes → ℕ → ℕ × Writes
ioapic_get_max_redirect device m w ioapic =
    let (x, w') = ioapic_read_reg device m w ioapic ioapicver_reg in
    (shr (bit_and x 0xFF0000) 16, w')

-- The loop over the IOAPICs, which are given by their addresses; `none` is a kernel panic.
unfoldable pub ioapic_from_gsi : Device → Memory → Writes → ℕ → List ℕ → Option ℕ × Writes
ioapic_from_gsi device m w gsi [] = (none, w)
ioapic_from_gsi device m w gsi (ioapic ∷ ioapics) =
    let (n, w') = ioapic_get_max_redirect device m w ioapic in
    let rest = ioapic_from_gsi device m w' gsi ioapics in
    let start_gsi = gsi_base m ioapic in
    let end_gsi = u32 (start_gsi + n) in
    if leb start_gsi gsi && ltb gsi end_gsi then (some ioapic, w') else rest

-- The entry of ioapic_set_gsi_redirect, a `uint64_t`.
unfoldable pub redirect_entry : ℕ → ℕ → ℕ → Bool → ℕ
redirect_entry lapic_id vector flags mask =
    let e1 = if bit_and flags 2 == 0 then vector else bit_or vector ioapic_pinpol_bit in
    let e2 = if bit_and flags 8 == 0 then e1 else bit_or e1 ioapic_trigmode_bit in
    let e3 =
      if mask then bit_or e2 ioapic_mask_bit else bit_and e2 (2 ^ 64 - 1 - ioapic_mask_bit) in
    bit_or e3 (u64 (lapic_id * 2 ^ 56))

abbrev pub redirected : Memory → ℕ → ℕ → Option ℕ × Writes → Option Writes
redirected m entry gsi (none, w) = none
redirected m entry gsi (some ioapic, w) =
    let ioredtbl = irq_to_ioredtbl_reg (u32 (gsi + 2 ^ 32 - gsi_base m ioapic)) in
    some (
      ioapic_write_reg m (ioapic_write_reg m w ioapic (u8 ioredtbl) (u32 entry)) ioapic
        (u8 (ioredtbl + 1)) (u32 (shr entry 32)))

unfoldable pub ioapic_set_gsi_redirect :
    Device → Memory → List ℕ → Writes → ℕ → ℕ → ℕ → ℕ → Bool → Option Writes
ioapic_set_gsi_redirect device m ioapics w lapic_id vector gsi flags mask =
    redirected m (redirect_entry lapic_id vector flags mask) gsi
      (ioapic_from_gsi device m w gsi ioapics)

-- The entry that resolves an IRQ, if there is one: the loop over the interrupt source overrides.
unfoldable pub find_iso : Memory → ℕ → List ℕ → Option ℕ
find_iso m irq [] = none
find_iso m irq (iso ∷ isos) =
    let rest = find_iso m irq isos in if irq_source m iso == irq then some iso else rest

-- The number and the flags by which an IRQ is redirected.
abbrev pub resolved : Memory → ℕ → Option ℕ → ℕ × ℕ
resolved m irq none = (irq, 0)
resolved m irq (some iso) = (iso_gsi m iso, iso_flags m iso)

abbrev pub with_gsi : ℕ → Option Writes → Option (ℕ × Writes)
with_gsi gsi none = none
with_gsi gsi (some w) = some (gsi, w)

unfoldable pub ioapic_set_irq_redirect :
    Device → Memory → Madt → Writes → ℕ → ℕ → ℕ → Bool → Option (ℕ × Writes)
ioapic_set_irq_redirect device m t w lapic_id vector irq mask =
    let (gsi, flags) = resolved m irq (find_iso m irq t.isos) in
    with_gsi gsi (ioapic_set_gsi_redirect device m t.ioapics w lapic_id vector gsi flags mask)

-- The low half is read first, as the operands of the `|` are written.
abbrev pub vector_of : Device → Memory → ℕ → Option ℕ × Writes → Option (ℕ × Writes)
vector_of device m gsi (none, w) = none
vector_of device m gsi (some ioapic, w) =
    let ioredtbl = irq_to_ioredtbl_reg (u32 (gsi + 2 ^ 32 - gsi_base m ioapic)) in
    let (low, w1) = ioapic_read_reg device m w ioapic (u8 ioredtbl) in
    let (high, w2) = ioapic_read_reg device m w1 ioapic (u8 (ioredtbl + 1)) in
    some (u8 (bit_and (bit_or low (high * 2 ^ 32)) 0xFF), w2)

unfoldable pub ioapic_get_vector_from_gsi :
    Device → Memory → List ℕ → Writes → ℕ → Option (ℕ × Writes)
ioapic_get_vector_from_gsi device m ioapics w gsi =
    vector_of device m gsi (ioapic_from_gsi device m w gsi ioapics)
