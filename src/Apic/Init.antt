-- ===== src/Apic/Init.antt =====
-- apic_init of src/kernel/hardware/apic/apic.c and the measurement of the LAPIC's timer.
use apopt_os.Base.{
  ℕ, zero, suc, ◌+◌, ◌-◌, ◌*◌, ◌^◌, true, Option, none, some, List, replicate, u8, u32, ◌==◌,
  if◌then◌else◌, phys_to_higher_half_data,
}
use apopt_os.Str.{Memory}
use apopt_os.Boot.{read_bytes}
use apopt_os.Bitmap.{Bitmap, bitmap_set_bit, bitmap_check_bit}
use apopt_os.Malloc.Ops.{
  State, Result, returns, panics as malloc_panics, diverges as malloc_diverges, malloc,
}
use apopt_os.Pic
use apopt_os.Pic.{pic_disable}
use apopt_os.Acpi.{Check, found, panics, diverges}
use apopt_os.Acpi.Madt.{Madt, then_check}
use apopt_os.Apic.{
  apic_is_available, Writes, Device, lapic_timer_reg, lapic_timer_initcnt_reg,
  lapic_timer_curcnt_reg, lapic_timer_div_reg, lapic_timer_disable_bit, lapic_read_reg,
  lapic_write_reg, lapic_get_id, lapic_enable, ioapic_set_irq_redirect,
}
use apopt_os.Apic.Hpet.{hpet_init, hpet_usleep}

-- lapic_timer_calibrate, with the HPET's counter and capabilities: the ticks of `us` microseconds.
abbrev pub measured : Device → Writes → ℕ → Option ℕ → Check (ℕ × Writes)
measured device w lapic none = diverges
measured device w lapic (some k) =
    let w' = lapic_write_reg w lapic lapic_timer_reg lapic_timer_disable_bit in
    let final_count = lapic_read_reg device w' lapic lapic_timer_curcnt_reg in
    found (u32 (0xFFFFFFFF + 2 ^ 32 - final_count), w')

unfoldable pub lapic_timer_calibrate :
    Device → ℕ → ℕ → (ℕ → ℕ) → Writes → ℕ → ℕ → Check (ℕ × Writes)
lapic_timer_calibrate device fuel capabilities counter w lapic us =
    let w1 = lapic_write_reg w lapic lapic_timer_div_reg 3 in
    let w2 = lapic_write_reg w1 lapic lapic_timer_initcnt_reg 0xFFFFFFFF in
    measured device w2 lapic (hpet_usleep fuel capabilities counter us)

-- The frequency that lapic_timer_init stores in `lapic_timer_freq`.
unfoldable pub lapic_timer_init : Device → ℕ → ℕ → (ℕ → ℕ) → Writes → ℕ → Check (ℕ × Writes)
lapic_timer_init device fuel capabilities counter w lapic =
    then_check (lapic_timer_calibrate device fuel capabilities counter w lapic 1000)
      λ (ticks, w'). found (u32 (ticks * 1000), w')

abbrev pub then_some : Option (ℕ × Writes) → (ℕ × Writes → Option Writes) → Option Writes
then_some none next = none
then_some (some a) next = next a

-- The loop over the sixteen ISA interrupts, with the rounds left; `none` is a kernel panic. An
-- interrupt whose number is already the target of an override is left out.
unfoldable pub redirect_from : Device → Memory → Madt → ℕ → ℕ → ℕ → Bitmap → Writes → Option Writes
redirect_from device m t lapic zero i irq_bitmap w = some w
redirect_from device m t lapic (suc n) i irq_bitmap w =
    let skipped = redirect_from device m t lapic n (i + 1) irq_bitmap w in
    let stored =
      then_some
        (ioapic_set_irq_redirect device m t w (lapic_get_id device w lapic) (u8 (i + 32)) i true)
        λ (irq, w'). redirect_from device m t lapic n (i + 1) (bitmap_set_bit irq_bitmap irq) w' in
    if bitmap_check_bit irq_bitmap i == 0 then stored else skipped

abbrev pub irq_bitmap_at : ℕ → Bitmap
irq_bitmap_at map = record { map = map; bytes = replicate 16 0; size = 16 }

-- The heap, the writes to the ports, to the registers of the interrupt controllers and to those of the
-- HPET, and the two globals.
pub record ApicState : Type 0 where
  pub heap : State
  pub ports : Pic.Writes
  pub regs : Writes
  pub timer_regs : List (ℕ × ℕ)
  pub lapic_address : ℕ
  pub lapic_timer_freq : ℕ

abbrev pub finished : ApicState → Check (ℕ × Writes) → Check ApicState
finished s (found (freq, w)) = found (record s { lapic_timer_freq = freq; regs = w })
finished s panics = panics
finished s diverges = diverges

abbrev pub with_redirects :
    ApicState → Option Writes → (ApicState → Check ApicState) → Check ApicState
with_redirects s none next = panics
with_redirects s (some w) next = next (record s { regs = w })

abbrev pub with_bitmap : Result → (ℕ → State → Check ApicState) → Check ApicState
with_bitmap (returns p s) next = next p s
with_bitmap malloc_panics next = panics
with_bitmap malloc_diverges next = diverges

-- `edx` is what the processor says of its features, `hpet` the table that acpi_find_sdt finds for the HPET.
unfoldable pub apic_init :
    Device → ℕ → Memory → Madt → ℕ → ℕ → Check ℕ → ℕ → (ℕ → ℕ) → ApicState → Check ApicState
apic_init device fuel m t madt edx hpet capabilities counter s =
    let lapic = phys_to_higher_half_data (read_bytes m (madt + 36) 4) in
    let s1 = record s {
      lapic_address = lapic;
      ports = pic_disable s.ports;
      regs = lapic_enable device s.regs lapic;
    } in
    let started = with_bitmap (malloc fuel s1.heap 16) λ p h.
      with_redirects (record s1 { heap = h })
        (redirect_from device m t lapic 16 0 (irq_bitmap_at p) s1.regs)
        λ s2. then_check hpet λ table.
          let s3 = record s2 { timer_regs = hpet_init s2.timer_regs m table } in
          finished s3 (lapic_timer_init device fuel capabilities counter s3.regs lapic) in
    if apic_is_available edx then started else panics
