-- ===== src/Apic/Tests.antt =====
-- Two IOAPICs whose last input is 23, a keyboard interrupt with an override, and a counter of 1000 ticks for
-- each read.
use apopt_os.Base.{
  inl, ℕ, ◌+◌, ◌-◌, ◌*◌, ◌^◌, ◌≤◌, ◌≡◌, refl, true, some, [], ◌∷◌, ◌==◌, if◌then◌else◌, arith,
}
use apopt_os.Str.{Memory}
use apopt_os.Boot.{read_bytes}
use apopt_os.Acpi.Madt.{Madt}
use apopt_os.Apic.{
  Writes, Device, read_reg, gsi_base, ioapic_read_reg, ioapic_get_max_redirect, redirect_entry,
  ioapic_set_irq_redirect,
}
use apopt_os.Apic.Entry.{IsEntry, redirect_entry-IsEntry}
use apopt_os.Apic.Redirect.{
  Overrides, KeepVersions, first_serving, IsStored, ioapic_set_irq_redirect-IsStored,
}
use apopt_os.Apic.Hpet.{clock_period, hpet_usleep, hpet_usleep_lem}

redirect_entry-IsEntry_example : IsEntry (redirect_entry 3 33 10 true) 3 33 10 true
redirect_entry-IsEntry_example = redirect_entry-IsEntry 3 33 10 true (omega arith)

abbrev versions : Device
versions w address = 0x170020

-- The second IOAPIC, at 200, begins at 24; the override at 300 maps IRQ 1 to 25, low active.
abbrev tables : Memory
tables x =
    if x == 208
    then 24
    else if x == 303
    then 1
    else if x == 304
    then 25
    else if x == 308
    then 2
    else 0

abbrev two_ioapics : Madt
two_ioapics = record { lapics = []; ioapics = 100 ∷ 200 ∷ []; isos = 300 ∷ []; lapic_nmis = [] }

abbrev last_23 : ℕ → ℕ
last_23 p = 23

versions_keep : KeepVersions versions tables last_23 (100 ∷ 200 ∷ [])
unfolding ioapic_get_max_redirect ioapic_read_reg read_reg read_bytes
versions_keep = (
  record { version = λ w. refl; small = omega arith },
  (record { version = λ w. refl; small = omega arith }, tt),
)

-- The keyboard's interrupt has the number 25 and is low active, by the override.
keyboard_override : Overrides tables 1 (300 ∷ []) 25 2
unfolding read_bytes
keyboard_override = inl (refl, refl, refl)

keyboard_first : first_serving tables last_23 25 (100 ∷ 200 ∷ []) ≡ some 200
unfolding read_bytes
keyboard_first = refl

ioapic_set_irq_redirect-IsStored_example :
    (v w' : Writes) × (ioapic_set_irq_redirect versions tables two_ioapics [] 0 33 1 true
      ≡ some (25, v))
    × IsStored tables 200 (25 - gsi_base tables 200) (redirect_entry 0 33 2 true) w' v
ioapic_set_irq_redirect-IsStored_example =
    ioapic_set_irq_redirect-IsStored versions tables last_23 two_ioapics [] 0 33 1 25 2 true 200
      versions_keep (omega arith) keyboard_override (omega arith) (omega arith) keyboard_first

-- Ten million femtoseconds for each tick, so 100 ticks are a microsecond.
abbrev capabilities_100 : ℕ
capabilities_100 = 10000000 * 2 ^ 32

abbrev by_thousands : ℕ → ℕ
by_thousands k = 1000 * k

hpet_usleep_lem_example :
    (i : ℕ) × (hpet_usleep 50 capabilities_100 by_thousands 70 ≡ some i)
    × (i ≤ 1 + 6)
    × (70 * 1000000000 ≤ (by_thousands i - by_thousands 0 + 70) * clock_period capabilities_100)
hpet_usleep_lem_example =
    hpet_usleep_lem 50 capabilities_100 by_thousands 70 6 (omega arith) (omega arith) (omega arith)
      (omega arith)
