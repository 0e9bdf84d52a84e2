-- ===== src/Acpi/Tests.antt =====
-- A table of three bytes, and a table of three entries.
use apopt_os.Base.{
  length, ◌≤◌, ◌*◌, ℕ, List, some, [], ◌∷◌, refl, ◌%◌, ◌≡◌, true, ◌==◌, if◌then◌else◌, ltb, arith,
}
use apopt_os.Str.{Memory}
use apopt_os.Acpi.{found, panics, diverges, sdt_length, acpi_verify_sdt_checksum}
use apopt_os.Acpi.Checksum.{byte_sum, acpi_verify_sdt_checksum_lem}
use apopt_os.Acpi.Madt.{Madt, empty_madt, scan}
use apopt_os.Acpi.Scan.{HasPlaces, length-of_kind, EntryChain, of_kind, scan-of_kind}

abbrev small_table : Memory
small_table x = if x == 104 then 8 else if x == 100 then 248 else 0

acpi_verify_sdt_checksum_lem_example : acpi_verify_sdt_checksum 300 small_table 100 ≡ (
    if ltb (sdt_length small_table 100) 256
    then if byte_sum small_table 100 0 (sdt_length small_table 100) % 256 == 0
      then found true
      else panics
    else diverges)
acpi_verify_sdt_checksum_lem_example =
    acpi_verify_sdt_checksum_lem 300 small_table 100 (omega arith)

-- A LAPIC, an IOAPIC and a second LAPIC.
abbrev three_entries : Memory
three_entries x =
    if x == 44
    then 0
    else if x == 45
    then 8
    else if x == 52
    then 1
    else if x == 53
    then 12
    else if x == 64
    then 0
    else if x == 65
    then 8
    else 0

abbrev entry_addresses : List ℕ
entry_addresses = 44 ∷ 52 ∷ 64 ∷ []

three_entries_chain : EntryChain three_entries 72 44 entry_addresses
three_entries_chain = (refl, omega arith, (refl, omega arith, (refl, omega arith, omega arith)))

three_entries-HasPlaces : HasPlaces three_entries entry_addresses
three_entries-HasPlaces kind = omega (arith, length-of_kind three_entries kind entry_addresses)

scan-of_kind_example :
    (t : Madt) × (scan three_entries 72 9 empty_madt 44 ≡ some t)
    × ((t.lapics ≡ of_kind three_entries 0 entry_addresses)
        × (t.ioapics ≡ of_kind three_entries 1 entry_addresses)
        × (t.isos ≡ of_kind three_entries 2 entry_addresses)
        × (t.lapic_nmis ≡ of_kind three_entries 4 entry_addresses)
        × (8 * length t.lapics ≤ 256)
        × (8 * length t.ioapics ≤ 256)
        × (8 * length t.isos ≤ 256)
        × (8 * length t.lapic_nmis ≤ 256))
scan-of_kind_example =
    scan-of_kind three_entries 72 9 44 entry_addresses three_entries_chain three_entries-HasPlaces
      (omega arith)
