-- ===== src/Acpi.antt =====
-- src/kernel/hardware/acpi/acpi.c and acpi/tables/rsdp.c: the checks of the ACPI tables and the
-- search for a table, on a memory of bytes. A signature is given by its address.
pub mod Checksum
pub mod Madt
pub mod Scan
pub mod Tests
use apopt_os.Base.{
  ℕ, zero, suc, ◌+◌, ◌-◌, ◌*◌, ◌/◌, ◌^◌, Bool, true, false, not, ◌&&◌, Option, none, some, u8, u64,
  ltb, leb, ◌==◌, if◌then◌else◌, phys_to_higher_half_data,
}
use apopt_os.Str.{Memory, memcmp}
use apopt_os.Boot.{read_bytes}

-- A value, a kernel panic, or a loop that runs on when the fuel is used up.
pub data Check {ℓ} (A : Type ℓ) : Type ℓ where
  found : A → Check A
  panics : Check A
  diverges : Check A

-- `sdt_t` has 36 bytes, with its length at byte 4.
abbrev pub sizeof_sdt : ℕ
sizeof_sdt = 36

unfoldable pub sdt_length : Memory → ℕ → ℕ
sdt_length m sdt = read_bytes m (sdt + 4) 4

-- `for (uint8_t i = i; i < length; i++) checksum += ptr[i]`
unfoldable pub sum_from : Memory → ℕ → ℕ → ℕ → ℕ → ℕ → Option ℕ
sum_from m ptr length zero i checksum = none
sum_from m ptr length (suc fuel) i checksum =
    let rest = sum_from m ptr length fuel (u8 (i + 1)) (u8 (checksum + m (u64 (ptr + i)))) in
    if ltb i length then rest else some checksum

-- what the function makes of the sum: true, or a kernel panic
abbrev pub verdict : Option ℕ → Check Bool
verdict none = diverges
verdict (some checksum) = if checksum == 0 then found true else panics

unfoldable pub acpi_verify_sdt_checksum : ℕ → Memory → ℕ → Check Bool
acpi_verify_sdt_checksum fuel m sdt = verdict (sum_from m sdt (sdt_length m sdt) fuel 0 0)

unfoldable pub acpi_verify_sdt : ℕ → Memory → ℕ → ℕ → Check Bool
acpi_verify_sdt fuel m sdt signature =
    if memcmp m sdt signature 4 == 0 then acpi_verify_sdt_checksum fuel m sdt else found false

-- The globals `rsdp`, `has_xsdt_var`, `xsdt` and `rsdt`.
pub record Acpi : Type 0 where
  pub rsdp : ℕ
  pub has_xsdt : Bool
  pub xsdt : ℕ
  pub rsdt : ℕ

-- The address that the table of tables holds in entry `i`.
unfoldable pub entry_at : Memory → Acpi → ℕ → ℕ
entry_at m a i =
    if a.has_xsdt
    then read_bytes m (a.xsdt + sizeof_sdt + 8 * i) 8
    else read_bytes m (a.rsdt + sizeof_sdt + 4 * i) 4

unfoldable pub entry_count : Memory → Acpi → ℕ
entry_count m a =
    if a.has_xsdt
    then u64 (sdt_length m a.xsdt + 2 ^ 64 - sizeof_sdt) / 8
    else u64 (sdt_length m a.rsdt + 2 ^ 64 - sizeof_sdt) / 4

unfoldable pub search_from : ℕ → Memory → Acpi → ℕ → ℕ → ℕ → Check ℕ
search_from fuel m a signature zero i = panics
search_from fuel m a signature (suc n) i =
    let rest = search_from fuel m a signature n (i + 1) in
    elim (acpi_verify_sdt fuel m (entry_at m a i) signature) [
      | found ok ↦ if ok then found (phys_to_higher_half_data (entry_at m a i)) else rest
      | panics ↦ panics
      | diverges ↦ diverges
    ]

unfoldable pub acpi_find_sdt : ℕ → Memory → Acpi → ℕ → Check ℕ
acpi_find_sdt fuel m a signature = search_from fuel m a signature (entry_count m a) 0

-- `rsdp_struct_t`: the revision at byte 15, the two addresses at bytes 16 and 24
unfoldable pub rsdp_verify_checksum : Memory → ℕ → Bool
rsdp_verify_checksum m rsdp_address = elim (sum_from m rsdp_address 20 21 0 0) [
  | none ↦ false
  | some checksum ↦ checksum == 0
]

-- `none` is a kernel panic.
unfoldable pub rsdp_init : Memory → Acpi → ℕ → Option Acpi
rsdp_init m a rsdp_address =
    if rsdp_verify_checksum m rsdp_address
    then some (record a {
      rsdp = rsdp_address;
      has_xsdt =
          if leb 2 (m (u64 (rsdp_address + 15)))
          then not (read_bytes m (rsdp_address + 24) 8 == 0)
          else a.has_xsdt;
    })
    else none
