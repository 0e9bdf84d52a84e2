-- ===== src/Acpi/Madt.antt =====
-- madt_init of src/kernel/hardware/acpi/tables/madt.c and acpi_init of
-- src/kernel/hardware/acpi/acpi.c. The memory of the tables is bytes by address.
use apopt_os.Base.{
  ℕ, zero, suc, ◌+◌, Bool, Option, none, some, List, [], ◌∷◌, ◌++◌, ltb, ◌==◌, if◌then◌else◌,
  phys_to_higher_half_data,
}
use apopt_os.Str.{Memory}
use apopt_os.Boot.{read_bytes}
use apopt_os.Malloc.Ops.{
  State, Result, returns, panics as malloc_panics, diverges as malloc_diverges, malloc,
}
use apopt_os.Acpi.{
  Check, found, panics, diverges, Acpi, sizeof_sdt, sdt_length, acpi_verify_sdt, acpi_find_sdt,
  rsdp_init,
}

-- The arrays `madt_lapics`, `madt_ioapics`, `madt_isos` and `madt_lapic_nmis` up to their counters.
-- Each has a block of 256 bytes, so a place for 32 pointers; the source does not test the counters, and
-- from the 33rd entry of a type on writes behind its block. The lists show the arrays up to there.
pub record Madt : Type 0 where
  pub lapics : List ℕ
  pub ioapics : List ℕ
  pub isos : List ℕ
  pub lapic_nmis : List ℕ

abbrev pub empty_madt : Madt
empty_madt = record { lapics = []; ioapics = []; isos = []; lapic_nmis = [] }

-- the `switch` on the type of an entry
unfoldable pub store_entry : Memory → Madt → ℕ → Madt
store_entry m t entry_ptr =
    let kind = m entry_ptr in
    if kind == 0
    then record t { lapics = t.lapics ++ (entry_ptr ∷ []) }
    else if kind == 1
    then record t { ioapics = t.ioapics ++ (entry_ptr ∷ []) }
    else if kind == 2
    then record t { isos = t.isos ++ (entry_ptr ∷ []) }
    else if kind == 4
    then record t { lapic_nmis = t.lapic_nmis ++ (entry_ptr ∷ []) }
    else t

-- The loop over the entries; `none` where the fuel is used up.
unfoldable pub scan : Memory → ℕ → ℕ → Madt → ℕ → Option Madt
scan m end zero t entry_ptr = none
scan m end (suc fuel) t entry_ptr =
    let rest = scan m end fuel (store_entry m t entry_ptr) (entry_ptr + m (entry_ptr + 1)) in
    if ltb entry_ptr end then rest else some t

-- `madt_t`: the header, two numbers of 4 bytes, the entries
abbrev pub entries_at : ℕ → ℕ
entries_at madt = madt + sizeof_sdt + 8

abbrev pub scanned : ℕ → State → Option Madt → Check (ℕ × Madt × State)
scanned madt s none = diverges
scanned madt s (some t) = found (madt, t, s)

abbrev pub then_malloc : Result → (State → Check (ℕ × Madt × State)) → Check (ℕ × Madt × State)
then_malloc (returns p s) next = next s
then_malloc malloc_panics next = panics
then_malloc malloc_diverges next = diverges

abbrev pub then_check {ℓ ℓ'} : {A : Type ℓ} {B : Type ℓ'} → Check A → (A → Check B) → Check B
then_check (found a) next = next a
then_check panics next = panics
then_check diverges next = diverges

-- The address of the table, its arrays and the heap. acpi_find_sdt does not return a null pointer,
-- and the addresses of the four blocks are only used by the arrays.
unfoldable pub madt_init : ℕ → Memory → Acpi → ℕ → State → Check (ℕ × Madt × State)
madt_init fuel m a signature s = then_check (acpi_find_sdt fuel m a signature) λ madt.
    if madt == 0
    then panics
    else then_malloc (malloc fuel s 256) λ s1. then_malloc (malloc fuel s1 256) λ s2.
      then_malloc (malloc fuel s2 256) λ s3.
        then_malloc (malloc fuel s3 256) λ s4.
          scanned madt s4 (scan m (madt + sdt_length m madt) fuel empty_madt (entries_at madt))

abbrev pub checked : Check Bool → Acpi → Check Acpi
checked (found ok) a = if ok then found a else panics
checked panics a = panics
checked diverges a = diverges

-- the table of tables that is checked, or a kernel panic
unfoldable pub open_table : ℕ → Memory → Acpi → ℕ → ℕ → Check Acpi
open_table fuel m a xsdt_name rsdt_name =
    let xsdt = phys_to_higher_half_data (read_bytes m (a.rsdp + 24) 8) in
    let rsdt = phys_to_higher_half_data (read_bytes m (a.rsdp + 16) 4) in
    if a.has_xsdt
    then checked (acpi_verify_sdt fuel m xsdt xsdt_name) (record a { xsdt = xsdt })
    else checked (acpi_verify_sdt fuel m rsdt rsdt_name) (record a { rsdt = rsdt })

abbrev pub opened : Option Acpi → (Acpi → Check (ℕ × Madt × State)) → Check (ℕ × Madt × State)
opened none next = panics
opened (some a) next = next a

-- With the address that the tag of the bootloader holds, and the addresses of the three signatures.
unfoldable pub acpi_init : ℕ → Memory → Acpi → ℕ → ℕ → ℕ → ℕ → State → Check (ℕ × Madt × State)
acpi_init fuel m a rsdp_address xsdt_name rsdt_name apic_name s =
    opened (rsdp_init m a rsdp_address)
      λ b. then_check (open_table fuel m b xsdt_name rsdt_name) λ c. madt_init fuel m c apic_name s
