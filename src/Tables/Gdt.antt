-- ===== src/Tables/Gdt.antt =====
-- src/kernel/tables/gdt.c: the global descriptor table and the descriptor of the task state segment.
-- The address of the table is a parameter; a task state segment is given by its address.
use apopt_os.Base.{
  ℕ, ◌+◌, ◌-◌, ◌*◌, ◌/◌, ◌%◌, ◌^◌, ◌<◌, ◌≡◌, refl, Bool, true, u8, u16, u32, shr, arith,
}
use apopt_os.Slab.Heap.{put}

-- `tss_descriptor_t`
pub record TssDescriptor : Type 0 where
  pub length : ℕ
  pub base_low : ℕ
  pub base_middle : ℕ
  pub flags1 : ℕ
  pub flags2 : ℕ
  pub base_high : ℕ
  pub base_upper : ℕ
  pub reserved : ℕ

-- `gdt_descriptor_t`
pub record GdtDescriptor : Type 0 where
  pub limit_low : ℕ
  pub base_low : ℕ
  pub base_middle : ℕ
  pub access : ℕ
  pub limit_high_and_flags : ℕ
  pub base_high : ℕ

-- `gdt_t` with the register `gdtr` and whether it is loaded
pub record GdtState : Type 0 where
  pub entries : ℕ → GdtDescriptor
  pub tss_descriptor : TssDescriptor
  pub limit : ℕ
  pub base : ℕ
  pub loaded : Bool

-- `sizeof(gdt)`: five descriptors of 8 bytes and one of 16
abbrev pub sizeof_gdt : ℕ
sizeof_gdt = 5 * 8 + 16

abbrev pub flat : ℕ → ℕ → GdtDescriptor
flat access flags = record {
  limit_low = 0;
  base_low = 0;
  base_middle = 0;
  access = access;
  limit_high_and_flags = flags;
  base_high = 0;
}

unfoldable pub tss_create_segment : GdtState → ℕ → GdtState
tss_create_segment g addr = record g {
  tss_descriptor = record {
    length = 104;
    base_low = u16 addr;
    base_middle = u8 (shr addr 16);
    flags1 = 0b10001001;
    flags2 = 0;
    base_high = u8 (shr addr 24);
    base_upper = u32 (shr addr 32);
    reserved = 0;
  };
}

unfoldable pub gdt_load : GdtState → GdtState
gdt_load g = record g { loaded = true }

unfoldable pub gdt_init : ℕ → GdtState → GdtState
gdt_init address g =
    let e0 = put g.entries 0 (flat 0 0) in
    let e1 = put e0 1 (flat 0b10011010 0b00100000) in
    let e2 = put e1 2 (flat 0b10010010 0) in
    let e3 = put e2 3 (flat 0b11110010 0) in
    let e4 = put e3 4 (flat 0b11111010 0b00100000) in
    let t = tss_create_segment (record g { entries = e4 }) 0 in
    gdt_load (record t { limit = sizeof_gdt - 1; base = address })

-- The fields of an access byte and of the flags, as the processor reads them: present, privilege
-- level, code or data, executable; and the long mode flag.
abbrev pub present : GdtDescriptor → ℕ
present d = d.access / 128 % 2

abbrev pub privilege : GdtDescriptor → ℕ
privilege d = d.access / 32 % 4

abbrev pub executable : GdtDescriptor → ℕ
executable d = d.access / 8 % 2

abbrev pub long_mode : GdtDescriptor → ℕ
long_mode d = d.limit_high_and_flags / 32 % 2

-- A present segment of a privilege level; code segments, and only they, are executable and in long
-- mode.
pub record IsSegment (d : GdtDescriptor) (level code : ℕ) : Type 0 where
  pub is_present : present d ≡ 1
  pub level_eq : privilege d ≡ level
  pub code_eq : executable d ≡ code
  pub long_eq : long_mode d ≡ code

-- The base address as the processor puts it together from the descriptor.
abbrev pub base_of : TssDescriptor → ℕ
base_of d = d.base_low + 2 ^ 16 * d.base_middle + 2 ^ 24 * d.base_high + 2 ^ 32 * d.base_upper

-- After gdt_init and tss_create_segment for a 64-bit address: the null descriptor's access byte is 0,
-- the kernel's code and data segments are of ring 0, the user's data and code segments of ring 3, the
-- TSS descriptor names the address, and the loaded register names the whole table.
pub tss_create_segment-gdt_init :
    (address : ℕ) (g : GdtState) (addr : ℕ)
    → addr < 2 ^ 64
    → let t = tss_create_segment (gdt_init address g) addr in
      ((t.entries 0).access ≡ 0)
      × IsSegment (t.entries 1) 0 1
      × IsSegment (t.entries 2) 0 0
      × IsSegment (t.entries 3) 3 0
      × IsSegment (t.entries 4) 3 1
      × (base_of t.tss_descriptor ≡ addr)
      × (t.limit + 1 ≡ sizeof_gdt)
      × (t.base ≡ address)
      × (t.loaded ≡ true)
unfolding tss_create_segment gdt_init gdt_load
tss_create_segment-gdt_init address g addr small = (
  refl,
  record { is_present = refl; level_eq = refl; code_eq = refl; long_eq = refl },
  record { is_present = refl; level_eq = refl; code_eq = refl; long_eq = refl },
  record { is_present = refl; level_eq = refl; code_eq = refl; long_eq = refl },
  record { is_present = refl; level_eq = refl; code_eq = refl; long_eq = refl },
  omega arith,
  refl,
  refl,
  refl,
)
