-- ===== src/Base/Word.antt =====
-- Machine words as native numbers, wrapped by `%`; the macros of memory/mem.h.
use Prim.Native.Nat.{ℕ, ◌+◌, ◌-◌, ◌*◌, ◌/◌, ◌%◌, ◌^◌}

abbrev pub u8 : ℕ → ℕ
u8 n = n % 2 ^ 8

abbrev pub u16 : ℕ → ℕ
u16 n = n % 2 ^ 16

abbrev pub u32 : ℕ → ℕ
u32 n = n % 2 ^ 32

abbrev pub u64 : ℕ → ℕ
u64 n = n % 2 ^ 64

-- `x >> k`
abbrev pub shr : ℕ → ℕ → ℕ
shr x k = x / 2 ^ k

abbrev pub page_size : ℕ
page_size = 4096

abbrev pub gib : ℕ
gib = 0x40000000

abbrev pub higher_half_data : ℕ
higher_half_data = 0xFFFF800000000000

abbrev pub higher_half_code : ℕ
higher_half_code = 0xFFFFFFFF80000000

abbrev pub heap_max_size : ℕ
heap_max_size = 4 * gib

abbrev pub heap_start_addr : ℕ
heap_start_addr = 0xFFFF900000000000

-- KB_TO_PAGES, a `size_t` product that may wrap
abbrev pub kb_to_pages : ℕ → ℕ
kb_to_pages kb = u64 (kb * 1024) / page_size

-- ALIGN_DOWN and ALIGN_UP at PAGE_SIZE: `& ~(4096 - 1)` clears the low twelve bits.
abbrev pub align_down : ℕ → ℕ
align_down a = a / page_size * page_size

abbrev pub align_up : ℕ → ℕ
align_up a = u64 (a + (page_size - 1)) / page_size * page_size

abbrev pub bit_to_page : ℕ → ℕ
bit_to_page bit = u64 (bit * page_size)

abbrev pub page_to_bit : ℕ → ℕ
page_to_bit page = page / page_size

abbrev pub phys_to_higher_half_data : ℕ → ℕ
phys_to_higher_half_data a = u64 (a + higher_half_data)

abbrev pub higher_half_data_to_phys : ℕ → ℕ
higher_half_data_to_phys a = u64 (a + 2 ^ 64 - higher_half_data)
