-- ===== src/Boot.antt =====
-- stivale2_get_tag of src/kernel/boot/stivale2_boot.c: the search of the bootloader's list of tags.
pub mod Laws
pub mod Tests
use apopt_os.Base.{
  ℕ, zero, suc, ◌+◌, ◌*◌, ◌^◌, Bool, true, false, Option, none, some, u64, ◌==◌, if◌then◌else◌,
}
use apopt_os.Str.{Memory}

-- the number in `n` bytes from `a` on, the lowest first
unfoldable pub read_bytes : Memory → ℕ → ℕ → ℕ
read_bytes m a zero = 0
read_bytes m a (suc n) = m (u64 a) + 256 * read_bytes m (a + 1) n

-- `struct stivale2_tag`: two numbers of 8 bytes
unfoldable pub identifier : Memory → ℕ → ℕ
identifier m tag = read_bytes m tag 8

unfoldable pub next : Memory → ℕ → ℕ
next m tag = read_bytes m (tag + 8) 8

-- `none` where the fuel is used up; 0 is the null pointer.
unfoldable pub stivale2_get_tag : Memory → ℕ → ℕ → ℕ → Option ℕ
stivale2_get_tag m id zero current_tag = none
stivale2_get_tag m id (suc fuel) current_tag =
    let rest = stivale2_get_tag m id fuel (next m current_tag) in
    if current_tag == 0
    then some 0
    else if identifier m current_tag == id
    then some current_tag
    else rest
