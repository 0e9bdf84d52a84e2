-- ===== src/Bitmap.antt =====
-- src/kernel/libk/data_structs/bitmap.c and bitmap.h: one bit per page, eight to a byte.
pub mod Byte
pub mod Laws
pub mod Tests
use apopt_os.Base.{
  ℕ, ◌-◌, ◌/◌, ◌%◌, ◌^◌, List, Bool, bit_and, bit_or, u8, ltb, if◌then◌else◌, get_or, set,
}

-- `bitmap_t`: the address `map`, the bytes that it points to, and `size`. An access beyond the bytes is outside the
-- object: a read gives 0 and a write changes nothing, and the callers' laws rule it out.
pub record Bitmap : Type 0 where
  pub map : ℕ
  pub bytes : List ℕ
  pub size : ℕ

-- `x | (1 << k)` and `x & ~(1 << k)` in `int`, stored to a `uint8_t`
unfoldable pub byte_set : ℕ → ℕ → ℕ
byte_set x k = u8 (bit_or x (2 ^ k))

unfoldable pub byte_unset : ℕ → ℕ → ℕ
byte_unset x k = u8 (bit_and x (2 ^ 32 - 1 - 2 ^ k))

unfoldable pub byte_check : ℕ → ℕ → ℕ
byte_check x k = u8 (bit_and x (2 ^ k))

-- A bit number is an `int`: from 2 ^ 31 on the pattern is a negative number, which is outside the map.
unfoldable pub bitmap_set_bit : Bitmap → ℕ → Bitmap
bitmap_set_bit b bit =
    if ltb bit (2 ^ 31)
    then record b {
      bytes = set b.bytes (bit / 8) (byte_set (get_or b.bytes (bit / 8) 0) (bit % 8));
    }
    else b

unfoldable pub bitmap_unset_bit : Bitmap → ℕ → Bitmap
bitmap_unset_bit b bit =
    if ltb bit (2 ^ 31)
    then record b {
      bytes = set b.bytes (bit / 8) (byte_unset (get_or b.bytes (bit / 8) 0) (bit % 8));
    }
    else b

unfoldable pub bitmap_check_bit : Bitmap → ℕ → ℕ
bitmap_check_bit b bit =
    if ltb bit (2 ^ 31) then byte_check (get_or b.bytes (bit / 8) 0) (bit % 8) else 0

-- the truth value of a check, as `if (bitmap_check_bit(...))` reads it
unfoldable pub is_set : Bitmap → ℕ → Bool
is_set b bit = ltb 0 (bitmap_check_bit b bit)
