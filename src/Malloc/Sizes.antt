-- ===== src/Malloc/Sizes.antt =====
-- The utility functions of malloc.c: rounding a size, and the slab cache of a size.
use apopt_os.Base.{
  ℕ, ◌+◌, ◌-◌, Option, none, some, bit_or, u32, leb, ◌==◌, if◌then◌else◌, shr, align_up,
}

-- one line `n |= n >> k`
abbrev pub smear : ℕ → ℕ → ℕ
smear n k = bit_or n (shr n k)

-- a `uint32_t`
unfoldable pub next_power_of_two : ℕ → ℕ
next_power_of_two n =
    if leb n 16 then 16 else u32 (smear (smear (smear (smear (smear (n - 1) 1) 2) 4) 8) 16 + 1)

unfoldable pub round_alloc_size : ℕ → ℕ
round_alloc_size size = if leb size 512 then next_power_of_two (u32 size) else align_up size

-- `none` is the -1 of the source.
unfoldable pub size_to_slab_cache_index : ℕ → Option ℕ
size_to_slab_cache_index size =
    if size == 16
    then some 0
    else if size == 32
    then some 1
    else if size == 64
    then some 2
    else if size == 128
    then some 3
    else if size == 256
    then some 4
    else if size == 512
    then some 5
    else none

unfoldable pub slab_cache_index_to_size : ℕ → Option ℕ
slab_cache_index_to_size index =
    if index == 0
    then some 16
    else if index == 1
    then some 32
    else if index == 2
    then some 64
    else if index == 3
    then some 128
    else if index == 4
    then some 256
    else if index == 5
    then some 512
    else none
