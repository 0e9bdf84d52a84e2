-- ===== src/Str.antt =====
-- src/kernel/libk/string/string.c: memset, memcpy, memcmp over a memory of bytes.
pub mod Laws
use apopt_os.Base.{ℕ, zero, suc, ◌+◌, ◌-◌, ◌*◌, ◌^◌, ◌%◌, u8, u64, ltb, ◌==◌, if◌then◌else◌}

-- The byte at each address.
abbrev pub Memory : Type 0
Memory = ℕ → ℕ

abbrev pub store8 : Memory → ℕ → ℕ → Memory
store8 m a v x = if a == x then v else m x

-- `for (i = i; n rounds; i++) p[i] = value`, a `uint32_t` stored to a `uint8_t`
unfoldable pub memset_from : Memory → ℕ → ℕ → ℕ → ℕ → Memory
memset_from m p value zero i = m
memset_from m p value (suc n) i = memset_from (store8 m (u64 (p + i)) (u8 value)) p value n (i + 1)

unfoldable pub memset : Memory → ℕ → ℕ → ℕ → Memory
memset m p value size = memset_from m p value size 0

unfoldable pub memcpy_from : Memory → ℕ → ℕ → ℕ → ℕ → Memory
memcpy_from m dest src zero i = m
memcpy_from m dest src (suc n) i =
    memcpy_from (store8 m (u64 (dest + i)) (m (u64 (src + i)))) dest src n (i + 1)

unfoldable pub memcpy : Memory → ℕ → ℕ → ℕ → Memory
memcpy m dest src n = memcpy_from m dest src n 0

-- The difference of the first bytes that differ, as an `int`: its bit pattern below 2 ^ 32.
unfoldable pub memcmp_from : Memory → ℕ → ℕ → ℕ → ℕ → ℕ
memcmp_from m p q zero i = 0
memcmp_from m p q (suc n) i =
    let rest = memcmp_from m p q n (i + 1) in
    if m (u64 (p + i)) == m (u64 (q + i))
    then rest
    else (m (u64 (p + i)) + 2 ^ 32 - m (u64 (q + i))) % 2 ^ 32

unfoldable pub memcmp : Memory → ℕ → ℕ → ℕ → ℕ
memcmp m p q n = memcmp_from m p q n 0
