-- ===== src/Malloc/Rounding.antt =====
-- Rounding and the choice of a cache.
use apopt_os.Base.{
  ℕ, zero, suc, ◌+◌, ◌-◌, ◌%◌, ◌^◌, ◌<◌, ◌≤◌, ◌≡◌, ◌⊎◌, Bool, true, ◌&&◌, ◌||◌, some, refl, u32,
  ltb, leb, ◌==◌, if◌then◌else◌, page_size, arith, all_below, all_below_sound,
}
use apopt_os.Malloc.Sizes.{
  next_power_of_two, round_alloc_size, size_to_slab_cache_index, slab_cache_index_to_size,
}

-- the size of cache `i`
abbrev pub class_size : ℕ → ℕ
class_size i = 2 ^ (i + 4)

-- `r` is the size of cache `i`, holds `n` bytes, and is the smallest cache size that does.
abbrev class_case : ℕ → ℕ → Bool
class_case n i =
    next_power_of_two n == class_size i
    && leb n (class_size i)
    && (i == 0 || ltb (class_size (i - 1)) n)

-- the cache that a table lookup finds, by size
abbrev class_of : ℕ → ℕ
class_of n =
    if leb n 16
    then 0
    else if leb n 32
    then 1
    else if leb n 64
    then 2
    else if leb n 128
    then 3
    else if leb n 256
    then 4
    else 5

class_table : all_below 513 (λ n. class_case n (class_of n)) ≡ true
unfolding all_below next_power_of_two
class_table = refl

-- A size of up to 512 bytes is rounded to the smallest of the six cache sizes that holds it.
pub round_alloc_size_small :
    (n : ℕ)
    → n ≤ 512
    → (i : ℕ) × (i < 6)
      × (round_alloc_size n ≡ class_size i)
      × (n ≤ class_size i)
      × ((i ≡ 0) ⊎ (class_size (i - 1) < n))
unfolding round_alloc_size
round_alloc_size_small n h =
    let t = all_below_sound 513 (λ n. class_case n (class_of n)) n class_table (omega arith) in
    let e : u32 n ≡ n = omega arith in
    (class_of n, ground arith, rw e (ground (arith, t)), ground (arith, t), ground (arith, t))

-- A larger size is rounded up to whole pages, by less than a page, where this does not wrap.
pub round_alloc_size_large :
    (n : ℕ)
    → 512 < n
    → n + page_size ≤ 2 ^ 64
    → (round_alloc_size n % page_size ≡ 0)
      × (n ≤ round_alloc_size n)
      × (round_alloc_size n < n + page_size)
unfolding round_alloc_size
round_alloc_size_large n h fits = ground arith

-- The two tables between cache indices and cache sizes are inverse to one another.
pub index-size_iff :
    (i size : ℕ)
    → (slab_cache_index_to_size i ≡ some size → size_to_slab_cache_index size ≡ some i)
      × (size_to_slab_cache_index size ≡ some i → slab_cache_index_to_size i ≡ some size)
unfolding slab_cache_index_to_size size_to_slab_cache_index
index-size_iff i size = (λ h. ground arith, λ h. ground arith)

pub slab_cache_index_to_size-class :
    (i : ℕ) → i < 6 → slab_cache_index_to_size i ≡ some (class_size i)
unfolding slab_cache_index_to_size
slab_cache_index_to_size-class zero h = refl
slab_cache_index_to_size-class (suc zero) h = refl
slab_cache_index_to_size-class (suc (suc zero)) h = refl
slab_cache_index_to_size-class (suc (suc (suc zero))) h = refl
slab_cache_index_to_size-class (suc (suc (suc (suc zero)))) h = refl
slab_cache_index_to_size-class (suc (suc (suc (suc (suc zero))))) h = refl
slab_cache_index_to_size-class (suc (suc (suc (suc (suc (suc i)))))) h = absurd (omega arith)
