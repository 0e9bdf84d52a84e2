-- ===== src/Vmm/Pat.antt =====
-- The cache types: the flags of an entry against the layout of the PAT register that enable_pat of
-- src/kernel/hardware/cpu.h writes.
use apopt_os.Base.{ℕ, ◌+◌, ◌*◌, ◌/◌, ◌%◌, ◌^◌, ◌<◌, ◌≡◌, refl, bit_or}
use apopt_os.Vmm.Ops.{
  PatCache, uncacheable, write_combining, write_through, write_protected, write_back, uncached,
  vmm_pat_cache_to_flags,
}
use native.Mathlib.Omega.{arith}

-- the value of an enumerator of `pat_cache_t`
abbrev pub pat_value : PatCache → ℕ
pat_value uncacheable = 0
pat_value write_combining = 1
pat_value write_through = 4
pat_value write_protected = 5
pat_value write_back = 6
pat_value uncached = 7

-- `custom_pat_config`, one byte for each of the eight entries of the register
unfoldable pub custom_pat_config : ℕ
custom_pat_config =
    bit_or
      (bit_or
        (bit_or
          (bit_or (bit_or (pat_value uncacheable) (pat_value write_combining * 2 ^ 8))
            (pat_value write_through * 2 ^ 32))
          (pat_value write_protected * 2 ^ 40))
        (pat_value write_back * 2 ^ 48))
      (pat_value uncached * 2 ^ 56)

-- The register entry that a last-level entry selects: its bits PAT, PCD and PWT.
abbrev pub pat_index : ℕ → ℕ
pat_index flags = flags / 128 % 2 * 4 + flags / 16 % 2 * 2 + flags / 8 % 2

-- For every cache type the flags of a last-level entry select the byte of the PAT register that
-- holds the value of this type.
pub pat_selects :
    (t : PatCache)
    → custom_pat_config / 256 ^ pat_index (vmm_pat_cache_to_flags t) % 256 ≡ pat_value t
unfolding custom_pat_config vmm_pat_cache_to_flags
pat_selects uncacheable = refl
pat_selects write_combining = refl
pat_selects write_through = refl
pat_selects write_protected = refl
pat_selects write_back = refl
pat_selects uncached = refl

pub pat_flags-lt : (t : PatCache) → vmm_pat_cache_to_flags t < 2 ^ 9
unfolding vmm_pat_cache_to_flags
pat_flags-lt uncacheable = omega arith
pat_flags-lt write_combining = omega arith
pat_flags-lt write_through = omega arith
pat_flags-lt write_protected = omega arith
pat_flags-lt write_back = omega arith
pat_flags-lt uncached = omega arith
