-- ===== src/Apic/Hpet.antt =====
-- src/kernel/hardware/hpet/hpet.c: the timer by which the LAPIC's timer is measured. What its counter
-- gives at each read is a parameter; the reads are numbered from 0.
use apopt_os.Base.{
  ℕ, zero, suc, ◌+◌, ◌-◌, ◌*◌, ◌/◌, ◌^◌, ◌<◌, ◌≤◌, ◌≡◌, refl, false, Option, none, some, List, ◌∷◌,
  u32, u64, shr, ltb, if◌then◌else◌, phys_to_higher_half_data, arith, Bool-cases, inl, inr,
}
use native.Mathlib.Nat.{mul-le-mul_left, mul-le-mul_right}
use apopt_os.Str.{Memory}
use apopt_os.Boot.{read_bytes}

-- `hpet_t` holds the address at byte 44; `hpet_regs_t` has the configuration at byte 0x10 and the
-- counter at byte 0xF0.
abbrev pub general_config : ℕ
general_config = 0x10

abbrev pub counter_value : ℕ
counter_value = 0xF0

-- The address of the registers, from the address of the table that acpi_find_sdt found.
unfoldable pub hpet_regs : Memory → ℕ → ℕ
hpet_regs m hpet = phys_to_higher_half_data (read_bytes m (hpet + 44) 8)

-- The two writes of hpet_init, of 8 bytes each.
unfoldable pub hpet_init : List (ℕ × ℕ) → Memory → ℕ → List (ℕ × ℕ)
hpet_init w m hpet =
    (hpet_regs m hpet + general_config, 1) ∷ (hpet_regs m hpet + counter_value, 0) ∷ w

-- The number of the read with which the loop ends; `none` where the fuel is used up.
unfoldable pub wait_from : (ℕ → ℕ) → ℕ → ℕ → ℕ → Option ℕ
wait_from counter target_value zero k = none
wait_from counter target_value (suc fuel) k =
    let rest = wait_from counter target_value fuel (k + 1) in
    if ltb (counter k) target_value then rest else some k

-- The high half of the capabilities is the length of a tick; the source does not test it for 0.
abbrev pub clock_period : ℕ → ℕ
clock_period capabilities = u32 (shr capabilities 32)

unfoldable pub hpet_usleep : ℕ → ℕ → (ℕ → ℕ) → ℕ → Option ℕ
hpet_usleep fuel capabilities counter us =
    let target_value = u64 (counter 0 + us * (1000000000 / clock_period capabilities)) in
    wait_from counter target_value fuel 1

-- The loop ends with the first read, from `k` on, that is not below the target.
wait_from-first :
    (counter : ℕ → ℕ) (target_value fuel k j : ℕ)
    → target_value ≤ counter (k + j)
    → j < fuel
    → (i : ℕ) × (wait_from counter target_value fuel k ≡ some i)
      × (i ≤ k + j)
      × (target_value ≤ counter i)
unfolding wait_from
wait_from-first counter target_value zero k j reached enough = absurd (omega arith)
wait_from-first counter target_value (suc fuel) k zero reached enough =
    let same : k + zero ≡ k = omega arith in
    let there : target_value ≤ counter k = rw same at reached in
    let done : ltb (counter k) target_value ≡ false = ground arith in
    rw done (k, refl, omega arith, there)
wait_from-first counter target_value (suc fuel) k (suc j) reached enough =
    elim (Bool-cases (ltb (counter k) target_value)) [
      | inr done ↦ rw done (k, refl, omega arith, ground arith)
      | inl waits ↦
          let same : k + suc j ≡ k + 1 + j = omega arith in
          let (i, e, le, there) =
            wait_from-first counter target_value fuel (k + 1) j (rw same at reached)
              (omega arith) in
          rw waits (i, e, omega arith, there)
    ]

-- The whole ticks of a microsecond, of 10 ^ 9 femtoseconds, miss less than one tick.
ticks-le :
    (us period elapsed : ℕ)
    → 0 < period
    → us * (1000000000 / period) ≤ elapsed
    → us * 1000000000 ≤ (elapsed + us) * period
ticks-le us period elapsed pos h =
    let q = 1000000000 / period in
    let tick : 1000000000 ≤ (q + 1) * period = grind arith in
    let a : us * 1000000000 ≤ us * ((q + 1) * period) = mul-le-mul_left us tick in
    let b : us * ((q + 1) * period) ≡ (us * q + us) * period = grind arith in
    let c : (us * q + us) * period ≤ (elapsed + us) * period =
      mul-le-mul_right period (omega (arith, h)) in
    omega (arith, a, b, c)

-- Where the length of a tick is not 0, the target does not wrap and the counter reaches it at some
-- read: with more fuel than reads up to that one, hpet_usleep returns, and the ticks that have gone
-- by, with one tick more for each microsecond, last at least `us` microseconds, of 10 ^ 9 femtoseconds.
pub hpet_usleep_lem :
    (fuel capabilities : ℕ) (counter : ℕ → ℕ) (us j : ℕ)
    → 0 < clock_period capabilities
    → counter 0 + us * (1000000000 / clock_period capabilities) < 2 ^ 64
    → counter 0 + us * (1000000000 / clock_period capabilities) ≤ counter (1 + j)
    → j < fuel
    → (i : ℕ) × (hpet_usleep fuel capabilities counter us ≡ some i)
      × (i ≤ 1 + j)
      × (us * 1000000000 ≤ (counter i - counter 0 + us) * clock_period capabilities)
unfolding hpet_usleep
hpet_usleep_lem fuel capabilities counter us j pos small reached enough =
    let target = counter 0 + us * (1000000000 / clock_period capabilities) in
    let whole : u64 target ≡ target = omega arith in
    let (i, e, le, there) = wait_from-first counter target fuel 1 j reached enough in
    rw whole (
      i,
      e,
      le,
      ticks-le us (clock_period capabilities) (counter i - counter 0) pos (omega (arith, there)),
    )
