-- ===== src/Apic/Entry.antt =====
-- The redirection entry of ioapic_set_gsi_redirect, field by field.
use apopt_os.Base.{
  ℕ, zero, suc, ◌+◌, ◌-◌, ◌*◌, ◌/◌, ◌%◌, ◌^◌, ◌<◌, ◌≡◌, ◌∙◌, ap, Bool, true, false, bit_and, bit_or,
  bit_or-high, bit_and-zero, bit_and-ones, bit_and-halves, u64, ◌==◌, if◌then◌else◌, arith,
}
use apopt_os.Apic.{redirect_entry}

-- one bit of a number
abbrev pub bit_at : ℕ → ℕ → ℕ
bit_at x k = x / 2 ^ k % 2

abbrev pub bool_bit : Bool → ℕ
bool_bit true = 1
bool_bit false = 0

bool_bit-lt : (b : Bool) → bool_bit b < 2
bool_bit-lt true = omega arith
bool_bit-lt false = omega arith

test_two : (flags : ℕ) → bit_and flags 2 ≡ bit_at flags 1 * 2
test_two flags =
    omega
      (arith, bit_and-halves flags 2, bit_and-halves (flags / 2) 1, bit_and-zero (flags / 2 / 2))

test_eight : (flags : ℕ) → bit_and flags 8 ≡ bit_at flags 3 * 8
test_eight flags = omega (
  arith,
  bit_and-halves flags 8,
  bit_and-halves (flags / 2) 4,
  bit_and-halves (flags / 2 / 2) 2,
  bit_and-halves (flags / 2 / 2 / 2) 1,
  bit_and-zero (flags / 2 / 2 / 2 / 2),
)

-- One conditional bit above the bits so far.
with_bit :
    (x k f : ℕ) → f < 2 ^ k → x < 2 → (if x == 0 then f else bit_or f (2 ^ k)) ≡ x * 2 ^ k + f
with_bit zero k f hf hx = omega arith
with_bit (suc zero) k f hf hx =
    let one : 2 ^ k ≡ 1 * 2 ^ k = omega arith in ap (bit_or f) one ∙ bit_or-high k 1 f hf
with_bit (suc (suc x)) k f hf hx = absurd (omega arith)

-- The mask bit, set or cleared, above bits below it.
with_mask :
    (mask : Bool) (f : ℕ)
    → f < 2 ^ 16
    → (if mask then bit_or f (2 ^ 16) else bit_and f (2 ^ 64 - 1 - 2 ^ 16))
      ≡ bool_bit mask * 2 ^ 16 + f
with_mask true f hf = bit_or-high 16 1 f hf
with_mask false f hf = omega (arith, bit_and-ones 16 (2 ^ 48 - 2) f hf)

-- The entry as a sum of its fields.
pub redirect_entry-sum :
    (lapic_id vector flags : ℕ) (mask : Bool)
    → vector < 256
    → redirect_entry lapic_id vector flags mask
      ≡ lapic_id % 256 * 2 ^ 56
        + (bool_bit mask * 2 ^ 16 + (bit_at flags 3 * 2 ^ 15 + (bit_at flags 1 * 2 ^ 13 + vector)))
unfolding redirect_entry
redirect_entry-sum lapic_id vector flags mask small =
    let t2 = test_two flags in
    let t8 = test_eight flags in
    let z2 : (bit_and flags 2 == 0) ≡ (bit_at flags 1 == 0) = ground (arith, t2) in
    let z8 : (bit_and flags 8 == 0) ≡ (bit_at flags 3 == 0) = ground (arith, t8) in
    let w1 = with_bit (bit_at flags 1) 13 vector (omega arith) (omega arith) in
    let w2 =
      with_bit (bit_at flags 3) 15 (bit_at flags 1 * 2 ^ 13 + vector) (omega arith) (omega arith) in
    let w3 =
      with_mask mask (bit_at flags 3 * 2 ^ 15 + (bit_at flags 1 * 2 ^ 13 + vector)) (omega arith) in
    let top : u64 (lapic_id * 2 ^ 56) ≡ lapic_id % 256 * 2 ^ 56 = omega arith in
    let m2 = bool_bit-lt mask in
    rw (z2, z8, w1, w2, w3, top) (bit_or-high 56 (lapic_id % 256) _ (omega arith))

-- The fields that an IOAPIC takes from an entry of 64 bits: the vector, the polarity, the trigger
-- mode, the mask and the destination; the other bits are 0.
pub record IsEntry (e lapic_id vector flags : ℕ) (mask : Bool) : Type 0 where
  pub vector_eq : e % 256 ≡ vector
  pub polarity : bit_at e 13 ≡ bit_at flags 1
  pub trigger : bit_at e 15 ≡ bit_at flags 3
  pub masked : bit_at e 16 ≡ bool_bit mask
  pub destination : e / 2 ^ 56 ≡ lapic_id % 256
  pub fixed : (bit_at e 14 ≡ 0) × (e / 2 ^ 8 % 2 ^ 5 ≡ 0) × (e / 2 ^ 17 % 2 ^ 39 ≡ 0)

-- For a vector below 256, the redirection entry has the given vector, the polarity and the trigger
-- mode of the flags, the given mask bit and the low byte of the LAPIC's number as its destination, and
-- its other bits are 0.
pub redirect_entry-IsEntry :
    (lapic_id vector flags : ℕ) (mask : Bool)
    → vector < 256
    → IsEntry (redirect_entry lapic_id vector flags mask) lapic_id vector flags mask
redirect_entry-IsEntry lapic_id vector flags mask small =
    let e = redirect_entry-sum lapic_id vector flags mask small in
    let b = bool_bit-lt mask in
    record {
      vector_eq = omega (arith, e, b);
      polarity = omega (arith, e, b);
      trigger = omega (arith, e, b);
      masked = omega (arith, e, b);
      destination = omega (arith, e, b);
      fixed = (omega (arith, e, b), omega (arith, e, b), omega (arith, e, b));
    }
