-- ===== src/Acpi/Checksum.antt =====
-- When the checksum of a table is computed, and what it is.
use apopt_os.Base.{
  ℕ, zero, suc, ◌+◌, ◌%◌, ◌<◌, ◌≤◌, ◌≡◌, ◌∙◌, refl, ap, inl, inr, true, false, none, some, u8, u64,
  ltb, ◌==◌, if◌then◌else◌, arith, Bool-cases,
}
use apopt_os.Str.{Memory}
use apopt_os.Acpi.{found, panics, diverges, sdt_length, sum_from, acpi_verify_sdt_checksum}

-- the sum of the `n` bytes from position `i` on
abbrev pub byte_sum : Memory → ℕ → ℕ → ℕ → ℕ
byte_sum m ptr i zero = 0
byte_sum m ptr i (suc n) = m (u64 (ptr + i)) + byte_sum m ptr (i + 1) n

sum_from-byte_sum :
    (m : Memory) (ptr length n fuel i checksum : ℕ)
    → i + n ≡ length
    → length < 256
    → n < fuel
    → checksum < 256
    → sum_from m ptr length fuel i checksum ≡ some (u8 (checksum + byte_sum m ptr i n))
unfolding sum_from
sum_from-byte_sum m ptr length n zero i checksum e short enough byte = absurd (omega arith)
sum_from-byte_sum m ptr length zero (suc fuel) i checksum e short enough byte =
    let done : ltb i length ≡ false = ground arith in
    let same : checksum ≡ u8 (checksum + 0) = omega arith in rw done (ap some same)
sum_from-byte_sum m ptr length (suc n) (suc fuel) i checksum e short enough byte =
    let more : ltb i length ≡ true = ground arith in
    let next : u8 (i + 1) ≡ i + 1 = omega arith in
    let x = m (u64 (ptr + i)) in
    let r = byte_sum m ptr (i + 1) n in
    let same : u8 (u8 (checksum + x) + r) ≡ u8 (checksum + (x + r)) = omega arith in
    rw (more, next)
      (sum_from-byte_sum m ptr length n fuel (i + 1) (u8 (checksum + x)) (omega arith) short
          (omega arith) (omega arith)
        ∙ ap some same)

-- From a length of 256 on the counter, a `uint8_t`, never reaches it.
sum_from-endless :
    (m : Memory) (ptr length fuel i checksum : ℕ)
    → 256 ≤ length
    → i < 256
    → sum_from m ptr length fuel i checksum ≡ none
unfolding sum_from
sum_from-endless m ptr length zero i checksum long byte = refl
sum_from-endless m ptr length (suc fuel) i checksum long byte =
    let more : ltb i length ≡ true = ground arith in
    rw more (
      sum_from-endless m ptr length fuel (u8 (i + 1)) (u8 (checksum + m (u64 (ptr + i)))) long
        (omega arith))

-- The check of a table's checksum, for every length, with more than 256 units of fuel: it returns
-- true for a table of fewer than 256 bytes whose bytes add up to a multiple of 256, panics for any
-- other table of fewer than 256 bytes, and does not end for a longer one.
pub acpi_verify_sdt_checksum_lem :
    (fuel : ℕ) (m : Memory) (sdt : ℕ)
    → 256 < fuel
    → acpi_verify_sdt_checksum fuel m sdt ≡ (
        if ltb (sdt_length m sdt) 256
        then if byte_sum m sdt 0 (sdt_length m sdt) % 256 == 0 then found true else panics
        else diverges)
unfolding acpi_verify_sdt_checksum
acpi_verify_sdt_checksum_lem fuel m sdt enough = elim (Bool-cases (ltb (sdt_length m sdt) 256)) [
  | inl short ↦
      let sum = byte_sum m sdt 0 (sdt_length m sdt) in
      let whole : u8 (0 + sum) ≡ sum % 256 = omega arith in
      let e =
        sum_from-byte_sum m sdt (sdt_length m sdt) (sdt_length m sdt) fuel 0 0 (omega arith)
          (ground arith) (ground arith) (omega arith) in
      rw (short, e, whole) refl
  | inr long ↦
      rw (long, sum_from-endless m sdt (sdt_length m sdt) fuel 0 0 (ground arith) (omega arith))
        refl
]
