-- ===== src/Str/Laws.antt =====
-- What memset, memcpy and memcmp do to a range that does not pass the end of the address space.
use apopt_os.Base.{
  ℕ, zero, suc, ◌+◌, ◌-◌, ◌^◌, ◌%◌, ◌<◌, ◌≤◌, ◌≡◌, ◌≢◌, ◌⊎◌, ◌&&◌, refl, u8, u64, ltb, leb, Bool,
  ◌==◌, if◌then◌else◌, arith, Bool-cases, inl, inr,
}
use apopt_os.Str.{Memory, store8, memset_from, memset, memcpy_from, memcpy, memcmp_from, memcmp}

-- the test that `x` lies in the `n` bytes from `p`
abbrev pub within : ℕ → ℕ → ℕ → Bool
within p n x = leb p x && ltb x (p + n)

memset_from_lem :
    (m : Memory) (p v n i x : ℕ)
    → p + i + n ≤ 2 ^ 64
    → memset_from m p v n i x ≡ (if within (p + i) n x then u8 v else m x)
unfolding memset_from
memset_from_lem m p v zero i x h = ground arith
memset_from_lem m p v (suc n) i x h =
    ground (arith, memset_from_lem (store8 m (u64 (p + i)) (u8 v)) p v n (i + 1) x)

-- Where the range does not pass the end of the address space, memset writes the low byte of the
-- value to exactly the given bytes.
pub memset_lem :
    (m : Memory) (p v n x : ℕ)
    → p + n ≤ 2 ^ 64
    → memset m p v n x ≡ (if within p n x then u8 v else m x)
unfolding memset
memset_lem m p v n x h = ground (arith, memset_from_lem m p v n 0 x)

-- For a destination at or below the source or beyond its end, the forward copy is exact.
abbrev pub MayCopy : ℕ → ℕ → ℕ → Type 0
MayCopy dest src n = (dest ≤ src) ⊎ (src + n ≤ dest)

memcpy_from_lem :
    (m : Memory) (dest src n i x : ℕ)
    → dest + i + n ≤ 2 ^ 64
    → src + i + n ≤ 2 ^ 64
    → MayCopy dest src (i + n)
    → memcpy_from m dest src n i x ≡ (if within (dest + i) n x then m (src + (x - dest)) else m x)
unfolding memcpy_from
memcpy_from_lem m dest src zero i x hd hs apart = ground arith
memcpy_from_lem m dest src (suc n) i x hd hs apart =
    ground
      (arith, memcpy_from_lem (store8 m (u64 (dest + i)) (m (u64 (src + i)))) dest src n (i + 1) x)

-- Where neither range passes the end of the address space and the destination starts at or below
-- the source or beyond its end, memcpy copies the source as it was before the call, and changes
-- no other byte.
pub memcpy_lem :
    (m : Memory) (dest src n x : ℕ)
    → dest + n ≤ 2 ^ 64
    → src + n ≤ 2 ^ 64
    → MayCopy dest src n
    → memcpy m dest src n x ≡ (if within dest n x then m (src + (x - dest)) else m x)
unfolding memcpy
memcpy_lem m dest src n x hd hs apart = ground (arith, memcpy_from_lem m dest src n 0 x)

-- The bytes at `p` and `q` agree from position `lo` up to `hi`.
abbrev pub Agree : Memory → ℕ → ℕ → ℕ → ℕ → Type 0
Agree m p q lo hi = (j : ℕ) → lo ≤ j → j < hi → m (p + j) ≡ m (q + j)

-- The first position from `lo` where they differ, and the `int` that memcmp returns there.
abbrev pub FirstDifference : Memory → ℕ → ℕ → ℕ → ℕ → ℕ → Type 0
FirstDifference m p q lo hi r =
    (k : ℕ) × (lo ≤ k)
    × (k < hi)
    × Agree m p q lo k
    × (m (p + k) ≢ m (q + k))
    × (r ≡ (m (p + k) + 2 ^ 32 - m (q + k)) % 2 ^ 32)

abbrev pub Compared : Memory → ℕ → ℕ → ℕ → ℕ → ℕ → Type 0
Compared m p q lo hi r = ((r ≡ 0) × Agree m p q lo hi) ⊎ FirstDifference m p q lo hi r

Agree-step :
    (m : Memory) (p q i hi : ℕ) → m (p + i) ≡ m (q + i) → Agree m p q (i + 1) hi → Agree m p q i hi
Agree-step m p q i hi e later j lo lt = elim (Bool-cases (i == j)) [
  | inl same ↦ let e' : i ≡ j = ground arith in rw (← e') e
  | inr other ↦ later j (ground arith) lt
]

memcmp_from-Compared :
    (m : Memory) (p q n i hi : ℕ)
    → i + n ≡ hi
    → p + hi ≤ 2 ^ 64
    → q + hi ≤ 2 ^ 64
    → Compared m p q i hi (memcmp_from m p q n i)
unfolding memcmp_from
memcmp_from-Compared m p q zero i hi e hp hq = inl (refl, λ j lo lt. absurd (omega arith))
memcmp_from-Compared m p q (suc n) i hi e hp hq =
    let ep : u64 (p + i) ≡ p + i = omega arith in
    let eq : u64 (q + i) ≡ q + i = omega arith in
    rw (ep, eq)
      (elim (Bool-cases (m (p + i) == m (q + i))) [
        | inl same ↦
            rw same (
              continue (ground arith) (memcmp_from-Compared m p q n (i + 1) hi (omega arith) hp hq))
        | inr differ ↦ rw differ (
            inr
              (i, omega arith, omega arith, (λ j lo lt. absurd (omega arith)), ground arith, refl))
      ])
  where
    continue :
        m (p + i) ≡ m (q + i)
        → Compared m p q (i + 1) hi (memcmp_from m p q n (i + 1))
        → Compared m p q i hi (memcmp_from m p q n (i + 1))
    continue same (inl (z, all)) = inl (z, Agree-step m p q i hi same all)
    continue same (inr (k, lo, lt, all, ne, r)) =
        inr (k, omega arith, lt, Agree-step m p q i k same all, ne, r)

-- Where neither range passes the end of the address space, memcmp returns 0 when all bytes
-- agree, else the difference, as an `int`, of the first two that do not.
pub memcmp-Compared :
    (m : Memory) (p q n : ℕ) → p + n ≤ 2 ^ 64 → q + n ≤ 2 ^ 64 → Compared m p q 0 n (memcmp m p q n)
unfolding memcmp
memcmp-Compared m p q n hp hq = memcmp_from-Compared m p q n 0 n (omega arith) hp hq
