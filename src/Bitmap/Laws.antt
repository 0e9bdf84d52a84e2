-- ===== src/Bitmap/Laws.antt =====
-- The bitmap as a map from page numbers to truth values.
use apopt_os.Base.{
  ℕ, zero, suc, ◌/◌, ◌%◌, ◌<◌, ◌^◌, ◌≡◌, ◌∙◌, refl, inl, inr, true, false, ltb, ◌==◌, if◌then◌else◌,
  arith, length, length-set, length-replicate, get_or, set, replicate, get_or-set_self,
  get_or-set_ne, get_or_out, set_out, get_or-replicate, Bool-cases,
}
use apopt_os.Bitmap.{
  Bitmap, byte_set, byte_unset, bitmap_set_bit, bitmap_unset_bit, bitmap_check_bit, is_set,
}
use apopt_os.Bitmap.Byte.{
  byte_check-byte_set, byte_check-byte_unset, byte_set-lt, byte_unset-lt, byte_check-zero,
  byte_check-ones,
}

-- Every byte is a byte, and the map holds as many as `size` says.
pub record IsValid (b : Bitmap) : Type 0 where
  pub byte : (i : ℕ) → get_or b.bytes i 0 < 256
  pub sized : length b.bytes ≡ b.size

get_or-set-lt :
    {b : Bitmap} (i v : ℕ) → IsValid b → v < 256 → (j : ℕ) → get_or (set b.bytes i v) j 0 < 256
get_or-set-lt {b} i v h hv j = elim (Bool-cases (i == j)) [
  | inl e ↦ elim (Bool-cases (ltb i (length b.bytes))) [
    | inl inside ↦ ground (arith, get_or-set_self b.bytes i v 0, h.byte j)
    | inr out ↦ ground (arith, set_out b.bytes i v, h.byte j)
  ]
  | inr ne ↦ ground (arith, get_or-set_ne b.bytes i j v 0, h.byte j)
]

pub bitmap_set_bit-IsValid : {b : Bitmap} (i : ℕ) → IsValid b → IsValid (bitmap_set_bit b i)
unfolding bitmap_set_bit
bitmap_set_bit-IsValid {b} i h = elim (Bool-cases (ltb i (2 ^ 31))) [
  | inl small ↦ rw small (record {
    byte = get_or-set-lt (i / 8) _ h (byte_set-lt _ _);
    sized = length-set b.bytes (i / 8) _ ∙ h.sized;
  })
  | inr big ↦ rw big h
]

pub bitmap_unset_bit-IsValid : {b : Bitmap} (i : ℕ) → IsValid b → IsValid (bitmap_unset_bit b i)
unfolding bitmap_unset_bit
bitmap_unset_bit-IsValid {b} i h = elim (Bool-cases (ltb i (2 ^ 31))) [
  | inl small ↦ rw small (record {
    byte = get_or-set-lt (i / 8) _ h (byte_unset-lt _ _);
    sized = length-set b.bytes (i / 8) _ ∙ h.sized;
  })
  | inr big ↦ rw big h
]

-- On a valid bitmap, bitmap_set_bit of a bit inside the map sets that bit and changes no other.
pub is_set-set_bit :
    (b : Bitmap) (i j : ℕ)
    → IsValid b
    → i / 8 < length b.bytes
    → i < 2 ^ 31
    → is_set (bitmap_set_bit b i) j ≡ (if i == j then true else is_set b j)
unfolding is_set bitmap_set_bit bitmap_check_bit
is_set-set_bit b i j h inside small =
    let si : ltb i (2 ^ 31) ≡ true = ground arith in
    rw si (elim (Bool-cases (i / 8 == j / 8)) [
      | inl e ↦ ground (
        arith,
        get_or-set_self b.bytes (i / 8) (byte_set (get_or b.bytes (i / 8) 0) (i % 8)) 0,
        byte_check-byte_set (get_or b.bytes (i / 8) 0) (i % 8) (j % 8),
        h.byte (i / 8),
      )
      | inr ne ↦ ground (
        arith,
        get_or-set_ne b.bytes (i / 8) (j / 8) (byte_set (get_or b.bytes (i / 8) 0) (i % 8)) 0,
      )
    ])

-- On a valid bitmap, bitmap_unset_bit clears the bit, also where it lies outside the map and
-- reads as clear, and changes no other.
pub is_set-unset_bit :
    (b : Bitmap) (i j : ℕ)
    → IsValid b
    → is_set (bitmap_unset_bit b i) j ≡ (if i == j then false else is_set b j)
unfolding is_set bitmap_unset_bit bitmap_check_bit
is_set-unset_bit b i j h = elim (Bool-cases (i / 8 == j / 8)) [
  | inl e ↦ elim (Bool-cases (ltb (i / 8) (length b.bytes))) [
    | inl inside ↦ ground (
      arith,
      get_or-set_self b.bytes (i / 8) (byte_unset (get_or b.bytes (i / 8) 0) (i % 8)) 0,
      byte_check-byte_unset (get_or b.bytes (i / 8) 0) (i % 8) (j % 8),
      h.byte (i / 8),
    )
    | inr out ↦ ground (
      arith,
      set_out b.bytes (i / 8) (byte_unset (get_or b.bytes (i / 8) 0) (i % 8)),
      get_or_out b.bytes (i / 8) 0,
      byte_check-zero (j % 8),
    )
  ]
  | inr ne ↦ ground (
    arith,
    get_or-set_ne b.bytes (i / 8) (j / 8) (byte_unset (get_or b.bytes (i / 8) 0) (i % 8)) 0,
  )
]

-- A map filled with 0xFF has every bit inside it set.
pub is_set-replicate :
    (b : Bitmap) (n j : ℕ) → b.bytes ≡ replicate n 0xFF → j / 8 < n → j < 2 ^ 31 → is_set b j ≡ true
unfolding is_set bitmap_check_bit
is_set-replicate b n j e h small =
    let sj : ltb j (2 ^ 31) ≡ true = ground arith in
    rw (sj, e, get_or-replicate {A = ℕ} n (j / 8) 0xFF 0 h) (byte_check-ones (j % 8) (omega arith))

replicate-lt : (n v i : ℕ) → v < 256 → get_or (replicate n v) i 0 < 256
replicate-lt zero v i h = omega arith
replicate-lt (suc n) v zero h = h
replicate-lt (suc n) v (suc i) h = replicate-lt n v i h

pub replicate-IsValid : (b : Bitmap) (v : ℕ) → v < 256 → b.bytes ≡ replicate b.size v → IsValid b
replicate-IsValid b v h e = record {
  byte = λ i. rw e (replicate-lt b.size v i h);
  sized = rw e (length-replicate b.size v);
}

pub size-set_bit : (b : Bitmap) (i : ℕ) → (bitmap_set_bit b i).size ≡ b.size
unfolding bitmap_set_bit
size-set_bit b i = elim (Bool-cases (ltb i (2 ^ 31))) [
  | inl small ↦ rw small refl
  | inr big ↦ rw big refl
]

pub size-unset_bit : (b : Bitmap) (i : ℕ) → (bitmap_unset_bit b i).size ≡ b.size
unfolding bitmap_unset_bit
size-unset_bit b i = elim (Bool-cases (ltb i (2 ^ 31))) [
  | inl small ↦ rw small refl
  | inr big ↦ rw big refl
]

-- A bit that is set stays set when any bit, even one outside the map, is set.
pub is_set-set_bit_mono :
    (b : Bitmap) (i j : ℕ) → IsValid b → is_set b j ≡ true → is_set (bitmap_set_bit b i) j ≡ true
is_set-set_bit_mono b i j h e = elim (Bool-cases (ltb i (2 ^ 31))) [
  | inr big ↦ unfold bitmap_set_bit in rw big e
  | inl small ↦ elim (Bool-cases (ltb (i / 8) (length b.bytes))) [
    | inl inside ↦ ground (arith, is_set-set_bit b i j h)
    | inr out ↦
        unfold is_set bitmap_set_bit bitmap_check_bit in
        rw (small, set_out b.bytes (i / 8) _ (ground arith)) (unfold is_set bitmap_check_bit in e)
  ]
]
