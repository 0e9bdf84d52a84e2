-- ===== src/Pic/Laws.antt =====
-- The interrupt masks of the controllers, for devices whose mask registers keep what is written.
use apopt_os.Base.{
  ℕ, ◌-◌, ◌^◌, ◌<◌, ◌≡◌, ◌∙◌, inl, inr, refl, ◌∷◌, Bool, true, false, bit_or, bit_and, u8, ltb,
  ◌==◌, if◌then◌else◌, arith, Bool-cases,
}
use apopt_os.Bitmap.{byte_set, byte_unset, byte_check}
use apopt_os.Bitmap.Byte.{byte_check-byte_set, byte_check-byte_unset}
use apopt_os.Pic.{
  Writes, Device, pic1_data, pic2_data, asm_io_outb, asm_io_inb, pic_set_mask, pic_clear_mask,
}

-- A data port reads back the byte last written to it, and a write to one data port does not change
-- what the other gives.
pub record KeepsMasks (device : Device) : Type 0 where
  pub same : (w : Writes) (port v : ℕ) → device ((port, v) ∷ w) port ≡ v
  pub first : (w : Writes) (v : ℕ) → device ((pic2_data, v) ∷ w) pic1_data ≡ device w pic1_data
  pub second : (w : Writes) (v : ℕ) → device ((pic1_data, v) ∷ w) pic2_data ≡ device w pic2_data

-- Whether line `i` of the sixteen is masked.
abbrev pub masked : Device → Writes → ℕ → Bool
masked device w i =
    if ltb i 8
    then ltb 0 (byte_check (asm_io_inb device w pic1_data) i)
    else ltb 0 (byte_check (asm_io_inb device w pic2_data) (i - 8))

u8_twice : (v : ℕ) → u8 (u8 v) ≡ u8 v
u8_twice v = omega arith

module _ (device : Device) (keeps : KeepsMasks device) (w : Writes) where
  masked-first :
      (v i : ℕ)
      → masked device (asm_io_outb w pic1_data v) i ≡ (
          if ltb i 8
          then ltb 0 (byte_check (u8 v) i)
          else ltb 0 (byte_check (asm_io_inb device w pic2_data) (i - 8)))
  unfolding asm_io_outb asm_io_inb
  masked-first v i = rw (keeps.same w pic1_data (u8 v), keeps.second w (u8 v), u8_twice v) refl

  masked-second :
      (v i : ℕ)
      → masked device (asm_io_outb w pic2_data v) i ≡ (
          if ltb i 8
          then ltb 0 (byte_check (asm_io_inb device w pic1_data) i)
          else ltb 0 (byte_check (u8 v) (i - 8)))
  unfolding asm_io_outb asm_io_inb
  masked-second v i = rw (keeps.same w pic2_data (u8 v), keeps.first w (u8 v), u8_twice v) refl

  set_in :
      (port k j : ℕ)
      → k < 8
      → j < 8
      → ltb 0 (byte_check (u8 (bit_or (asm_io_inb device w port) (2 ^ k))) j)
        ≡ (if k == j then true else ltb 0 (byte_check (asm_io_inb device w port) j))
  unfolding byte_set asm_io_inb
  set_in port k j hk hj = byte_check-byte_set (u8 (device w port)) k j (omega arith) hk hj

  clear_in :
      (port k j : ℕ)
      → k < 8
      → j < 8
      → ltb 0 (byte_check (u8 (bit_and (asm_io_inb device w port) (2 ^ 32 - 1 - 2 ^ k))) j)
        ≡ (if k == j then false else ltb 0 (byte_check (asm_io_inb device w port) j))
  unfolding byte_unset asm_io_inb
  clear_in port k j hk hj = byte_check-byte_unset (u8 (device w port)) k j (omega arith) hk hj

  -- pic_set_mask masks the given line of the sixteen and changes the mask of no other, where the mask
  -- registers keep what is written to them.
  pub masked-pic_set_mask :
      (irq_line i : ℕ)
      → irq_line < 16
      → i < 16
      → masked device (pic_set_mask device w irq_line) i
        ≡ (if irq_line == i then true else masked device w i)
  unfolding pic_set_mask
  masked-pic_set_mask k i hk hi = elim (Bool-cases (ltb k 8)) [
    | inl low ↦ rw low (masked-first _ i ∙ ground (arith, low, set_in pic1_data k i))
    | inr high ↦
        rw high (masked-second _ i ∙ ground (arith, high, set_in pic2_data (k - 8) (i - 8)))
  ]

  -- pic_clear_mask unmasks the given line of the sixteen and changes the mask of no other, where the
  -- mask registers keep what is written to them.
  pub masked-pic_clear_mask :
      (irq_line i : ℕ)
      → irq_line < 16
      → i < 16
      → masked device (pic_clear_mask device w irq_line) i
        ≡ (if irq_line == i then false else masked device w i)
  unfolding pic_clear_mask
  masked-pic_clear_mask k i hk hi = elim (Bool-cases (ltb k 8)) [
    | inl low ↦ rw low (masked-first _ i ∙ ground (arith, low, clear_in pic1_data k i))
    | inr high ↦
        rw high (masked-second _ i ∙ ground (arith, high, clear_in pic2_data (k - 8) (i - 8)))
  ]
