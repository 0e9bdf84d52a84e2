-- ===== src/Pic.antt =====
-- src/kernel/hardware/pic/pic.c: the two interrupt controllers behind their ports, and the port
-- functions of src/kernel/utility/utils.h. The devices are a parameter: what a port gives when it is
-- read, from the writes to all ports so far, the latest first.
pub mod Laws
pub mod Tests
use apopt_os.Base.{
  ℕ, ◌+◌, ◌-◌, ◌*◌, ◌^◌, ◌%◌, List, [], ◌∷◌, Bool, true, false, bit_or, bit_and, u8, ltb, leb,
  if◌then◌else◌,
}

abbrev pub Writes : Type 0
Writes = List (ℕ × ℕ)

abbrev pub Device : Type 0
Device = Writes → ℕ → ℕ

abbrev pub pic1_command : ℕ
pic1_command = 0x20

abbrev pub pic1_data : ℕ
pic1_data = 0x20 + 1

abbrev pub pic2_command : ℕ
pic2_command = 0xA0

abbrev pub pic2_data : ℕ
pic2_data = 0xA0 + 1

abbrev pub icw4_8086 : ℕ
icw4_8086 = 0x01

unfoldable pub asm_io_outb : Writes → ℕ → ℕ → Writes
asm_io_outb w port value = (port, u8 value) ∷ w

module _ (device : Device) where
  unfoldable pub asm_io_inb : Writes → ℕ → ℕ
  asm_io_inb w port = u8 (device w port)

  -- The masks that were read are written back at the end; asm_io_wait reads a port of no device.
  unfoldable pub pic_remap : Writes → Writes
  pic_remap w =
      let mask1 = asm_io_inb w pic1_data in
      let mask2 = asm_io_inb w pic2_data in
      let w1 = asm_io_outb (asm_io_outb w pic1_command 0x11) pic2_command 0x11 in
      let w2 = asm_io_outb (asm_io_outb w1 pic1_data 0x20) pic2_data 0x28 in
      let w3 = asm_io_outb (asm_io_outb w2 pic1_data 0x04) pic2_data 0x02 in
      let w4 = asm_io_outb (asm_io_outb w3 pic1_data 0x01) pic2_data 0x01 in
      let w5 = asm_io_outb (asm_io_outb w4 pic1_data 0x00) pic2_data 0x00 in
      let w6 = asm_io_outb (asm_io_outb w5 pic1_data icw4_8086) pic2_data icw4_8086 in
      asm_io_outb (asm_io_outb w6 pic1_data mask1) pic2_data mask2

  unfoldable pub pic_set_mask : Writes → ℕ → Writes
  pic_set_mask w irq_line =
      let port = if ltb irq_line 8 then pic1_data else pic2_data in
      let line = if ltb irq_line 8 then irq_line else irq_line - 8 in
      asm_io_outb w port (bit_or (asm_io_inb w port) (2 ^ line))

  unfoldable pub pic_clear_mask : Writes → ℕ → Writes
  pic_clear_mask w irq_line =
      let port = if ltb irq_line 8 then pic1_data else pic2_data in
      let line = if ltb irq_line 8 then irq_line else irq_line - 8 in
      asm_io_outb w port (bit_and (asm_io_inb w port) (2 ^ 32 - 1 - 2 ^ line))

unfoldable pub pic_disable : Writes → Writes
pic_disable w = asm_io_outb (asm_io_outb w pic2_data 0xFF) pic1_data 0xFF

unfoldable pub pic_signal_eoi : Writes → ℕ → Writes
pic_signal_eoi w isr_number =
    asm_io_outb (if leb 40 isr_number then asm_io_outb w pic2_command 0x20 else w) pic1_command 0x20
