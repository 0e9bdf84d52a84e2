-- ===== src/Tables/Tests.antt =====
-- The descriptor tables, and an interrupt that saves and restores the registers.
use apopt_os.Base.{ℕ, ◌+◌, ◌*◌, ◌^◌, ◌%◌, ◌<◌, ◌≡◌, true, false, [], ◌∷◌, arith}
use apopt_os.Pic.{Device}
use apopt_os.Tables.Idt.{IdtState, IsGate, sizeof_idt, idt_init, idt_init-IsGate}
use apopt_os.Tables.Gdt.{
  GdtState, IsSegment, base_of, flat, sizeof_gdt, tss_create_segment, gdt_init,
  tss_create_segment-gdt_init,
}
use apopt_os.Tables.Frame.{
  rbp, r15, number, Registers, with_number, read_state, pusha64, isr_handler_asm, exchanged,
  mirrored, read_state-pusha64, isr_handler_asm_lem,
}

-- Handlers of 16 bytes one after the other.
abbrev pub vectors : ℕ → ℕ
vectors i = 0xFFFFFFFF80000000 + 16 * (i % 256)

abbrev pub zero_idt : IdtState
zero_idt = record {
  idt = λ _. record {
    offset_low = 0;
    selector = 0;
    ist = 0;
    type_attributes = 0;
    offset_middle = 0;
    offset_high = 0;
    zeros = 0;
  };
  limit = 0;
  base = 0;
  loaded = false;
  interrupts = false;
  ports = [];
}

abbrev pub silent : Device
silent w port = 0

idt_init-IsGate_example :
    ((j : ℕ) → j < 256 → IsGate vectors ((idt_init vectors silent 0x9000 zero_idt).idt j) j)
    × ((idt_init vectors silent 0x9000 zero_idt).limit + 1 ≡ sizeof_idt)
    × ((idt_init vectors silent 0x9000 zero_idt).base ≡ 0x9000)
    × ((idt_init vectors silent 0x9000 zero_idt).loaded ≡ true)
    × ((idt_init vectors silent 0x9000 zero_idt).interrupts ≡ true)
idt_init-IsGate_example = idt_init-IsGate vectors silent 0x9000 zero_idt vectors-lt
  where
    vectors-lt : (j : ℕ) → vectors j < 2 ^ 64
    vectors-lt j = omega arith

abbrev pub zero_gdt : GdtState
zero_gdt = record {
  entries = λ _. flat 0 0;
  tss_descriptor = record {
    length = 0;
    base_low = 0;
    base_middle = 0;
    flags1 = 0;
    flags2 = 0;
    base_high = 0;
    base_upper = 0;
    reserved = 0;
  };
  limit = 0;
  base = 0;
  loaded = false;
}

tss_create_segment-gdt_init_example :
    let t = tss_create_segment (gdt_init 0x8000 zero_gdt) 0xFFFF900012345678 in
    ((t.entries 0).access ≡ 0)
    × IsSegment (t.entries 1) 0 1
    × IsSegment (t.entries 2) 0 0
    × IsSegment (t.entries 3) 3 0
    × IsSegment (t.entries 4) 3 1
    × (base_of t.tss_descriptor ≡ 0xFFFF900012345678)
    × (t.limit + 1 ≡ sizeof_gdt)
    × (t.base ≡ 0x8000)
    × (t.loaded ≡ true)
tss_create_segment-gdt_init_example =
    tss_create_segment-gdt_init 0x8000 zero_gdt 0xFFFF900012345678 (omega arith)

-- Every register holds its number.
abbrev numbered : Registers
numbered r = number r

read_state-pusha64_example :
    let s = read_state (pusha64 numbered (with_number 128 0 (0x4000 ∷ []))) in
    (s.isr_number ≡ 128)
    × (s.error_code ≡ 0)
    × (s.rip ≡ 0x4000)
    × (s.saved rbp ≡ numbered (exchanged rbp))
read_state-pusha64_example = read_state-pusha64 numbered 128 0 0x4000 [] rbp

isr_handler_asm_lem_example :
    let t = isr_handler_asm numbered (with_number 128 0 (0x4000 ∷ [])) in
    (t.1 ≡ 0x4000 ∷ []) × (t.0 r15 ≡ numbered (mirrored r15))
isr_handler_asm_lem_example = isr_handler_asm_lem numbered 128 0 (0x4000 ∷ []) r15
