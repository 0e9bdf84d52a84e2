-- ===== src/Tables/Idt.antt =====
-- src/kernel/tables/idt.c: the interrupt descriptor table. The addresses of the handlers,
-- `_isr_vector_asm`, and of the table are assembled and linked elsewhere, and are parameters.
use apopt_os.Base.{
  ℕ, zero, suc, ◌+◌, ◌-◌, ◌*◌, ◌%◌, ◌^◌, ◌<◌, ◌≤◌, ◌≡◌, ◌∙◌, ap, sym, subst, refl, Bool, true,
  false, u8, shr, ltb, ◌==◌, arith, Bool-cases, inl, inr,
}
use apopt_os.Slab.Heap.{put}
use apopt_os.Pic.{Writes, Device, pic_remap}

-- `idt_descriptor_t`; `zeros` is its last field.
pub record IdtDescriptor : Type 0 where
  pub offset_low : ℕ
  pub selector : ℕ
  pub ist : ℕ
  pub type_attributes : ℕ
  pub offset_middle : ℕ
  pub offset_high : ℕ
  pub zeros : ℕ

abbrev pub int_gate : ℕ
int_gate = 0x8E

-- `sizeof(idt)`: 256 descriptors of 16 bytes
abbrev pub sizeof_idt : ℕ
sizeof_idt = 256 * 16

-- The table, the register `idtr`, whether it is loaded, the interrupt flag, and the writes to ports.
pub record IdtState : Type 0 where
  pub idt : ℕ → IdtDescriptor
  pub limit : ℕ
  pub base : ℕ
  pub loaded : Bool
  pub interrupts : Bool
  pub ports : Writes

module _ (isr_vector : ℕ → ℕ) where
  unfoldable pub create_descriptor : IdtState → ℕ → ℕ → IdtState
  create_descriptor s index type_attributes =
      let offset = isr_vector index in
      record s {
        idt = put s.idt index (record {
          offset_low = offset % 2 ^ 16;
          selector = 0x08;
          ist = 0;
          type_attributes = type_attributes;
          offset_middle = shr offset 16 % 2 ^ 16;
          offset_high = shr offset 32 % 2 ^ 32;
          zeros = 0;
        });
      }

  -- `for (; i < end; i++) create_descriptor(i, INT_GATE)`, `n` rounds; `i` is passed as a `uint8_t`.
  unfoldable pub create_from : IdtState → ℕ → ℕ → IdtState
  create_from s zero i = s
  create_from s (suc n) i = create_from (create_descriptor s (u8 i) int_gate) n (i + 1)

  unfoldable pub idt_load : IdtState → IdtState
  idt_load s = record s { loaded = true }

  unfoldable pub idt_init : Device → ℕ → IdtState → IdtState
  idt_init device address s =
      let s1 = create_from s 32 0 in
      let s2 = create_from (record s1 { ports = pic_remap device s1.ports }) (48 - 32) 32 in
      let s3 = create_from s2 (256 - 48) 48 in
      record (idt_load (record s3 { limit = sizeof_idt - 1; base = address })) { interrupts = true }

  -- The handler's address as the processor puts it together from a descriptor.
  abbrev pub handler_of : IdtDescriptor → ℕ
  handler_of d = d.offset_low + 2 ^ 16 * d.offset_middle + 2 ^ 32 * d.offset_high

  -- A present interrupt gate of ring 0 in the kernel's code segment, to the handler of its vector.
  pub record IsGate (d : IdtDescriptor) (vector : ℕ) : Type 0 where
    pub handler : handler_of d ≡ isr_vector vector
    pub segment : d.selector ≡ 0x08
    pub gate : d.type_attributes ≡ int_gate
    pub stack : d.ist ≡ 0

  create_descriptor-IsGate :
      (s : IdtState) (i : ℕ)
      → isr_vector i < 2 ^ 64
      → IsGate ((create_descriptor s i int_gate).idt i) i
  unfolding create_descriptor
  create_descriptor-IsGate s i small =
      let e : (i == i) ≡ true = ground arith in
      rw e (record { handler = omega arith; segment = refl; gate = refl; stack = refl })

  create_descriptor-other :
      (s : IdtState) (i j : ℕ) → (i == j) ≡ false → (create_descriptor s i int_gate).idt j ≡ s.idt j
  unfolding create_descriptor
  create_descriptor-other s i j ne = rw ne refl

  -- The loop leaves the entries before `i` alone.
  create_from-before :
      (s : IdtState) (n i j : ℕ) → i + n ≤ 256 → j < i → (create_from s n i).idt j ≡ s.idt j
  unfolding create_from
  create_from-before s zero i j fits lt = refl
  create_from-before s (suc n) i j fits lt = ground (
    arith,
    create_from-before (create_descriptor s (u8 i) int_gate) n (i + 1) j,
    create_descriptor-other s (u8 i) j,
  )

  create_from-IsGate :
      (s : IdtState) (n i j : ℕ)
      → i + n ≤ 256
      → i ≤ j
      → j < i + n
      → isr_vector j < 2 ^ 64
      → IsGate ((create_from s n i).idt j) j
  unfolding create_from
  create_from-IsGate s zero i j fits le lt small = absurd (omega arith)
  create_from-IsGate s (suc n) i j fits le lt small =
      let e : u8 i ≡ i = omega arith in
      elim (Bool-cases (i == j)) [
        | inl here ↦
            let same : i ≡ j = ground arith in
            let stored : (create_from (create_descriptor s (u8 i) int_gate) n (i + 1)).idt j
                ≡ (create_descriptor s j int_gate).idt j =
              create_from-before (create_descriptor s (u8 i) int_gate) n (i + 1) j (omega arith)
                (omega arith)
              ∙ ap (λ (t : ℕ). (create_descriptor s t int_gate).idt j) (e ∙ same) in
            subst (λ d. IsGate d j) (sym stored) (create_descriptor-IsGate s j small)
        | inr later ↦
            create_from-IsGate (create_descriptor s (u8 i) int_gate) n (i + 1) j (omega arith)
              (ground arith) (omega arith) small
      ]

  -- When idt_init returns, each of the 256 entries is an interrupt gate to the handler of its vector,
  -- where the handlers' addresses are 64-bit numbers; the register names the whole table and is
  -- loaded, and interrupts are on.
  pub idt_init-IsGate :
      (device : Device) (address : ℕ) (s : IdtState)
      → ((j : ℕ) → isr_vector j < 2 ^ 64)
      → ((j : ℕ) → j < 256 → IsGate ((idt_init device address s).idt j) j)
        × ((idt_init device address s).limit + 1 ≡ sizeof_idt)
        × ((idt_init device address s).base ≡ address)
        × ((idt_init device address s).loaded ≡ true)
        × ((idt_init device address s).interrupts ≡ true)
  unfolding idt_init idt_load
  idt_init-IsGate device address s small = (gates, refl, refl, refl, refl)
    where
      s1 : IdtState
      s1 = create_from s 32 0

      s2 : IdtState
      s2 = create_from (record s1 { ports = pic_remap device s1.ports }) (48 - 32) 32

      gates : (j : ℕ) → j < 256 → IsGate ((create_from s2 (256 - 48) 48).idt j) j
      gates j lt = elim (Bool-cases (ltb j 48)) [
        | inl low ↦
            rw (create_from-before s2 208 48 j (omega arith) (ground arith))
              (elim (Bool-cases (ltb j 32)) [
                | inl exception ↦
                    rw
                      (create_from-before (record s1 { ports = pic_remap device s1.ports }) 16 32 j
                        (omega arith) (ground arith))
                      (create_from-IsGate s 32 0 j (omega arith) (omega arith) (ground arith)
                        (small j))
                | inr irq ↦
                    create_from-IsGate (record s1 { ports = pic_remap device s1.ports }) 16 32 j
                      (omega arith) (ground arith) (ground arith) (small j)
              ])
        | inr high ↦
            create_from-IsGate s2 208 48 j (omega arith) (ground arith) (omega arith) (small j)
      ]
