-- ===== src/Tables/Frame.antt =====
-- The frame of an interrupt: pusha64 and popa64 of src/kernel/utility/definitions.inc around the call
-- of isr_handler in src/kernel/tables/isr_asm.s, and `cpu_interrupt_state_t` of
-- src/kernel/hardware/cpu.h, through which the handler reads it.
use apopt_os.Base.{ℕ, ◌≡◌, refl, List, [], ◌∷◌, ◌==◌, if◌then◌else◌, get_or}

pub data Register : Type 0 where
  rax rbx rcx rdx rbp rdi rsi r8 r9 r10 r11 r12 r13 r14 r15 : Register

abbrev pub number : Register → ℕ
number rax = 0
number rbx = 1
number rcx = 2
number rdx = 3
number rbp = 4
number rdi = 5
number rsi = 6
number r8 = 7
number r9 = 8
number r10 = 9
number r11 = 10
number r12 = 11
number r13 = 12
number r14 = 13
number r15 = 14

abbrev pub Registers : Type 0
Registers = Register → ℕ

-- The stack, its top first.
abbrev pub Stack : Type 0
Stack = List ℕ

abbrev pub load : Registers → Register → ℕ → Registers
load regs r v q = if number r == number q then v else regs q

-- The macros name the registers in the same order.
abbrev pub pusha64_order : List Register
pusha64_order =
    rax ∷ rbx ∷ rcx ∷ rdx ∷ rbp ∷ rdi ∷ rsi ∷ r8 ∷ r9 ∷ r10 ∷ r11 ∷ r12 ∷ r13 ∷ r14 ∷ r15 ∷ []

abbrev pub popa64_order : List Register
popa64_order =
    rax ∷ rbx ∷ rcx ∷ rdx ∷ rbp ∷ rdi ∷ rsi ∷ r8 ∷ r9 ∷ r10 ∷ r11 ∷ r12 ∷ r13 ∷ r14 ∷ r15 ∷ []

unfoldable pub push_all : List Register → Registers → Stack → Stack
push_all [] regs stack = stack
push_all (r ∷ rs) regs stack = push_all rs regs (regs r ∷ stack)

-- A pop from the empty stack, which the frame rules out, loads 0.
unfoldable pub pop_all : List Register → Registers → Stack → Registers × Stack
pop_all [] regs stack = (regs, stack)
pop_all (r ∷ rs) regs [] = pop_all rs (load regs r 0) []
pop_all (r ∷ rs) regs (v ∷ stack) = pop_all rs (load regs r v) stack

unfoldable pub pusha64 : Registers → Stack → Stack
pusha64 regs stack = push_all pusha64_order regs stack

unfoldable pub popa64 : Registers → Stack → Registers × Stack
popa64 regs stack = pop_all popa64_order regs stack

-- What the processor and the stub of a vector have pushed: the interrupt's number and error code in
-- front of the words that `iretq` takes.
abbrev pub with_number : ℕ → ℕ → Stack → Stack
with_number isr_number error_code stack = isr_number ∷ error_code ∷ stack

abbrev pub drop_two : Stack → Stack
drop_two (a ∷ b ∷ stack) = stack
drop_two _ = []

-- _isr_handler_asm, where isr_handler returns the stack pointer that it was given: the registers and
-- the stack with which `iretq` runs.
unfoldable pub isr_handler_asm : Registers → Stack → Registers × Stack
isr_handler_asm regs stack =
    let (regs', stack') = popa64 regs (pusha64 regs stack) in (regs', drop_two stack')

-- `cpu_interrupt_state_t`, in the order of its fields
pub record CpuInterruptState : Type 0 where
  pub saved : Registers
  pub isr_number : ℕ
  pub error_code : ℕ
  pub rip : ℕ
  pub cs : ℕ
  pub rflags : ℕ
  pub rsp : ℕ
  pub ss : ℕ

abbrev pub field_order : List Register
field_order =
    r15 ∷ r14 ∷ r13 ∷ r12 ∷ r11 ∷ r10 ∷ r9 ∷ r8 ∷ rbp ∷ rdi ∷ rsi ∷ rdx ∷ rcx ∷ rbx ∷ rax ∷ []

unfoldable pub read_state : Stack → CpuInterruptState
read_state stack = record {
  saved = (pop_all field_order (λ _. 0) stack).0;
  isr_number = get_or stack 15 0;
  error_code = get_or stack 16 0;
  rip = get_or stack 17 0;
  cs = get_or stack 18 0;
  rflags = get_or stack 19 0;
  rsp = get_or stack 20 0;
  ss = get_or stack 21 0;
}

-- rbp and rsi exchanged
abbrev pub exchanged : Register → Register
exchanged rbp = rsi
exchanged rsi = rbp
exchanged r = r

-- The register at the mirrored place of the list.
abbrev pub mirrored : Register → Register
mirrored rax = r15
mirrored rbx = r14
mirrored rcx = r13
mirrored rdx = r12
mirrored rbp = r11
mirrored rdi = r10
mirrored rsi = r9
mirrored r8 = r8
mirrored r9 = rsi
mirrored r10 = rdi
mirrored r11 = rbp
mirrored r12 = rdx
mirrored r13 = rcx
mirrored r14 = rbx
mirrored r15 = rax

-- The handler reads the number, the error code and the instruction pointer of the interrupt, and
-- every register under its own name but rbp and rsi, which it reads exchanged.
pub read_state-pusha64 :
    (regs : Registers) (n e rip : ℕ) (stack : Stack) (r : Register)
    → let s = read_state (pusha64 regs (with_number n e (rip ∷ stack))) in
      (s.isr_number ≡ n) × (s.error_code ≡ e) × (s.rip ≡ rip) × (s.saved r ≡ regs (exchanged r))
unfolding read_state pusha64 push_all pop_all
read_state-pusha64 regs n e rip stack r = (refl, refl, refl, saved_as r)
  where
    saved_as :
        (r : Register)
        → (read_state (pusha64 regs (with_number n e (rip ∷ stack)))).saved r ≡ regs (exchanged r)
    saved_as rax = refl
    saved_as rbx = refl
    saved_as rcx = refl
    saved_as rdx = refl
    saved_as rbp = refl
    saved_as rdi = refl
    saved_as rsi = refl
    saved_as r8 = refl
    saved_as r9 = refl
    saved_as r10 = refl
    saved_as r11 = refl
    saved_as r12 = refl
    saved_as r13 = refl
    saved_as r14 = refl
    saved_as r15 = refl

-- An interrupt whose handler returns gives the stack of the interrupted code back as it was, but not
-- its registers: each holds what the register at the mirrored place of pusha64 held, so only r8 is
-- restored.
pub isr_handler_asm_lem :
    (regs : Registers) (n e : ℕ) (stack : Stack) (r : Register)
    → let t = isr_handler_asm regs (with_number n e stack) in
      (t.1 ≡ stack) × (t.0 r ≡ regs (mirrored r))
unfolding isr_handler_asm popa64 pusha64 push_all pop_all
isr_handler_asm_lem regs n e stack r = (refl, restored r)
  where
    restored :
        (r : Register) → (isr_handler_asm regs (with_number n e stack)).0 r ≡ regs (mirrored r)
    restored rax = refl
    restored rbx = refl
    restored rcx = refl
    restored rdx = refl
    restored rbp = refl
    restored rdi = refl
    restored rsi = refl
    restored r8 = refl
    restored r9 = refl
    restored r10 = refl
    restored r11 = refl
    restored r12 = refl
    restored r13 = refl
    restored r14 = refl
    restored r15 = refl
