-- ===== src/Tables/Isr.antt =====
-- isr_handler of src/kernel/tables/isr.c, without what it prints.
use apopt_os.Base.{
  ℕ, ◌+◌, ◌≡◌, refl, Bool, true, ◌&&◌, ◌||◌, List, [], ◌∷◌, Option, none, some, leb, ltb, ◌==◌,
  if◌then◌else◌, arith, Bool-cases, inl, inr,
}

abbrev pub syscall_int : ℕ
syscall_int = 128

abbrev pub spurious_int : ℕ
spurious_int = 255

-- How the handler ends: it returns the stack pointer, with the number of ends of interrupt that have
-- been signalled, or it halts the processor.
pub data IsrResult : Type 0 where
  resumes : ℕ → ℕ → IsrResult
  halts : IsrResult

unfoldable pub isr_handler : ℕ → ℕ → ℕ → IsrResult
isr_handler eois rsp isr_number =
    if ltb isr_number 32
    then halts
    else if leb 32 isr_number && ltb isr_number 48
    then resumes rsp (eois + 1)
    else if isr_number == syscall_int
    then resumes rsp eois
    else if isr_number == spurious_int
    then halts
    else halts

abbrev pub then_next : IsrResult → (ℕ → ℕ → Option ℕ) → Option ℕ
then_next (resumes rsp eois) next = next eois rsp
then_next halts next = none

-- The interrupts of a processor, one after the other: the ends signalled when all have returned.
unfoldable pub handle_all : ℕ → ℕ → List ℕ → Option ℕ
handle_all eois rsp [] = some eois
handle_all eois rsp (n ∷ ns) = then_next (isr_handler eois rsp n) (λ e r. handle_all e r ns)

abbrev pub is_hardware : ℕ → Bool
is_hardware n = leb 32 n && ltb n 48

abbrev pub hardware_count : List ℕ → ℕ
hardware_count [] = 0
hardware_count (n ∷ ns) = (if is_hardware n then 1 else 0) + hardware_count ns

abbrev pub all_return : List ℕ → Bool
all_return [] = true
all_return (n ∷ ns) = (is_hardware n || n == syscall_int) && all_return ns

-- The handler on every interrupt number.
isr_handler_lem :
    (eois rsp n : ℕ)
    → isr_handler eois rsp n ≡ (
        if is_hardware n
        then resumes rsp (eois + 1)
        else if n == syscall_int
        then resumes rsp eois
        else halts)
unfolding isr_handler
isr_handler_lem eois rsp n = ground arith

-- A sequence of interrupts runs to its end exactly if each is a hardware interrupt or a system call,
-- and then each hardware interrupt, and nothing else, has had its end signalled once.
pub handle_all_lem :
    (eois rsp : ℕ) (ns : List ℕ)
    → handle_all eois rsp ns ≡ (if all_return ns then some (eois + hardware_count ns) else none)
unfolding handle_all
handle_all_lem eois rsp [] = ground arith
handle_all_lem eois rsp (n ∷ ns) =
    rw (isr_handler_lem eois rsp n) (elim (Bool-cases (is_hardware n)) [
      | inl irq ↦ rw irq (ground (arith, irq, handle_all_lem (eois + 1) rsp ns))
      | inr other ↦ elim (Bool-cases (n == syscall_int)) [
        | inl call ↦ rw (other, call) (ground (arith, handle_all_lem eois rsp ns))
        | inr unknown ↦ rw (other, unknown) refl
      ]
    ])
