-- ===== src/Smp/Entry.antt =====
-- What one processor has stored and done, by its place in ap_init or bsp_init, and how an entry goes
-- from one place to the next.
use apopt_os.Base.{
  subst, ℕ, ◌^◌, ◌≡◌, ◌≢◌, ◌<◌, refl, ◌∙◌, Bool, true, false, List, [], ◌∷◌, ◌==◌, arith,
  Bool-cases, inl, inr,
}
use apopt_os.Tables.Gdt.{GdtState, tss_create_segment, base_of}
use apopt_os.Smp.{
  SmpInfo, CpuLocal, Setup, enable_pat, gdt_load, idt_load, enable_sse, lapic_enable,
  load_page_table, tss_load, tss_address, Smp, filled, Phase, parked, called, entered, described,
  loaded, adding, counted, running,
}

-- behind the stores of generic_cpu_local_init
abbrev pub known : Phase → Bool
known parked = false
known called = false
known entered = false
known described = true
known loaded = true
known adding = true
known counted = true
known running = true

abbrev pub tables_loaded : Bool → ℕ → List Setup
tables_loaded true root = idt_load ∷ gdt_load ∷ load_page_table root ∷ enable_pat ∷ []
tables_loaded false root = []

abbrev pub local_loaded : Bool → ℕ → ℕ → List Setup
local_loaded b root tss = enable_sse ∷ tss_load tss ∷ tables_loaded b root

-- All of a processor's setup, the last first: one that is started loads the tables and enables its
-- LAPIC; the one that boots does neither.
abbrev pub complete : Bool → ℕ → ℕ → List Setup
complete true root tss = lapic_enable ∷ local_loaded true root tss
complete false root tss = local_loaded false root tss

abbrev pub expected : Bool → ℕ → ℕ → Phase → List Setup
expected b root tss parked = []
expected b root tss called = []
expected b root tss entered = tables_loaded b root
expected b root tss described = tables_loaded b root
expected b root tss loaded = local_loaded b root tss
expected b root tss adding = complete b root tss
expected b root tss counted = complete b root tss
expected b root tss running = complete b root tss

-- `cpu_locals[j]` as it has to be
abbrev pub own_local : ℕ → SmpInfo → CpuLocal
own_local j entry = record { cpu_number = j; lapic_id = entry.lapic_id; rsp0 = entry.target_stack }

-- The entry of processor `j`, its phase, its part of cpu_locals and its setup.
pub record IsEntry (bsp_lapic_id locals root j : ℕ) (p : Phase) (entry : SmpInfo) (own : CpuLocal)
    (setup : List Setup) : Type 0 where
  pub numbered : p ≢ parked → entry.extra_argument ≡ j
  pub start : p ≡ called → entry.starts ≡ true
  pub bsp : p ≢ parked → entry.starts ≡ false → entry.lapic_id ≡ bsp_lapic_id
  pub ap : p ≢ parked → entry.starts ≡ true → entry.lapic_id ≢ bsp_lapic_id
  pub stored : known p ≡ true → own ≡ own_local j entry
  pub setups : setup ≡ expected entry.starts root (tss_address locals j) p

pub record IsSetUp (bsp_lapic_id locals root : ℕ) (m : Smp) : Type 0 where
  pub filled_in : m.place ≡ filled → (m.info m.i).extra_argument ≡ m.i
  pub segment :
      (j : ℕ) → m.phase j ≡ described → base_of m.gdt.tss_descriptor ≡ tss_address locals j
  pub entry :
      (j : ℕ)
      → IsEntry bsp_lapic_id locals root j (m.phase j) (m.info j) (m.cpu_locals j) (m.setup j)

pub base_of-tss_create_segment :
    (g : GdtState) (a : ℕ) → a < 2 ^ 64 → base_of (tss_create_segment g a).tss_descriptor ≡ a
unfolding tss_create_segment
base_of-tss_create_segment g a small = omega arith

-- One entry changes.
pub split_entry :
    (Q : ℕ → Bool → Type 0) (i : ℕ) → Q i true → ((j : ℕ) → Q j false) → (j : ℕ) → Q j (i == j)
split_entry Q i new old j = elim (Bool-cases (i == j)) [
  | inl same ↦ let eq : i ≡ j = ground arith in rw same (subst (λ k. Q k true) eq new)
  | inr other ↦ rw other (old j)
]

-- The setup grows with the phase.
module _ (bsp_lapic_id locals root j : ℕ) (entry : SmpInfo) (own : CpuLocal)
    (setup : List Setup) where
  -- The stores of the local data and of the setup agree with those of the phase before.
  pub goes_on :
      (p q : Phase)
      → p ≢ parked
      → q ≢ called
      → known p ≡ known q
      → expected entry.starts root (tss_address locals j) p
        ≡ expected entry.starts root (tss_address locals j) q
      → IsEntry bsp_lapic_id locals root j p entry own setup
      → IsEntry bsp_lapic_id locals root j q entry own setup
  goes_on p q ne nc k x s = record {
    numbered = λ h. s.numbered ne;
    start = λ h. absurd (nc h);
    bsp = λ h. s.bsp ne;
    ap = λ h. s.ap ne;
    stored = λ h. s.stored (k ∙ h);
    setups = s.setups ∙ x;
  }

  pub enters :
      entry.starts ≡ true
      → IsEntry bsp_lapic_id locals root j called entry own setup
      → IsEntry bsp_lapic_id locals root j entered entry own
          (idt_load ∷ gdt_load ∷ load_page_table root ∷ enable_pat ∷ setup)
  enters st s = record {
    numbered = λ h. s.numbered (ground arith);
    start = λ h. absurd (ground (arith, h));
    bsp = λ h. s.bsp (ground arith);
    ap = λ h. s.ap (ground arith);
    stored = λ h. absurd (ground (arith, h));
    setups = rw (s.setups, st) refl;
  }

  pub describes :
      IsEntry bsp_lapic_id locals root j entered entry own setup
      → IsEntry bsp_lapic_id locals root j described entry (own_local j entry) setup
  describes s = record {
    numbered = λ h. s.numbered (ground arith);
    start = λ h. absurd (ground (arith, h));
    bsp = λ h. s.bsp (ground arith);
    ap = λ h. s.ap (ground arith);
    stored = λ h. refl;
    setups = s.setups;
  }

  pub loads :
      (base : ℕ)
      → base ≡ tss_address locals j
      → IsEntry bsp_lapic_id locals root j described entry own setup
      → IsEntry bsp_lapic_id locals root j loaded entry own (enable_sse ∷ tss_load base ∷ setup)
  loads base e s = record {
    numbered = λ h. s.numbered (ground arith);
    start = λ h. absurd (ground (arith, h));
    bsp = λ h. s.bsp (ground arith);
    ap = λ h. s.ap (ground arith);
    stored = λ h. s.stored refl;
    setups = rw (e, s.setups) refl;
  }

  pub enables :
      entry.starts ≡ true
      → IsEntry bsp_lapic_id locals root j loaded entry own setup
      → IsEntry bsp_lapic_id locals root j adding entry own (lapic_enable ∷ setup)
  enables st s = record {
    numbered = λ h. s.numbered (ground arith);
    start = λ h. absurd (ground (arith, h));
    bsp = λ h. s.bsp (ground arith);
    ap = λ h. s.ap (ground arith);
    stored = λ h. s.stored refl;
    setups = rw (s.setups, st) refl;
  }
