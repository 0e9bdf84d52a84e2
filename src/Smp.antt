-- ===== src/Smp.antt =====
-- src/kernel/proc/smp/smp.c: the processor that boots fills in the entries of the bootloader's table
-- and starts the others, which initialise themselves under the lock. The entries of the table, and the
-- processors, are numbered from 0.
pub mod Order
pub mod Locking
pub mod Counting
pub mod Entry
pub mod Startup
pub mod Safety
pub mod Progress
pub mod Onward
pub mod Finish
pub mod Tests
use apopt_os.Base.{
  ℕ, ◌+◌, ◌*◌, ◌≡◌, ◌≢◌, Bool, true, false, List, [], ◌∷◌, ltb, u32, u64, phys_to_higher_half_data,
}
use apopt_os.Str.{Memory}
use apopt_os.Slab.Heap.{put}
use apopt_os.Pmm.{Pmm, pmm_allocz}
use apopt_os.Tables.Gdt.{GdtState, tss_create_segment, base_of}

-- `struct stivale2_smp_info`; `starts` says that goto_address is ap_init.
pub record SmpInfo : Type 0 where
  pub lapic_id : ℕ
  pub target_stack : ℕ
  pub starts : Bool
  pub extra_argument : ℕ

-- `cpu_local_t`, with the first stack pointer of its task state segment
pub record CpuLocal : Type 0 where
  pub cpu_number : ℕ
  pub lapic_id : ℕ
  pub rsp0 : ℕ

-- What a processor does to its own registers.
pub data Setup : Type 0 where
  enable_pat gdt_load idt_load enable_sse lapic_enable : Setup
  load_page_table : ℕ → Setup
  tss_load : ℕ → Setup

-- Where the processor that boots stands in smp_init: before spinlock_acquire, behind the store of the
-- stack, in bsp_init, in the last loop, behind it, or in a kernel panic.
pub data Place : Type 0 where
  preparing filled in_bsp_init waiting passed panicked : Place

-- Where a processor stands in ap_init or bsp_init: not started, before spinlock_acquire, behind it,
-- behind tss_create_segment, behind enable_sse, between the read and the write of `cpus_online++`,
-- behind it, behind spinlock_release.
pub data Phase : Type 0 where
  parked called entered described loaded adding counted running : Phase

-- The lock, the place and the counter of smp_init, what the processors share, and for each one its
-- place, what it did to its registers, the last first, and what it read from the counter.
pub record Smp : Type 0 where
  pub lock : Bool
  pub place : Place
  pub i : ℕ
  pub info : ℕ → SmpInfo
  pub pmm : Pmm
  pub memory : Memory
  pub cpu_locals : ℕ → CpuLocal
  pub gdt : GdtState
  pub cpus_online : ℕ
  pub phase : ℕ → Phase
  pub setup : ℕ → List Setup
  pub register : ℕ → ℕ

abbrev pub cpu_locals_stack_size : ℕ
cpu_locals_stack_size = 8192

-- `sizeof(cpu_local_t)`; its task state segment is at byte 16
abbrev pub sizeof_cpu_local : ℕ
sizeof_cpu_local = 8 + 4 + 4 + 104

-- `&cpu_locals[i].tss`
abbrev pub tss_address : ℕ → ℕ → ℕ
tss_address cpu_locals i = u64 (cpu_locals + i * sizeof_cpu_local + 16)

abbrev pub move : Smp → ℕ → Phase → Smp
move m j p = record m { phase = put m.phase j p }

abbrev pub did : Smp → ℕ → List Setup → Smp
did m j s = record m { setup = put m.setup j s }

-- extra_argument and target_stack of the entry
abbrev pub fill : Smp → Pmm × Memory × ℕ → Smp
fill m (p, memory, stack) = record m {
  lock = true;
  place = filled;
  pmm = p;
  memory = memory;
  info = put m.info m.i (record (m.info m.i) {
    extra_argument = m.i;
    target_stack = phys_to_higher_half_data (stack + cpu_locals_stack_size);
  });
}

-- the stores of generic_cpu_local_init
abbrev pub describe_cpu : ℕ → Smp → ℕ → Smp
describe_cpu locals m j =
    let entry = m.info j in
    record m {
      cpu_locals = put m.cpu_locals entry.extra_argument (record {
        cpu_number = entry.extra_argument;
        lapic_id = entry.lapic_id;
        rsp0 = entry.target_stack;
      });
      gdt = tss_create_segment m.gdt (tss_address locals entry.extra_argument);
    }

-- With the number of processors, the LAPIC of the one that boots, the address of
-- cpu_locals and the root of the page tables. Where a step needs the lock, it waits for it.
module _ (cpu_count bsp_lapic_id locals root : ℕ) where
  pub data Step (m : Smp) : Smp → Type 0 where
    lock_fill :
        m.place ≡ preparing
        → ltb m.i cpu_count ≡ true
        → m.lock ≡ false
        → (pmm_allocz m.pmm m.memory 2).2 ≢ 0
        → Step m (fill m (pmm_allocz m.pmm m.memory 2))
    fill_fails :
        m.place ≡ preparing
        → ltb m.i cpu_count ≡ true
        → m.lock ≡ false
        → (pmm_allocz m.pmm m.memory 2).2 ≡ 0
        → Step m (record m { lock = true; place = panicked })
    choose_bsp :
        m.place ≡ filled
        → (m.info m.i).lapic_id ≡ bsp_lapic_id
        → Step m (record (move m m.i entered) { place = in_bsp_init })
    choose_ap :
        m.place ≡ filled
        → (m.info m.i).lapic_id ≢ bsp_lapic_id
        → Step m (record (move m m.i called) {
          place = preparing;
          i = m.i + 1;
          lock = false;
          info = put m.info m.i (record (m.info m.i) { starts = true });
        })
    loop_ends :
        m.place ≡ preparing → ltb m.i cpu_count ≡ false → Step m (record m { place = waiting })
    spin : m.place ≡ waiting → m.cpus_online ≢ cpu_count → Step m m
    passes : m.place ≡ waiting → m.cpus_online ≡ cpu_count → Step m (record m { place = passed })
    enter :
        (j : ℕ)
        → m.phase j ≡ called
        → m.lock ≡ false
        → Step m
            (record (did
              (move m j entered)
              j
              (idt_load ∷ gdt_load ∷ load_page_table root ∷ enable_pat ∷ m.setup j)) {
                lock = true;
              })
    describe : (j : ℕ) → m.phase j ≡ entered → Step m (describe_cpu locals (move m j described) j)
    load :
        (j : ℕ)
        → m.phase j ≡ described
        → Step m (
            did
              (move m j loaded)
              j
              (enable_sse ∷ tss_load (base_of m.gdt.tss_descriptor) ∷ m.setup j))
    read_bsp :
        (j : ℕ)
        → m.phase j ≡ loaded
        → (m.info j).starts ≡ false
        → Step m (record (move m j adding) { register = put m.register j m.cpus_online })
    read_ap :
        (j : ℕ)
        → m.phase j ≡ loaded
        → (m.info j).starts ≡ true
        → Step m (record (did (move m j adding) j (lapic_enable ∷ m.setup j)) {
          register = put m.register j m.cpus_online;
        })
    write :
        (j : ℕ)
        → m.phase j ≡ adding
        → Step m (record (move m j counted) { cpus_online = u32 (m.register j + 1) })
    leave :
        (j : ℕ)
        → m.phase j ≡ counted
        → (m.info j).starts ≡ true
        → Step m (record (move m j running) { lock = false })
    return_bsp :
        m.place ≡ in_bsp_init
        → m.phase m.i ≡ counted
        → Step m (record (move m m.i running) { place = preparing; i = m.i + 1; lock = false })

  pub data Reach (start : Smp) : Smp → Type 0 where
    here : Reach start start
    later : {m n : Smp} → Reach start m → Step m n → Reach start n
