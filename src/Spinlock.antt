-- ===== src/Spinlock.antt =====
-- src/kernel/libk/lock/spinlock.h: processors that take one spinlock, in any order of their steps.
pub mod Safety
pub mod Tests
use apopt_os.Base.{ℕ, ◌≡◌, ◌==◌, Bool, true, false, if◌then◌else◌}
use apopt_os.Slab.Heap.{put}

-- Where a processor stands: before spinlock_acquire; behind its loop; behind the store of the
-- interrupt flag; behind `cli`, where it returns; and behind the `if` of spinlock_release.
pub data Phase : Type 0 where
  outside taken stored inside leaving : Phase

-- `spinlock_t`, where each processor stands, its interrupt flag, and the flag with which it last came
-- to the lock, which no instruction reads.
pub record Machine : Type 0 where
  pub lock : Bool
  pub interrupts : Bool
  pub phase : ℕ → Phase
  pub flag : ℕ → Bool
  pub came : ℕ → Bool

abbrev pub move : Machine → ℕ → Phase → Machine
move m i p = record m { phase = put m.phase i p }

-- The steps of processor `i`. `spin` is a round of the loop that finds the lock set; a processor that
-- is outside may change its interrupt flag.
pub data Step (m : Machine) : Machine → Type 0 where
  other_code :
      (i : ℕ) (b : Bool) → m.phase i ≡ outside → Step m (record m { flag = put m.flag i b })
  spin : (i : ℕ) → m.phase i ≡ outside → m.lock ≡ true → Step m m
  test_and_set :
      (i : ℕ)
      → m.phase i ≡ outside
      → m.lock ≡ false
      → Step m (record (move m i taken) { lock = true; came = put m.came i (m.flag i) })
  store_flag :
      (i : ℕ) → m.phase i ≡ taken → Step m (record (move m i stored) { interrupts = m.flag i })
  disable :
      (i : ℕ) → m.phase i ≡ stored → Step m (record (move m i inside) { flag = put m.flag i false })
  restore :
      (i : ℕ)
      → m.phase i ≡ inside
      → Step m
          (record (move m i leaving) { flag = put m.flag i (if m.interrupts then true else false) })
  clear : (i : ℕ) → m.phase i ≡ leaving → Step m (record (move m i outside) { lock = false })

pub data Reach (start : Machine) : Machine → Type 0 where
  here : Reach start start
  later : {m n : Machine} → Reach start m → Step m n → Reach start n
