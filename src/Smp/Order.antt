-- ===== src/Smp/Order.antt =====
-- Which entries smp_init of src/kernel/proc/smp/smp.c has gone through, and which processors it has started.
use apopt_os.Base.{ℕ, ◌+◌, ◌≡◌, ◌≢◌, ◌<◌, ◌≤◌, false, arith}
use apopt_os.Slab.Heap.{put}
use apopt_os.Smp.{
  Smp, SmpInfo, Place, preparing, filled, in_bsp_init, waiting, passed, panicked, Phase, parked,
  entered, described, loaded, adding, counted, running, Step, lock_fill, fill_fails, choose_bsp,
  choose_ap, loop_ends, spin, passes, enter, describe, load, read_bsp, read_ap, write, leave,
  return_bsp,
}

-- The number of the first entry that is not started.
abbrev pub next_parked : Place → ℕ → ℕ
next_parked preparing i = i
next_parked filled i = i
next_parked in_bsp_init i = i + 1
next_parked waiting i = i
next_parked passed i = i
next_parked panicked i = i

pub record IsOrdered (cpu_count : ℕ) (place : Place) (i : ℕ) (info : ℕ → SmpInfo)
    (phase : ℕ → Phase) : Type 0 where
  pub ahead : (j : ℕ) → next_parked place i ≤ j → phase j ≡ parked
  pub bounded : (j : ℕ) → phase j ≢ parked → j < cpu_count
  pub fresh : (j : ℕ) → phase j ≡ parked → (info j).starts ≡ false
  pub current : place ≡ filled → i < cpu_count
  pub booting : place ≡ in_bsp_init → (info i).starts ≡ false

abbrev pub Ordered : ℕ → Smp → Type 0
Ordered cpu_count m = IsOrdered cpu_count m.place m.i m.info m.phase

-- A processor that is started goes on.
moved :
    {cpu_count : ℕ} {place : Place} {i : ℕ} {info : ℕ → SmpInfo} {phase : ℕ → Phase} (j : ℕ)
    (q : Phase)
    → phase j ≢ parked
    → q ≢ parked
    → IsOrdered cpu_count place i info phase
    → IsOrdered cpu_count place i info (put phase j q)
moved j q ne ne' s = record {
  ahead = λ k h. ground (arith, s.ahead k h);
  bounded = λ k h. ground (arith, s.bounded k, s.bounded j);
  fresh = λ k h. ground (arith, s.fresh k);
  current = s.current;
  booting = s.booting;
}

module _ (cpu_count bsp_lapic_id locals root : ℕ) where
  pub Step-Ordered :
      {m n : Smp}
      → Step cpu_count bsp_lapic_id locals root m n
      → Ordered cpu_count m
      → Ordered cpu_count n
  Step-Ordered {m} (lock_fill p more l ok) s = record {
    ahead = λ j h. s.ahead j (ground (arith, h));
    bounded = s.bounded;
    fresh = λ j h. ground (arith, s.fresh j h);
    current = λ h. ground (arith, more);
    booting = λ h. absurd (ground (arith, h));
  }
  Step-Ordered {m} (fill_fails p more l ok) s = record {
    ahead = λ j h. s.ahead j (ground (arith, h));
    bounded = s.bounded;
    fresh = s.fresh;
    current = λ h. absurd (ground (arith, h));
    booting = λ h. absurd (ground (arith, h));
  }
  Step-Ordered {m} (choose_bsp p e) s = record {
    ahead = λ j h. ground (arith, s.ahead j);
    bounded = λ j h. ground (arith, s.bounded j, s.current p);
    fresh = λ j h. ground (arith, s.fresh j);
    current = λ h. absurd (ground (arith, h));
    booting = λ h. ground (arith, s.fresh m.i, s.ahead m.i);
  }
  Step-Ordered {m} (choose_ap p e) s = record {
    ahead = λ j h. ground (arith, s.ahead j);
    bounded = λ j h. ground (arith, s.bounded j, s.current p);
    fresh = λ j h. ground (arith, s.fresh j);
    current = λ h. absurd (ground (arith, h));
    booting = λ h. absurd (ground (arith, h));
  }
  Step-Ordered {m} (loop_ends p e) s = record {
    ahead = λ j h. s.ahead j (ground (arith, h));
    bounded = s.bounded;
    fresh = s.fresh;
    current = λ h. absurd (ground (arith, h));
    booting = λ h. absurd (ground (arith, h));
  }
  Step-Ordered {m} (spin p e) s = s
  Step-Ordered {m} (passes p e) s = record {
    ahead = λ j h. s.ahead j (ground (arith, h));
    bounded = s.bounded;
    fresh = s.fresh;
    current = λ h. absurd (ground (arith, h));
    booting = λ h. absurd (ground (arith, h));
  }
  Step-Ordered (enter j e l) s = moved j entered (ground (arith, e)) (ground arith) s
  Step-Ordered (describe j e) s = moved j described (ground (arith, e)) (ground arith) s
  Step-Ordered (load j e) s = moved j loaded (ground (arith, e)) (ground arith) s
  Step-Ordered (read_bsp j e b) s = moved j adding (ground (arith, e)) (ground arith) s
  Step-Ordered (read_ap j e b) s = moved j adding (ground (arith, e)) (ground arith) s
  Step-Ordered (write j e) s = moved j counted (ground (arith, e)) (ground arith) s
  Step-Ordered (leave j e b) s = moved j running (ground (arith, e)) (ground arith) s
  Step-Ordered {m} (return_bsp p e) s = record {
    ahead = λ j h. ground (arith, s.ahead j);
    bounded = λ j h. ground (arith, s.bounded j, s.bounded m.i);
    fresh = λ j h. ground (arith, s.fresh j);
    current = λ h. absurd (ground (arith, h));
    booting = λ h. absurd (ground (arith, h));
  }
