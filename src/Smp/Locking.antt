-- ===== src/Smp/Locking.antt =====
-- Who is inside the lock of smp_init and ap_init in src/kernel/proc/smp/smp.c.
use apopt_os.Base.{ℕ, ◌≡◌, refl, Bool, true, false, arith}
use apopt_os.Slab.Heap.{put}
use apopt_os.Smp.{
  Smp, Place, preparing, filled, in_bsp_init, waiting, passed, panicked, Phase, parked, called,
  entered, described, loaded, adding, counted, running, Step, lock_fill, fill_fails, choose_bsp,
  choose_ap, loop_ends, spin, passes, enter, describe, load, read_bsp, read_ap, write, leave,
  return_bsp,
}
use apopt_os.Smp.Order.{Ordered}

-- inside the lock
abbrev pub critical : Phase → Bool
critical parked = false
critical called = false
critical entered = true
critical described = true
critical loaded = true
critical adding = true
critical counted = true
critical running = false

-- The processor that boots holds the lock itself.
abbrev pub holds : Place → Bool
holds preparing = false
holds filled = true
holds in_bsp_init = false
holds waiting = false
holds passed = false
holds panicked = true

pub record IsLocked (lock : Bool) (place : Place) (i : ℕ) (phase : ℕ → Phase) : Type 0 where
  pub free : (j : ℕ) → lock ≡ false → critical (phase j) ≡ false
  pub one : (j k : ℕ) → critical (phase j) ≡ true → critical (phase k) ≡ true → j ≡ k
  pub alone : (j : ℕ) → holds place ≡ true → critical (phase j) ≡ false
  pub taken : holds place ≡ true → lock ≡ true
  pub booting : place ≡ in_bsp_init → critical (phase i) ≡ true

abbrev pub Locked : Smp → Type 0
Locked m = IsLocked m.lock m.place m.i m.phase

-- A processor goes on inside the lock.
moved_inside :
    {lock : Bool} {place : Place} {i : ℕ} {phase : ℕ → Phase} (j : ℕ) (q : Phase)
    → critical (phase j) ≡ true
    → critical q ≡ true
    → IsLocked lock place i phase
    → IsLocked lock place i (put phase j q)
moved_inside j q e e' s = record {
  free = λ k h. ground (arith, s.free j h);
  one = λ k l hk hl. ground (arith, s.one j k, s.one j l, s.one k l);
  alone = λ k h. ground (arith, s.alone j h);
  taken = s.taken;
  booting = λ h. ground (arith, s.booting h);
}

module _ (cpu_count bsp_lapic_id locals root : ℕ) where
  pub Step-Locked :
      {m n : Smp}
      → Step cpu_count bsp_lapic_id locals root m n
      → Ordered cpu_count m
      → Locked m
      → Locked n
  Step-Locked (lock_fill p more l ok) o s = record {
    free = λ j h. absurd (ground (arith, h));
    one = s.one;
    alone = λ j h. s.free j l;
    taken = λ h. refl;
    booting = λ h. absurd (ground (arith, h));
  }
  Step-Locked (fill_fails p more l ok) o s = record {
    free = λ j h. absurd (ground (arith, h));
    one = s.one;
    alone = λ j h. s.free j l;
    taken = λ h. refl;
    booting = λ h. absurd (ground (arith, h));
  }
  Step-Locked {m} (choose_bsp p e) o s =
      let held : holds m.place ≡ true = ground (arith, p) in
      record {
        free = λ j h. absurd (ground (arith, s.taken held));
        one = λ j k hj hk. ground (arith, s.alone j held, s.alone k held);
        alone = λ j h. absurd (ground (arith, h));
        taken = λ h. absurd (ground (arith, h));
        booting = λ h. ground arith;
      }
  Step-Locked {m} (choose_ap p e) o s =
      let held : holds m.place ≡ true = ground (arith, p) in
      record {
        free = λ j h. ground (arith, s.alone j held);
        one = λ j k hj hk. ground (arith, s.alone j held, s.alone k held);
        alone = λ j h. absurd (ground (arith, h));
        taken = λ h. absurd (ground (arith, h));
        booting = λ h. absurd (ground (arith, h));
      }
  Step-Locked (loop_ends p e) o s = record {
    free = s.free;
    one = s.one;
    alone = λ j h. absurd (ground (arith, h));
    taken = λ h. absurd (ground (arith, h));
    booting = λ h. absurd (ground (arith, h));
  }
  Step-Locked (spin p e) o s = s
  Step-Locked (passes p e) o s = record {
    free = s.free;
    one = s.one;
    alone = λ j h. absurd (ground (arith, h));
    taken = λ h. absurd (ground (arith, h));
    booting = λ h. absurd (ground (arith, h));
  }
  Step-Locked {m} (enter i e l) o s = record {
    free = λ j h. absurd (ground (arith, h));
    one = λ j k hj hk. ground (arith, s.free j l, s.free k l);
    alone = λ j h. absurd (ground (arith, s.taken h));
    taken = λ h. refl;
    booting = λ h. ground (arith, s.booting h);
  }
  Step-Locked (describe j e) o s = moved_inside j described (ground (arith, e)) refl s
  Step-Locked (load j e) o s = moved_inside j loaded (ground (arith, e)) refl s
  Step-Locked (read_bsp j e b) o s = moved_inside j adding (ground (arith, e)) refl s
  Step-Locked (read_ap j e b) o s = moved_inside j adding (ground (arith, e)) refl s
  Step-Locked (write j e) o s = moved_inside j counted (ground (arith, e)) refl s
  Step-Locked {m} (leave j e b) o s =
      let inside : critical (m.phase j) ≡ true = ground (arith, e) in
      record {
        free = λ k h. ground (arith, s.one j k);
        one = λ k l hk hl. ground (arith, s.one j k, s.one j l, s.one k l);
        alone = λ k h. absurd (ground (arith, s.alone j h));
        taken = λ h. absurd (ground (arith, s.alone j h));
        booting = λ h. ground (arith, s.booting h, s.one j m.i, o.booting h);
      }
  Step-Locked {m} (return_bsp p e) o s =
      let inside : critical (m.phase m.i) ≡ true = ground (arith, e) in
      record {
        free = λ k h. ground (arith, s.one m.i k);
        one = λ k l hk hl. ground (arith, s.one m.i k, s.one m.i l, s.one k l);
        alone = λ k h. absurd (ground (arith, h));
        taken = λ h. absurd (ground (arith, h));
        booting = λ h. absurd (ground (arith, h));
      }
