-- ===== src/Smp/Progress.antt =====
-- What keeps smp_init of src/kernel/proc/smp/smp.c and its processors from being stuck.
use apopt_os.Base.{ℕ, ◌≡◌, ◌≢◌, ◌<◌, ◌≤◌, ◌⊎◌, refl, Bool, true, false, arith, inl, inr}
use apopt_os.Slab.Heap.{put}
use apopt_os.Smp.{
  SmpInfo, Smp, Place, in_bsp_init, waiting, Phase, parked, called, described, loaded, adding,
  counted, Step, lock_fill, fill_fails, choose_bsp, choose_ap, loop_ends, spin, passes, enter,
  describe, load, read_bsp, read_ap, write, leave, return_bsp,
}
use apopt_os.Smp.Order.{Ordered}
use apopt_os.Smp.Locking.{critical, holds, Locked}

-- What keeps smp_init from being stuck: a lock that is taken has an owner, the processor that boots is
-- inside the lock only while smp_init is in bsp_init, and no entry is left out.
pub record IsLive (cpu_count : ℕ) (lock : Bool) (place : Place) (i : ℕ) (info : ℕ → SmpInfo)
    (phase : ℕ → Phase) : Type 0 where
  pub owner : lock ≡ true → (holds place ≡ true) ⊎ ((j : ℕ) × (critical (phase j) ≡ true))
  pub inside :
      (j : ℕ)
      → critical (phase j) ≡ true
      → (info j).starts ≡ false
      → (place ≡ in_bsp_init) × (i ≡ j)
  pub behind : (j : ℕ) → j < i → phase j ≢ parked
  pub called_ap : (j : ℕ) → phase j ≡ called → (info j).starts ≡ true
  pub ended : place ≡ waiting → cpu_count ≤ i

abbrev pub Live : ℕ → Smp → Type 0
Live cpu_count m = IsLive cpu_count m.lock m.place m.i m.info m.phase

-- A step of a processor inside the lock.
on_inside :
    {cpu_count : ℕ} {lock : Bool} {place : Place} {i : ℕ} {info : ℕ → SmpInfo} {phase : ℕ → Phase}
    (j : ℕ) (q : Phase)
    → critical (phase j) ≡ true
    → critical q ≡ true
    → IsLive cpu_count lock place i info phase
    → IsLive cpu_count lock place i info (put phase j q)
on_inside j q e e' s = record {
  owner = λ h. inr (j, ground arith);
  inside = λ k h f. ground (arith, s.inside k, s.inside j);
  behind = λ k h. ground (arith, s.behind k);
  called_ap = λ k h. ground (arith, s.called_ap k);
  ended = s.ended;
}

module _ (cpu_count bsp_lapic_id locals root : ℕ) where
  pub Step-Live :
      {m n : Smp}
      → Step cpu_count bsp_lapic_id locals root m n
      → Ordered cpu_count m
      → Locked m
      → Live cpu_count m
      → Live cpu_count n
  Step-Live {m} (lock_fill p more l ok) o k s = record {
    owner = λ h. inl refl;
    inside = λ j h f. absurd (ground (arith, k.free j l));
    behind = s.behind;
    called_ap = λ j h. ground (arith, s.called_ap j);
    ended = λ h. absurd (ground (arith, h));
  }
  Step-Live {m} (fill_fails p more l ok) o k s = record {
    owner = λ h. inl refl;
    inside = λ j h f. absurd (ground (arith, k.free j l));
    behind = s.behind;
    called_ap = s.called_ap;
    ended = λ h. absurd (ground (arith, h));
  }
  Step-Live {m} (choose_bsp p e) o k s =
      let held : holds m.place ≡ true = ground (arith, p) in
      record {
        owner = λ h. inr (m.i, ground arith);
        inside = λ j h f. ground (arith, k.alone j held);
        behind = λ j h. ground (arith, s.behind j);
        called_ap = λ j h. ground (arith, s.called_ap j);
        ended = λ h. absurd (ground (arith, h));
      }
  Step-Live {m} (choose_ap p e) o k s =
      let held : holds m.place ≡ true = ground (arith, p) in
      record {
        owner = λ h. absurd (ground (arith, h));
        inside = λ j h f. absurd (ground (arith, k.alone j held));
        behind = λ j h. ground (arith, s.behind j);
        called_ap = λ j h. ground (arith, s.called_ap j);
        ended = λ h. absurd (ground (arith, h));
      }
  Step-Live {m} (loop_ends p e) o k s = record {
    owner = λ h. ground (arith, s.owner h);
    inside = λ j h f. absurd (ground (arith, s.inside j h f));
    behind = s.behind;
    called_ap = s.called_ap;
    ended = λ h. ground (arith, e);
  }
  Step-Live {m} (spin p e) o k s = s
  Step-Live {m} (passes p e) o k s = record {
    owner = λ h. ground (arith, s.owner h);
    inside = λ j h f. absurd (ground (arith, s.inside j h f));
    behind = s.behind;
    called_ap = s.called_ap;
    ended = λ h. absurd (ground (arith, h));
  }
  Step-Live {m} (enter i e l) o k s = record {
    owner = λ h. inr (i, ground arith);
    inside = λ j h f. absurd (ground (arith, k.free j l, s.called_ap i e));
    behind = λ j h. ground (arith, s.behind j);
    called_ap = λ j h. ground (arith, s.called_ap j);
    ended = s.ended;
  }
  Step-Live {m} (leave i e b) o k s = record {
    owner = λ h. absurd (ground (arith, h));
    inside = λ j h f. absurd (ground (arith, k.one i j));
    behind = λ j h. ground (arith, s.behind j);
    called_ap = λ j h. ground (arith, s.called_ap j);
    ended = s.ended;
  }
  Step-Live {m} (return_bsp p e) o k s = record {
    owner = λ h. absurd (ground (arith, h));
    inside = λ j h f. absurd (ground (arith, k.one m.i j));
    behind = λ j h. ground (arith, s.behind j);
    called_ap = λ j h. ground (arith, s.called_ap j);
    ended = λ h. absurd (ground (arith, h));
  }
  Step-Live (describe j e) o k s = on_inside j described (ground (arith, e)) refl s
  Step-Live (load j e) o k s = on_inside j loaded (ground (arith, e)) refl s
  Step-Live (read_bsp j e b) o k s = on_inside j adding (ground (arith, e)) refl s
  Step-Live (read_ap j e b) o k s = on_inside j adding (ground (arith, e)) refl s
  Step-Live (write j e) o k s = on_inside j counted (ground (arith, e)) refl s
