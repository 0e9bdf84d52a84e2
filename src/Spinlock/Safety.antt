-- ===== src/Spinlock/Safety.antt =====
-- Mutual exclusion, and what becomes of the interrupt flags.
use apopt_os.Base.{ℕ, ◌≡◌, ◌≢◌, true, false, arith, refl, Bool-cases, inl, inr}
use apopt_os.Spinlock.{
  Phase, outside, taken, stored, inside, leaving, Machine, Step, other_code, spin, test_and_set,
  store_flag, disable, restore, clear, Reach, here, later,
}

pub record IsSafe (m : Machine) : Type 0 where
  pub free : (i : ℕ) → m.lock ≡ false → m.phase i ≡ outside
  pub one : (i j : ℕ) → m.phase i ≢ outside → m.phase j ≢ outside → i ≡ j
  pub kept : (i : ℕ) → m.phase i ≡ taken → m.flag i ≡ m.came i
  pub saved : (i : ℕ) → m.phase i ≡ stored → m.interrupts ≡ m.came i
  pub held : (i : ℕ) → m.phase i ≡ inside → m.interrupts ≡ m.came i
  pub off : (i : ℕ) → m.phase i ≡ inside → m.flag i ≡ false
  pub back : (i : ℕ) → m.phase i ≡ leaving → m.flag i ≡ m.came i
  pub owner : m.lock ≡ true → (i : ℕ) × (m.phase i ≢ outside)

Step-IsSafe : {m n : Machine} → Step m n → IsSafe m → IsSafe n
Step-IsSafe (other_code i b e) s = record {
  free = s.free;
  one = s.one;
  kept = λ j h. ground (arith, s.kept j);
  saved = s.saved;
  held = s.held;
  off = λ j h. ground (arith, s.off j);
  back = λ j h. ground (arith, s.back j);
  owner = s.owner;
}
Step-IsSafe (spin i e l) s = s
Step-IsSafe (test_and_set i e l) s = record {
  free = λ j h. absurd (ground (arith, h));
  one = λ j k hj hk. ground (arith, s.free j, s.free k);
  kept = λ j h. ground (arith, s.kept j);
  saved = λ j h. ground (arith, s.saved j);
  held = λ j h. ground (arith, s.held j);
  off = λ j h. ground (arith, s.off j);
  back = λ j h. ground (arith, s.back j);
  owner = λ h. (i, ground arith);
}
Step-IsSafe (store_flag i e) s = record {
  free = λ j h. ground (arith, s.free i);
  one = λ j k hj hk. ground (arith, s.one i j, s.one i k, s.one j k);
  kept = λ j h. ground (arith, s.one i j);
  saved = λ j h. ground (arith, s.one i j, s.kept i);
  held = λ j h. ground (arith, s.one i j);
  off = λ j h. ground (arith, s.off j);
  back = λ j h. ground (arith, s.back j);
  owner = λ h. (i, ground arith);
}
Step-IsSafe (disable i e) s = record {
  free = λ j h. ground (arith, s.free i);
  one = λ j k hj hk. ground (arith, s.one i j, s.one i k, s.one j k);
  kept = λ j h. ground (arith, s.kept j, s.one i j);
  saved = λ j h. ground (arith, s.saved j);
  held = λ j h. ground (arith, s.held j, s.saved i);
  off = λ j h. ground (arith, s.off j);
  back = λ j h. ground (arith, s.one i j);
  owner = λ h. (i, ground arith);
}
Step-IsSafe (restore i e) s = record {
  free = λ j h. ground (arith, s.free i);
  one = λ j k hj hk. ground (arith, s.one i j, s.one i k, s.one j k);
  kept = λ j h. ground (arith, s.one i j);
  saved = λ j h. ground (arith, s.saved j);
  held = λ j h. ground (arith, s.held j);
  off = λ j h. ground (arith, s.one i j);
  back = λ j h. ground (arith, s.back j, s.held i, s.one i j);
  owner = λ h. (i, ground arith);
}
Step-IsSafe (clear i e) s = record {
  free = λ j h. ground (arith, s.one i j);
  one = λ j k hj hk. ground (arith, s.one i j, s.one i k, s.one j k);
  kept = λ j h. ground (arith, s.kept j);
  saved = λ j h. ground (arith, s.saved j);
  held = λ j h. ground (arith, s.held j);
  off = λ j h. ground (arith, s.off j);
  back = λ j h. ground (arith, s.back j);
  owner = λ h. absurd (ground (arith, h));
}

-- All processors are outside and the lock is free.
pub record IsStart (m : Machine) : Type 0 where
  pub unlocked : m.lock ≡ false
  pub all_outside : (i : ℕ) → m.phase i ≡ outside

start-IsSafe : {m : Machine} → IsStart m → IsSafe m
start-IsSafe s = record {
  free = λ i h. s.all_outside i;
  one = λ i j hi hj. absurd (hi (s.all_outside i));
  kept = λ i h. ground (arith, s.all_outside i);
  saved = λ i h. ground (arith, s.all_outside i);
  held = λ i h. ground (arith, s.all_outside i);
  off = λ i h. ground (arith, s.all_outside i);
  back = λ i h. ground (arith, s.all_outside i);
  owner = λ h. absurd (ground (arith, s.unlocked));
}

Reach-IsSafe : {start m : Machine} → IsStart start → Reach start m → IsSafe m
Reach-IsSafe s here = start-IsSafe s
Reach-IsSafe s (later r step) = Step-IsSafe step (Reach-IsSafe s r)

-- In every state that any number of processors reach from the start, at most one is between the
-- return of spinlock_acquire and the call of spinlock_release, and its interrupts are off.
pub mutual_exclusion :
    {start m : Machine}
    → IsStart start
    → Reach start m
    → (i j : ℕ) → m.phase i ≡ inside
    → m.phase j ≡ inside
    → (i ≡ j) × (m.flag i ≡ false)
mutual_exclusion s r i j hi hj =
    let safe = Reach-IsSafe s r in
    (safe.one i j (ground (arith, hi)) (ground (arith, hj)), safe.off i hi)

-- When a processor is about to free the lock, its interrupt flag is the one with which it came.
pub flag_restored :
    {start m : Machine}
    → IsStart start
    → Reach start m
    → (i : ℕ) → m.phase i ≡ leaving
    → m.flag i ≡ m.came i
flag_restored s r i h = (Reach-IsSafe s r).back i h

Reach-join : {m n o : Machine} → Reach m n → Reach n o → Reach m o
Reach-join r here = r
Reach-join r (later q step) = later (Reach-join r q) step

-- The lock can be freed from here.
abbrev pub CanFree : Machine → Type 0
CanFree m = (n : Machine) × Reach m n × (n.lock ≡ false)

then_free : {m n : Machine} → Step m n → CanFree n → CanFree m
then_free step (o, r, e) = (o, Reach-join (later here step) r, e)

module _ (i : ℕ) where
  from_leaving : (m : Machine) → m.phase i ≡ leaving → CanFree m
  from_leaving m e = (_, later here (clear i e), refl)

  from_inside : (m : Machine) → m.phase i ≡ inside → CanFree m
  from_inside m e = then_free (restore i e) (from_leaving _ (ground arith))

  from_stored : (m : Machine) → m.phase i ≡ stored → CanFree m
  from_stored m e = then_free (disable i e) (from_inside _ (ground arith))

  from_taken : (m : Machine) → m.phase i ≡ taken → CanFree m
  from_taken m e = then_free (store_flag i e) (from_stored _ (ground arith))

  from_phase : (m : Machine) (p : Phase) → m.phase i ≡ p → p ≢ outside → CanFree m
  from_phase m outside e ne = absurd (ne refl)
  from_phase m taken e ne = from_taken m e
  from_phase m stored e ne = from_stored m e
  from_phase m inside e ne = from_inside m e
  from_phase m leaving e ne = from_leaving m e

-- No deadlock between processors: from every state that they reach, some steps lead to a state in
-- which the lock is free.
pub can_free : {start m : Machine} → IsStart start → Reach start m → CanFree m
can_free {start} {m} s r = elim (Bool-cases m.lock) [
  | inl locked ↦ let (i, ne) = (Reach-IsSafe s r).owner locked in from_phase i m (m.phase i) refl ne
  | inr free ↦ (m, here, free)
]
