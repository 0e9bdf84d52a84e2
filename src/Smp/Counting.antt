-- ===== src/Smp/Counting.antt =====
-- The counter cpus_online of src/kernel/proc/smp/smp.c, whose increment is a read and a write, and the
-- number of processors that have counted themselves.
use apopt_os.Base.{
  ℕ, zero, suc, ◌+◌, ◌^◌, ◌≡◌, ◌≢◌, ◌<◌, ◌≤◌, refl, false, ◌==◌, arith, Bool-cases, inl, inr,
}
use apopt_os.Slab.Heap.{put}
use apopt_os.Smp.{
  Smp, Phase, parked, called, entered, described, loaded, adding, counted, running, Step, lock_fill,
  fill_fails, choose_bsp, choose_ap, loop_ends, spin, passes, enter, describe, load, read_bsp,
  read_ap, write, leave, return_bsp,
}
use apopt_os.Smp.Order.{Ordered}
use apopt_os.Smp.Locking.{Locked}

-- 1 for a processor that has counted itself
abbrev pub online : Phase → ℕ
online parked = 0
online called = 0
online entered = 0
online described = 0
online loaded = 0
online adding = 0
online counted = 1
online running = 1

unfoldable pub sum_over : (Phase → ℕ) → (ℕ → Phase) → ℕ → ℕ
sum_over f phase zero = 0
sum_over f phase (suc n) = f (phase n) + sum_over f phase n

abbrev pub online_count : (ℕ → Phase) → ℕ → ℕ
online_count phase n = sum_over online phase n

pub online-le : (p : Phase) → online p ≤ 1
online-le parked = omega arith
online-le called = omega arith
online-le entered = omega arith
online-le described = omega arith
online-le loaded = omega arith
online-le adding = omega arith
online-le counted = omega arith
online-le running = omega arith

pub online_count-le : (phase : ℕ → Phase) (n : ℕ) → online_count phase n ≤ n
unfolding sum_over
online_count-le phase zero = omega arith
online_count-le phase (suc n) = omega (arith, online_count-le phase n, online-le (phase n))

-- A processor that is not counted yet is missing in the count.
pub online_count-lt :
    (phase : ℕ → Phase) (n j : ℕ) → j < n → online (phase j) ≡ 0 → online_count phase n < n
unfolding sum_over
online_count-lt phase zero j h e = absurd (omega arith)
online_count-lt phase (suc n) j h e = elim (Bool-cases (j == n)) [
  | inl same ↦
      let eq : j ≡ n = ground arith in
      let off : online (phase n) ≡ 0 = rw eq at e in omega (arith, off, online_count-le phase n)
  | inr other ↦ omega (arith, online_count-lt phase n j (ground arith) e, online-le (phase n))
]

sum_over-outside :
    (f : Phase → ℕ) (phase : ℕ → Phase) (n j : ℕ) (q : Phase)
    → n ≤ j
    → sum_over f (put phase j q) n ≡ sum_over f phase n
unfolding sum_over
sum_over-outside f phase zero j q h = refl
sum_over-outside f phase (suc n) j q h =
    let other : (j == n) ≡ false = ground arith in
    rw (other, sum_over-outside f phase n j q (omega arith)) refl

-- The sum changes by what one processor changes.
pub sum_over-put :
    (f : Phase → ℕ) (phase : ℕ → Phase) (n j : ℕ) (q : Phase)
    → j < n
    → sum_over f (put phase j q) n + f (phase j) ≡ sum_over f phase n + f q
unfolding sum_over
sum_over-put f phase zero j q h = absurd (omega arith)
sum_over-put f phase (suc n) j q h = elim (Bool-cases (j == n)) [
  | inl same ↦
      let eq : j ≡ n = ground arith in
      let rest : sum_over f (put phase j q) n ≡ sum_over f phase n =
        sum_over-outside f phase n j q (omega arith) in
      rw (same, rest, eq) (omega arith)
  | inr other ↦ rw other (omega (arith, sum_over-put f phase n j q (ground arith)))
]

pub record IsCounted (cpu_count cpus_online : ℕ) (register : ℕ → ℕ) (phase : ℕ → Phase)
    : Type 0 where
  pub count : cpus_online ≡ online_count phase cpu_count
  pub latest : (j : ℕ) → phase j ≡ adding → register j ≡ cpus_online

abbrev pub Counted : ℕ → Smp → Type 0
Counted cpu_count m = IsCounted cpu_count m.cpus_online m.register m.phase

-- A processor goes on without counting.
moved_uncounted :
    {cpu_count cpus_online : ℕ} {register : ℕ → ℕ} {phase : ℕ → Phase} (j : ℕ) (q : Phase)
    → j < cpu_count
    → online (phase j) ≡ online q
    → q ≢ adding
    → IsCounted cpu_count cpus_online register phase
    → IsCounted cpu_count cpus_online register (put phase j q)
moved_uncounted {cpu_count} {phase = phase} j q h e ne s = record {
  count = omega (arith, s.count, sum_over-put online phase cpu_count j q h, e);
  latest = λ k a. ground (arith, s.latest k);
}

-- A processor reads the counter.
moved_read :
    {cpu_count cpus_online : ℕ} {register : ℕ → ℕ} {phase : ℕ → Phase} (j : ℕ)
    → j < cpu_count
    → phase j ≡ loaded
    → IsCounted cpu_count cpus_online register phase
    → IsCounted cpu_count cpus_online (put register j cpus_online) (put phase j adding)
moved_read {cpu_count} {phase = phase} j h e s =
    let off : online (phase j) ≡ 0 = rw e refl in
    record {
      count = omega (arith, s.count, sum_over-put online phase cpu_count j adding h, off);
      latest = λ k a. ground (arith, s.latest k);
    }

module _ (cpu_count bsp_lapic_id locals root : ℕ) (small : cpu_count < 2 ^ 32) where
  pub Step-Counted :
      {m n : Smp}
      → Step cpu_count bsp_lapic_id locals root m n
      → Ordered cpu_count m
      → Locked m
      → Counted cpu_count m
      → Counted cpu_count n
  Step-Counted (lock_fill p more l ok) o k s = s
  Step-Counted (fill_fails p more l ok) o k s = s
  Step-Counted {m} (choose_bsp p e) o k s =
      let off : online (m.phase m.i) ≡ 0 = ground (arith, o.ahead m.i) in
      moved_uncounted m.i entered (o.current p) off (ground arith) s
  Step-Counted {m} (choose_ap p e) o k s =
      let off : online (m.phase m.i) ≡ 0 = ground (arith, o.ahead m.i) in
      moved_uncounted m.i called (o.current p) off (ground arith) s
  Step-Counted (loop_ends p e) o k s = s
  Step-Counted (spin p e) o k s = s
  Step-Counted (passes p e) o k s = s
  Step-Counted (enter j e l) o k s =
      moved_uncounted j entered (o.bounded j (ground (arith, e))) (ground (arith, e)) (ground arith)
        s
  Step-Counted (describe j e) o k s =
      moved_uncounted j described (o.bounded j (ground (arith, e))) (ground (arith, e))
        (ground arith) s
  Step-Counted (load j e) o k s =
      moved_uncounted j loaded (o.bounded j (ground (arith, e))) (ground (arith, e)) (ground arith)
        s
  Step-Counted (read_bsp j e b) o k s = moved_read j (o.bounded j (ground (arith, e))) e s
  Step-Counted (read_ap j e b) o k s = moved_read j (o.bounded j (ground (arith, e))) e s
  Step-Counted {m} (write j e) o k s =
      let h = o.bounded j (ground (arith, e)) in
      let off : online (m.phase j) ≡ 0 = rw e refl in
      record {
        count = omega (
          arith,
          s.count,
          s.latest j e,
          small,
          online_count-lt m.phase cpu_count j h off,
          sum_over-put online m.phase cpu_count j counted h,
          off,
        );
        latest = λ l a. absurd (ground (arith, k.one j l));
      }
  Step-Counted (leave j e b) o k s =
      moved_uncounted j running (o.bounded j (ground (arith, e))) (ground (arith, e)) (ground arith)
        s
  Step-Counted {m} (return_bsp p e) o k s =
      moved_uncounted m.i running (o.bounded m.i (ground (arith, e))) (ground (arith, e))
        (ground arith) s

pub online_count-zero :
    (phase : ℕ → Phase) (n : ℕ) → ((j : ℕ) → phase j ≡ parked) → online_count phase n ≡ 0
unfolding sum_over
online_count-zero phase zero all = refl
online_count-zero phase (suc n) all = rw (all n) (omega (arith, online_count-zero phase n all))
