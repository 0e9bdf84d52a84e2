-- ===== src/Smp/Onward.antt =====
-- The steps that bring smp_init of src/kernel/proc/smp/smp.c nearer to its end.
use apopt_os.Base.{
  ℕ, zero, suc, ◌+◌, ◌-◌, ◌*◌, ◌≡◌, ◌≢◌, ◌<◌, refl, ◌∙◌, ap, true, false, ltb, ◌==◌, arith,
  Bool-cases, inl, inr,
}
use apopt_os.Slab.Heap.{put}
use apopt_os.Pmm.{pmm_allocz}
use apopt_os.Smp.{
  Smp, Place, preparing, filled, in_bsp_init, waiting, passed, panicked, Phase, parked, called,
  entered, described, loaded, adding, counted, running, Step, lock_fill, fill_fails, choose_bsp,
  choose_ap, loop_ends, passes, enter, describe, load, read_bsp, read_ap, write, leave, return_bsp,
}
use apopt_os.Smp.Order.{Ordered}
use apopt_os.Smp.Locking.{critical, holds, Locked}
use apopt_os.Smp.Counting.{online, online-le, sum_over, online_count, sum_over-put, Counted}
use apopt_os.Smp.Progress.{Live}

-- A bound on the steps that are left, without the rounds of the last loop.
abbrev left : Phase → ℕ
left parked = 7
left called = 6
left entered = 5
left described = 4
left loaded = 3
left adding = 2
left counted = 1
left running = 0

abbrev place_left : Place → ℕ → ℕ
place_left preparing n = 2 * n + 2
place_left filled n = 2 * n + 1
place_left in_bsp_init n = 2 * n + 1
place_left waiting n = 1
place_left passed n = 0
place_left panicked n = 0

abbrev pub rank : ℕ → Smp → ℕ
rank cpu_count m = place_left m.place (cpu_count - m.i) + sum_over left m.phase cpu_count

-- A processor that has not counted itself.
not_online :
    (phase : ℕ → Phase) (n : ℕ)
    → online_count phase n ≢ n
    → (j : ℕ) × (j < n) × (online (phase j) ≡ 0)
unfolding sum_over
not_online phase zero ne = absurd (ne refl)
not_online phase (suc n) ne = elim (Bool-cases (online (phase n) == 0)) [
  | inl off ↦ (n, omega arith, ground arith)
  | inr on ↦
      let le = online-le (phase n) in
      let on' : online (phase n) ≢ 0 = ground (arith, on) in
      let (j, h, off) = not_online phase n (λ e. ne (omega (arith, e, le, on'))) in
      (j, omega arith, off)
]

module _ (cpu_count bsp_lapic_id locals root : ℕ) where
  abbrev pub GoesOn : Smp → Type 0
  GoesOn m =
      (n : Smp) × Step cpu_count bsp_lapic_id locals root m n
      × (rank cpu_count n < rank cpu_count m)

  drops :
      (phase : ℕ → Phase) (j : ℕ) (q : Phase)
      → j < cpu_count
      → left q < left (phase j)
      → sum_over left (put phase j q) cpu_count < sum_over left phase cpu_count
  drops phase j q h less = omega (arith, sum_over-put left phase cpu_count j q h)

  -- A processor inside the lock goes on.
  inside-GoesOn :
      (m : Smp) (j : ℕ) (q : Phase)
      → Ordered cpu_count m
      → Live cpu_count m
      → m.phase j ≡ q
      → critical q ≡ true
      → GoesOn m
  inside-GoesOn m j parked o s e c = absurd (ground (arith, c))
  inside-GoesOn m j called o s e c = absurd (ground (arith, c))
  inside-GoesOn m j running o s e c = absurd (ground (arith, c))
  inside-GoesOn m j entered o s e c =
      let d = drops m.phase j described (o.bounded j (ground (arith, e))) (rw e (omega arith)) in
      (_, describe j e, omega (arith, d))
  inside-GoesOn m j described o s e c =
      let d = drops m.phase j loaded (o.bounded j (ground (arith, e))) (rw e (omega arith)) in
      (_, load j e, omega (arith, d))
  inside-GoesOn m j loaded o s e c =
      let d = drops m.phase j adding (o.bounded j (ground (arith, e))) (rw e (omega arith)) in
      elim (Bool-cases (m.info j).starts) [
        | inl b ↦ (_, read_ap j e b, omega (arith, d))
        | inr b ↦ (_, read_bsp j e b, omega (arith, d))
      ]
  inside-GoesOn m j adding o s e c =
      let d = drops m.phase j counted (o.bounded j (ground (arith, e))) (rw e (omega arith)) in
      (_, write j e, omega (arith, d))
  inside-GoesOn m j counted o s e c =
      let h = o.bounded j (ground (arith, e)) in
      elim (Bool-cases (m.info j).starts) [
        | inl b ↦
            let d = drops m.phase j running h (rw e (omega arith)) in
            (_, leave j e b, omega (arith, d))
        | inr b ↦
            let (p, same) = s.inside j (ground (arith, e)) b in
            let here_counted : m.phase m.i ≡ counted = rw same e in
            let h' : m.i < cpu_count = rw same h in
            let d = drops m.phase m.i running h' (rw here_counted (omega arith)) in
            let r : place_left m.place (cpu_count - m.i) ≡ 2 * (cpu_count - m.i) + 1 = rw p refl in
            (_, return_bsp p here_counted, omega (arith, d, h', r))
      ]

  -- A lock that is taken outside smp_init's own part is held by a processor, which goes on.
  lock-GoesOn :
      (m : Smp)
      → Ordered cpu_count m
      → Live cpu_count m
      → m.lock ≡ true
      → holds m.place ≡ false
      → GoesOn m
  lock-GoesOn m o s l p = elim (s.owner l) [
    | inl h ↦ absurd (ground (arith, h))
    | inr (j, c) ↦ inside-GoesOn m j (m.phase j) o s refl c
  ]

  -- A processor that is started and has not counted itself goes on, or the one that holds the lock.
  started-GoesOn :
      (m : Smp) (j : ℕ) (q : Phase)
      → Ordered cpu_count m
      → Live cpu_count m
      → holds m.place ≡ false
      → m.phase j ≡ q
      → q ≢ parked
      → online q ≡ 0
      → GoesOn m
  started-GoesOn m j parked o s p e ne off = absurd (ne refl)
  started-GoesOn m j called o s p e ne off = elim (Bool-cases m.lock) [
    | inl taken ↦ lock-GoesOn m o s taken p
    | inr free ↦
        let d = drops m.phase j entered (o.bounded j (ground (arith, e))) (rw e (omega arith)) in
        (_, enter j e free, omega (arith, d))
  ]
  started-GoesOn m j entered o s p e ne off = inside-GoesOn m j entered o s e refl
  started-GoesOn m j described o s p e ne off = inside-GoesOn m j described o s e refl
  started-GoesOn m j loaded o s p e ne off = inside-GoesOn m j loaded o s e refl
  started-GoesOn m j adding o s p e ne off = inside-GoesOn m j adding o s e refl
  started-GoesOn m j counted o s p e ne off = absurd (ground (arith, off))
  started-GoesOn m j running o s p e ne off = absurd (ground (arith, off))

  -- smp_init itself goes on, or a processor that it waits for.
  pub place-GoesOn :
      (m : Smp) (p : Place)
      → m.place ≡ p
      → Ordered cpu_count m
      → Locked m
      → Counted cpu_count m
      → Live cpu_count m
      → p ≢ passed
      → p ≢ panicked
      → GoesOn m
  place-GoesOn m preparing e o k c s ne ne' = elim (Bool-cases m.lock) [
    | inl taken ↦ lock-GoesOn m o s taken (ground (arith, e))
    | inr free ↦
        let r : place_left m.place (cpu_count - m.i) ≡ 2 * (cpu_count - m.i) + 2 = rw e refl in
        elim (Bool-cases (ltb m.i cpu_count)) [
          | inl more ↦ elim (Bool-cases ((pmm_allocz m.pmm m.memory 2).2 == 0)) [
            | inl null ↦ (_, fill_fails e more free (ground (arith, null)), omega (arith, r))
            | inr stack ↦ (_, lock_fill e more free (ground (arith, stack)), omega (arith, r))
          ]
          | inr less ↦ (_, loop_ends e less, omega (arith, r))
        ]
  ]
  place-GoesOn m filled e o k c s ne ne' =
      let idle : m.phase m.i ≡ parked = o.ahead m.i (ground (arith, e)) in
      let h = o.current e in
      let r : place_left m.place (cpu_count - m.i) ≡ 2 * (cpu_count - m.i) + 1 = rw e refl in
      elim (Bool-cases ((m.info m.i).lapic_id == bsp_lapic_id)) [
        | inl bsp ↦
            let d = drops m.phase m.i entered h (rw idle (omega arith)) in
            (_, choose_bsp e (ground (arith, bsp)), omega (arith, d, r))
        | inr ap ↦
            let d = drops m.phase m.i called h (rw idle (omega arith)) in
            (_, choose_ap e (ground (arith, ap)), omega (arith, d, r, h))
      ]
  place-GoesOn m in_bsp_init e o k c s ne ne' =
      inside-GoesOn m m.i (m.phase m.i) o s refl (k.booting e)
  place-GoesOn m waiting e o k c s ne ne' = elim (Bool-cases (m.cpus_online == cpu_count)) [
    | inl all ↦
        let r : place_left m.place (cpu_count - m.i) ≡ 1 = rw e refl in
        (_, passes e (ground (arith, all)), omega (arith, r))
    | inr some_missing ↦
        let ne_count : online_count m.phase cpu_count ≢ cpu_count =
          λ f. ground (arith, some_missing, c.count ∙ f) in
        let (j, h, off) = not_online m.phase cpu_count ne_count in
        let started : m.phase j ≢ parked = s.behind j (omega (arith, h, s.ended e)) in
        started-GoesOn m j (m.phase j) o s (ground (arith, e)) refl started off
  ]
  place-GoesOn m passed e o k c s ne ne' = absurd (ne refl)
  place-GoesOn m panicked e o k c s ne ne' = absurd (ne' refl)
