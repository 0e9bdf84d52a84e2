-- ===== src/Smp/Finish.antt =====
-- Runs to the end of smp_init of src/kernel/proc/smp/smp.c.
use apopt_os.Base.{ℕ, zero, suc, ◌^◌, ◌≡◌, ◌≢◌, ◌<◌, ◌⊎◌, refl, arith, inl, inr}
use apopt_os.Smp.{
  Smp, Place, preparing, filled, in_bsp_init, waiting, passed, panicked, Step, Reach, here, later,
}
use apopt_os.Smp.Safety.{IsStart, IsSafe, Step-IsSafe, Reach-IsSafe}
use apopt_os.Smp.Progress.{Live, Step-Live}
use apopt_os.Smp.Onward.{rank, place-GoesOn}

Place-cases : (p : Place) → ((p ≡ passed) ⊎ (p ≡ panicked)) ⊎ ((p ≢ passed) × (p ≢ panicked))
Place-cases preparing = inr (ground arith, ground arith)
Place-cases filled = inr (ground arith, ground arith)
Place-cases in_bsp_init = inr (ground arith, ground arith)
Place-cases waiting = inr (ground arith, ground arith)
Place-cases passed = inl (inl refl)
Place-cases panicked = inl (inr refl)

start-Live : {cpu_count : ℕ} {m : Smp} → IsStart m → Live cpu_count m
start-Live s = record {
  owner = λ h. absurd (ground (arith, s.unlocked));
  inside = λ j h f. absurd (ground (arith, s.all_parked j));
  behind = λ j h. absurd (omega (arith, s.first));
  called_ap = λ j h. absurd (ground (arith, s.all_parked j));
  ended = λ h. absurd (ground (arith, s.at_first));
}

module _ (cpu_count bsp_lapic_id locals root : ℕ) where
  -- smp_init has ended: it has passed its last loop, or panicked.
  abbrev pub CanFinish : Smp → Type 0
  CanFinish m =
      (n : Smp) × Reach cpu_count bsp_lapic_id locals root m n
      × ((n.place ≡ passed) ⊎ (n.place ≡ panicked))

  then_finish :
      {m n : Smp} → Step cpu_count bsp_lapic_id locals root m n → CanFinish n → CanFinish m
  then_finish step (o, r, e) = (o, Reach-join (later here step) r, e)
    where
      Reach-join :
          {a b c : Smp}
          → Reach cpu_count bsp_lapic_id locals root a b
          → Reach cpu_count bsp_lapic_id locals root b c
          → Reach cpu_count bsp_lapic_id locals root a c
      Reach-join r here = r
      Reach-join r (later q s) = later (Reach-join r q) s

  module _ (small : cpu_count < 2 ^ 32) where
    finish_within :
        (fuel : ℕ) (m : Smp)
        → IsSafe cpu_count bsp_lapic_id locals root small m
        → Live cpu_count m
        → rank cpu_count m < fuel
        → CanFinish m
    finish_within zero m s l h = absurd (omega arith)
    finish_within (suc fuel) m s l h = elim (Place-cases m.place) [
      | inl e ↦ (m, here, e)
      | inr (ne, ne') ↦
          let (n, step, less) =
            place-GoesOn cpu_count bsp_lapic_id locals root m m.place refl s.ordered s.locked
              s.counts l ne ne' in
          then_finish step (
            finish_within fuel n (Step-IsSafe cpu_count bsp_lapic_id locals root small step s)
              (Step-Live cpu_count bsp_lapic_id locals root step s.ordered s.locked l)
              (omega arith))
    ]

    Reach-Live :
        {start m : Smp}
        → IsStart start
        → Reach cpu_count bsp_lapic_id locals root start m
        → Live cpu_count m
    Reach-Live s here = start-Live s
    Reach-Live s (later r step) =
        let safe = Reach-IsSafe cpu_count bsp_lapic_id locals root small s r in
        Step-Live cpu_count bsp_lapic_id locals root step safe.ordered safe.locked (Reach-Live s r)

    -- For fewer than 2 ^ 32 processors, and from a start with a free lock, an empty counter and no
    -- processor started: from every state that is reached, some steps lead to the end of
    -- smp_init, behind its last loop or in a kernel panic. No order of the steps before leads into a
    -- deadlock, or into a loop that cannot end.
    pub can_finish :
        {start m : Smp}
        → IsStart start
        → Reach cpu_count bsp_lapic_id locals root start m
        → CanFinish m
    can_finish {m = m} s r =
        finish_within (suc (rank cpu_count m)) m
          (Reach-IsSafe cpu_count bsp_lapic_id locals root small s r) (Reach-Live s r) (omega arith)
