-- ===== src/Spinlock/Tests.antt =====
-- Processor 3 takes the lock and gives it back.
use apopt_os.Base.{ℕ, ◌≡◌, true, false, refl}
use apopt_os.Spinlock.{
  outside, Machine, test_and_set, store_flag, disable, restore, Reach, here, later,
}
use apopt_os.Spinlock.Safety.{IsStart, CanFree, mutual_exclusion, can_free}

abbrev rest : Machine
rest = record {
  lock = false;
  interrupts = false;
  phase = λ _. outside;
  flag = λ _. true;
  came = λ _. false;
}

rest-IsStart : IsStart rest
rest-IsStart = record { unlocked = refl; all_outside = λ i. refl }

abbrev acquired : (m : Machine) × Reach rest m
acquired =
    (_, later (later (later here (test_and_set 3 refl refl)) (store_flag 3 refl)) (disable 3 refl))

abbrev released : (m : Machine) × Reach rest m
released = (_, later acquired.1 (restore 3 refl))

mutual_exclusion_example : (◌≡◌ {A = ℕ} 3 3) × (acquired.0.flag 3 ≡ false)
mutual_exclusion_example = mutual_exclusion rest-IsStart acquired.1 3 3 refl refl

can_free_example : CanFree acquired.0
can_free_example = can_free rest-IsStart acquired.1
