-- ===== src/Smp/Tests.antt =====
-- Two processors, the first of which boots.
use apopt_os.Base.{ℕ, ◌*◌, ◌≡◌, ◌≢◌, refl, true, false, [], ◌∷◌, ◌==◌, if◌then◌else◌, arith}
use apopt_os.Bitmap.{bitmap_set_bit, bitmap_check_bit, is_set, byte_check, byte_set}
use apopt_os.Str.{Memory}
use apopt_os.Pmm.{
  Pmm, pmm_alloc, pmm_allocz, claim, find_from, page_range_is_free, set_range,
  pmm_find_first_free_page_range,
}
use apopt_os.Tables.Gdt.{flat}
use apopt_os.Smp.{
  tss_address, Smp, preparing, filled, parked, lock_fill, choose_bsp, choose_ap, loop_ends, passes,
  enter, describe, load, read_bsp, read_ap, write, leave, return_bsp, Reach, here, later,
}
use apopt_os.Smp.Locking.{critical}
use apopt_os.Smp.Counting.{online_count}
use apopt_os.Smp.Entry.{own_local, complete}
use apopt_os.Smp.Safety.{IsStart, cpus_online-online_count, passed-complete}
use apopt_os.Smp.Finish.{CanFinish, can_finish}

-- 64 pages, of which the first is in use.
abbrev small_pmm : Pmm
small_pmm = record {
  bitmap = record { map = 0; bytes = 1 ∷ 0 ∷ 0 ∷ 0 ∷ 0 ∷ 0 ∷ 0 ∷ 0 ∷ []; size = 8 };
  highest_page_top = 64 * 4096;
  used_pages_count = 1;
}

abbrev at_rest : Smp
at_rest = record {
  lock = false;
  place = preparing;
  i = 0;
  info = λ j. record { lapic_id = j * 2; target_stack = 0; starts = false; extra_argument = 0 };
  pmm = small_pmm;
  memory = λ _. 0;
  cpu_locals = λ _. record { cpu_number = 0; lapic_id = 0; rsp0 = 0 };
  gdt = record {
    entries = λ _. flat 0 0;
    tss_descriptor = record {
      length = 0;
      base_low = 0;
      base_middle = 0;
      flags1 = 0;
      flags2 = 0;
      base_high = 0;
      base_upper = 0;
      reserved = 0;
    };
    limit = 0;
    base = 0;
    loaded = true;
  };
  cpus_online = 0;
  phase = λ _. parked;
  setup = λ _. [];
  register = λ _. 0;
}

at_rest-IsStart : IsStart at_rest
at_rest-IsStart = record {
  unlocked = refl;
  at_first = refl;
  all_parked = λ j. refl;
  none_starts = λ j. refl;
  first = refl;
  none_online = refl;
  no_setup = λ j. refl;
}

-- There are two stacks.
abbrev first_fill : Pmm × Memory × ℕ
first_fill = pmm_allocz small_pmm (λ _. 0) 2

first_stack : first_fill.2 ≡ 4096
unfolding pmm_allocz pmm_alloc claim find_from page_range_is_free set_range
    pmm_find_first_free_page_range bitmap_set_bit bitmap_check_bit is_set byte_check
first_stack = refl

second_stack : (pmm_allocz first_fill.0 first_fill.1 2).2 ≡ 12288
unfolding pmm_allocz pmm_alloc claim find_from page_range_is_free set_range
    pmm_find_first_free_page_range bitmap_set_bit bitmap_check_bit is_set byte_check byte_set
second_stack = refl

first_stack-ne : first_fill.2 ≢ 0
first_stack-ne = ground (arith, first_stack)

second_stack-ne : (pmm_allocz first_fill.0 first_fill.1 2).2 ≢ 0
second_stack-ne = ground (arith, second_stack)

second_lapic-ne : (at_rest.info 1).lapic_id ≢ 0
second_lapic-ne = ground arith

abbrev locals_at : ℕ
locals_at = 0xFFFF900000100000

abbrev root_at : ℕ
root_at = 0xFFFF900000200000

-- The first processor goes through smp_init up to the start of the second.
abbrev bsp_started : (m : Smp) × Reach 2 0 locals_at root_at at_rest m
bsp_started = (
  _,
  later
      (later
        (later
          (later
            (later
              (later
                (later (later here (lock_fill refl refl refl first_stack-ne))
                  (choose_bsp refl refl))
                (describe 0 refl))
              (load 0 refl))
            (read_bsp 0 refl refl))
          (write 0 refl))
        (return_bsp refl refl))
      (lock_fill refl refl refl second_stack-ne),
)

-- The second has the lock and has read the counter, while the first is in the last loop.
abbrev ap_counting : (m : Smp) × Reach 2 0 locals_at root_at at_rest m
ap_counting = (
  _,
  later
      (later
        (later
          (later (later (later bsp_started.1 (choose_ap refl second_lapic-ne)) (enter 1 refl refl))
            (loop_ends refl refl))
          (describe 1 refl))
        (load 1 refl))
      (read_ap 1 refl refl),
)

abbrev all_passed : (m : Smp) × Reach 2 0 locals_at root_at at_rest m
all_passed =
    (_, later (later (later ap_counting.1 (write 1 refl)) (leave 1 refl refl)) (passes refl refl))

cpus_online-online_count_example :
    let m = ap_counting.0 in
    ((j k : ℕ) → critical (m.phase j) ≡ true → critical (m.phase k) ≡ true → j ≡ k)
    × (m.place ≡ filled → (j : ℕ) → critical (m.phase j) ≡ false)
    × (m.cpus_online ≡ online_count m.phase 2)
cpus_online-online_count_example =
    cpus_online-online_count 2 0 locals_at root_at (omega arith) at_rest-IsStart ap_counting.1

passed-complete_example :
    let m = all_passed.0 in
    (m.cpu_locals 1 ≡ own_local 1 (m.info 1))
    × (m.setup 1
        ≡ complete
            (if (m.info 1).lapic_id == 0 then false else true)
            root_at
            (tss_address locals_at 1))
passed-complete_example =
    passed-complete 2 0 locals_at root_at (omega arith) at_rest-IsStart all_passed.1 refl 1
      (omega arith)

can_finish_example : CanFinish 2 0 locals_at root_at ap_counting.0
can_finish_example = can_finish 2 0 locals_at root_at (omega arith) at_rest-IsStart ap_counting.1
