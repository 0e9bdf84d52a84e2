-- ===== src/Smp/Safety.antt =====
-- The states that smp_init of src/kernel/proc/smp/smp.c and the processors that it starts reach.
use apopt_os.Base.{
  ℕ, ◌^◌, ◌≡◌, ◌≢◌, ◌<◌, refl, ◌∙◌, sym, ap, true, false, List, [], ◌==◌, if◌then◌else◌, arith,
  Bool-cases, inl, inr,
}
use apopt_os.Smp.{
  SmpInfo, CpuLocal, Setup, tss_address, Smp, preparing, filled, passed, Phase, parked, called,
  entered, described, loaded, adding, counted, running, Step, lock_fill, fill_fails, choose_bsp,
  choose_ap, loop_ends, spin, passes, enter, describe, load, read_bsp, read_ap, write, leave,
  return_bsp, Reach, here, later,
}
use apopt_os.Smp.Order.{Ordered, Step-Ordered}
use apopt_os.Smp.Locking.{critical, Locked, Step-Locked}
use apopt_os.Smp.Counting.{
  online, online_count, online_count-lt, online_count-zero, Counted, Step-Counted,
}
use apopt_os.Smp.Startup.{Step-IsSetUp}
use apopt_os.Smp.Entry.{own_local, complete, IsEntry, IsSetUp}

-- No processor is started, no entry of the table names ap_init, the lock is free.
pub record IsStart (m : Smp) : Type 0 where
  pub unlocked : m.lock ≡ false
  pub at_first : m.place ≡ preparing
  pub all_parked : (j : ℕ) → m.phase j ≡ parked
  pub none_starts : (j : ℕ) → (m.info j).starts ≡ false
  pub first : m.i ≡ 0
  pub none_online : m.cpus_online ≡ 0
  pub no_setup : (j : ℕ) → m.setup j ≡ []

-- The processor that boots is told from the others by its LAPIC.
role-starts :
    {bsp_lapic_id locals root j : ℕ} {q : Phase} {entry : SmpInfo} {own : CpuLocal}
    {setup : List Setup}
    → IsEntry bsp_lapic_id locals root j q entry own setup
    → q ≢ parked
    → entry.starts ≡ (if entry.lapic_id == bsp_lapic_id then false else true)
role-starts {entry = entry} s ne = elim (Bool-cases entry.starts) [
  | inl yes_starts ↦ ground (arith, s.ap ne yes_starts)
  | inr no_starts ↦ ground (arith, s.bsp ne no_starts)
]

-- A processor that has counted itself is complete.
finished_entry :
    (bsp_lapic_id locals root j : ℕ) (q : Phase) {entry : SmpInfo} {own : CpuLocal}
    {setup : List Setup}
    → IsEntry bsp_lapic_id locals root j q entry own setup
    → online q ≢ 0
    → (own ≡ own_local j entry)
      × (setup
          ≡ complete
              (if entry.lapic_id == bsp_lapic_id then false else true)
              root
              (tss_address locals j))
finished_entry bsp_lapic_id locals root j parked s ne = absurd (ne refl)
finished_entry bsp_lapic_id locals root j called s ne = absurd (ne refl)
finished_entry bsp_lapic_id locals root j entered s ne = absurd (ne refl)
finished_entry bsp_lapic_id locals root j described s ne = absurd (ne refl)
finished_entry bsp_lapic_id locals root j loaded s ne = absurd (ne refl)
finished_entry bsp_lapic_id locals root j adding s ne = absurd (ne refl)
finished_entry bsp_lapic_id locals root j counted {entry} s ne = (
  s.stored refl,
  s.setups ∙ ap (λ b. complete b root (tss_address locals j)) (role-starts s (ground arith)),
)
finished_entry bsp_lapic_id locals root j running {entry} s ne = (
  s.stored refl,
  s.setups ∙ ap (λ b. complete b root (tss_address locals j)) (role-starts s (ground arith)),
)

module _ (cpu_count bsp_lapic_id locals root : ℕ) (small : cpu_count < 2 ^ 32) where
  pub record IsSafe (m : Smp) : Type 0 where
    pub ordered : Ordered cpu_count m
    pub locked : Locked m
    pub counts : Counted cpu_count m
    pub set_up : IsSetUp bsp_lapic_id locals root m
    pub done : m.place ≡ passed → m.cpus_online ≡ cpu_count

  start-IsSafe : {m : Smp} → IsStart m → IsSafe m
  start-IsSafe {m} s = record {
    ordered = record {
      ahead = λ j h. s.all_parked j;
      bounded = λ j h. absurd (h (s.all_parked j));
      fresh = λ j h. s.none_starts j;
      current = λ h. absurd (ground (arith, s.at_first));
      booting = λ h. absurd (ground (arith, s.at_first));
    };
    locked = record {
      free = λ j h. ground (arith, s.all_parked j);
      one = λ j k hj hk. absurd (ground (arith, s.all_parked j));
      alone = λ j h. ground (arith, s.all_parked j);
      taken = λ h. absurd (ground (arith, s.at_first));
      booting = λ h. absurd (ground (arith, s.at_first));
    };
    counts = record {
      count = s.none_online ∙ sym (online_count-zero m.phase cpu_count s.all_parked);
      latest = λ j h. absurd (ground (arith, s.all_parked j));
    };
    set_up = record {
      filled_in = λ h. absurd (ground (arith, s.at_first));
      segment = λ j h. absurd (ground (arith, s.all_parked j));
      entry = λ j. record {
        numbered = λ h. absurd (h (s.all_parked j));
        start = λ h. absurd (ground (arith, s.all_parked j));
        bsp = λ h. absurd (h (s.all_parked j));
        ap = λ h. absurd (h (s.all_parked j));
        stored = λ h. absurd (ground (arith, s.all_parked j));
        setups = rw (s.all_parked j) (s.no_setup j);
      };
    };
    done = λ h. absurd (ground (arith, s.at_first));
  }

  Step-done :
      {m n : Smp}
      → Step cpu_count bsp_lapic_id locals root m n
      → IsSafe m
      → n.place ≡ passed
      → n.cpus_online ≡ cpu_count
  Step-done (lock_fill p more l ok) s h = absurd (ground (arith, h))
  Step-done (fill_fails p more l ok) s h = absurd (ground (arith, h))
  Step-done (choose_bsp p e) s h = absurd (ground (arith, h))
  Step-done (choose_ap p e) s h = absurd (ground (arith, h))
  Step-done (loop_ends p e) s h = absurd (ground (arith, h))
  Step-done (spin p e) s h = s.done h
  Step-done (passes p e) s h = e
  Step-done (enter j e l) s h = s.done h
  Step-done (describe j e) s h = s.done h
  Step-done (load j e) s h = s.done h
  Step-done (read_bsp j e b) s h = s.done h
  Step-done (read_ap j e b) s h = s.done h
  Step-done {m} (write j e) s h =
      let off : online (m.phase j) ≡ 0 = rw e refl in
      let less =
        online_count-lt m.phase cpu_count j (s.ordered.bounded j (ground (arith, e))) off in
      absurd (omega (arith, s.done h, s.counts.count, less))
  Step-done (leave j e b) s h = s.done h
  Step-done (return_bsp p e) s h = absurd (ground (arith, h))

  pub Step-IsSafe : {m n : Smp} → Step cpu_count bsp_lapic_id locals root m n → IsSafe m → IsSafe n
  Step-IsSafe step s = record {
    ordered = Step-Ordered cpu_count bsp_lapic_id locals root step s.ordered;
    locked = Step-Locked cpu_count bsp_lapic_id locals root step s.ordered s.locked;
    counts = Step-Counted cpu_count bsp_lapic_id locals root small step s.ordered s.locked s.counts;
    set_up = Step-IsSetUp cpu_count bsp_lapic_id locals root step s.ordered s.locked s.set_up;
    done = Step-done step s;
  }

  pub Reach-IsSafe :
      {start m : Smp} → IsStart start → Reach cpu_count bsp_lapic_id locals root start m → IsSafe m
  Reach-IsSafe s here = start-IsSafe s
  Reach-IsSafe s (later r step) = Step-IsSafe step (Reach-IsSafe s r)

  -- For fewer than 2 ^ 32 processors, and from a start with a free lock, an empty counter and no
  -- processor started: in every state that is reached, in any order of their steps: at
  -- most one processor is inside the lock, none is while smp_init itself holds it, and cpus_online is
  -- the number of processors that have counted themselves, so no increment is lost.
  pub cpus_online-online_count :
      {start m : Smp}
      → IsStart start
      → Reach cpu_count bsp_lapic_id locals root start m
      → ((j k : ℕ) → critical (m.phase j) ≡ true → critical (m.phase k) ≡ true → j ≡ k)
        × (m.place ≡ filled → (j : ℕ) → critical (m.phase j) ≡ false)
        × (m.cpus_online ≡ online_count m.phase cpu_count)
  cpus_online-online_count s r =
      let safe = Reach-IsSafe s r in
      (safe.locked.one, λ p j. safe.locked.alone j (ground (arith, p)), safe.counts.count)

  -- For fewer than 2 ^ 32 processors, and from a start with a free lock, an empty counter and no
  -- processor started: when smp_init has passed its last loop, every processor has its
  -- number, the LAPIC and the stack of its entry in cpu_locals. Each has loaded its own task state
  -- segment and then enabled SSE; before that, each but the one that boots has set the PAT and loaded
  -- the kernel's page tables, GDT and IDT, and after it, enabled its LAPIC.
  pub passed-complete :
      {start m : Smp}
      → IsStart start
      → Reach cpu_count bsp_lapic_id locals root start m
      → m.place ≡ passed
      → (j : ℕ) → j < cpu_count
      → (m.cpu_locals j ≡ own_local j (m.info j))
        × (m.setup j
            ≡ complete
                (if (m.info j).lapic_id == bsp_lapic_id then false else true)
                root
                (tss_address locals j))
  passed-complete {m = m} s r p j h =
      let safe = Reach-IsSafe s r in
      let lacks = online_count-lt m.phase cpu_count j h in
      let counted_all = safe.counts.count in
      finished_entry bsp_lapic_id locals root j (m.phase j) (safe.set_up.entry j)
        (λ off. absurd (omega (arith, safe.done p, counted_all, lacks off)))
