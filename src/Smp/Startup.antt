-- ===== src/Smp/Startup.antt =====
-- What the steps of src/kernel/proc/smp/smp.c do to the entries, to cpu_locals and to the descriptor of
-- the task state segment, which the processors share.
use apopt_os.Pmm.{pmm_allocz}
use apopt_os.Base.{
  phys_to_higher_half_data, subst, ℕ, ◌+◌, ◌≡◌, refl, sym, true, false, List, if◌then◌else◌, arith,
}
use apopt_os.Slab.Heap.{put}
use apopt_os.Tables.Gdt.{base_of}
use apopt_os.Smp.{
  cpu_locals_stack_size, Setup, tss_address, Smp, filled, Phase, parked, called, entered, described,
  loaded, adding, counted, running, Step, lock_fill, fill_fails, choose_bsp, choose_ap, loop_ends,
  spin, passes, enter, describe, load, read_bsp, read_ap, write, leave, return_bsp,
}
use apopt_os.Smp.Order.{Ordered}
use apopt_os.Smp.Locking.{Locked}
use apopt_os.Smp.Entry.{
  own_local, IsEntry, IsSetUp, base_of-tss_create_segment, split_entry, goes_on, enters, describes,
  loads, enables,
}

module _ (cpu_count bsp_lapic_id locals root : ℕ) where
  -- The entry of `j` with its phase read off.
  at_phase :
      {m : Smp} {p : Phase} (j : ℕ)
      → m.phase j ≡ p
      → IsSetUp bsp_lapic_id locals root m
      → IsEntry bsp_lapic_id locals root j p (m.info j) (m.cpu_locals j) (m.setup j)
  at_phase {m} j e s =
      subst (λ p. IsEntry bsp_lapic_id locals root j p (m.info j) (m.cpu_locals j) (m.setup j)) e
        (s.entry j)

  -- Entry `j` gets the phase `q`, the others keep theirs.
  to_phase :
      {m : Smp} (i : ℕ) (q : Phase)
      → IsEntry bsp_lapic_id locals root i q (m.info i) (m.cpu_locals i) (m.setup i)
      → IsSetUp bsp_lapic_id locals root m
      → (j : ℕ)
      → IsEntry bsp_lapic_id locals root j
          (put m.phase i q j)
          (m.info j)
          (m.cpu_locals j)
          (m.setup j)
  to_phase {m} i q new s =
      split_entry
        (λ j b.
          IsEntry bsp_lapic_id locals root j (if b then q else m.phase j) (m.info j)
            (m.cpu_locals j) (m.setup j))
        i new s.entry

  with_setup :
      {m : Smp} (i : ℕ) (q : Phase) (setup : List Setup)
      → IsEntry bsp_lapic_id locals root i q (m.info i) (m.cpu_locals i) setup
      → IsSetUp bsp_lapic_id locals root m
      → (j : ℕ)
      → IsEntry bsp_lapic_id locals root j
          (put m.phase i q j)
          (m.info j)
          (m.cpu_locals j)
          (put m.setup i setup j)
  with_setup {m} i q setup new s =
      split_entry
        (λ j b.
          IsEntry bsp_lapic_id locals root j (if b then q else m.phase j) (m.info j)
            (m.cpu_locals j) (if b then setup else m.setup j))
        i new s.entry

  Step-IsEntry :
      {m n : Smp}
      → Step cpu_count bsp_lapic_id locals root m n
      → Ordered cpu_count m
      → IsSetUp bsp_lapic_id locals root m
      → (j : ℕ)
      → IsEntry bsp_lapic_id locals root j (n.phase j) (n.info j) (n.cpu_locals j) (n.setup j)
  Step-IsEntry {m} (lock_fill p more l ok) o s =
      let idle : m.phase m.i ≡ parked = o.ahead m.i (ground (arith, p)) in
      split_entry
        (λ j b.
          IsEntry bsp_lapic_id locals root j (m.phase j)
            (if b
              then record (m.info m.i) {
                extra_argument = m.i;
                target_stack =
                    phys_to_higher_half_data
                      ((pmm_allocz m.pmm m.memory 2).2 + cpu_locals_stack_size);
              }
              else m.info j)
            (m.cpu_locals j) (m.setup j))
        m.i
        (record {
          numbered = λ h. refl;
          start = λ h. absurd (ground (arith, h));
          bsp = λ ne. absurd (ne idle);
          ap = λ ne. absurd (ne idle);
          stored = λ h. absurd (ground (arith, h));
          setups = (s.entry m.i).setups;
        })
        s.entry
  Step-IsEntry (fill_fails p more l ok) o s = s.entry
  Step-IsEntry {m} (choose_bsp p e) o s =
      let idle : m.phase m.i ≡ parked = o.ahead m.i (ground (arith, p)) in
      let new : (m.info m.i).starts ≡ false = o.fresh m.i idle in
      to_phase m.i entered
        (record {
          numbered = λ h. s.filled_in p;
          start = λ h. absurd (ground (arith, h));
          bsp = λ h f. e;
          ap = λ h f. absurd (ground (arith, f));
          stored = λ h. absurd (ground (arith, h));
          setups = rw (new) (at_phase m.i idle s).setups;
        })
        s
  Step-IsEntry {m} (choose_ap p e) o s =
      let idle : m.phase m.i ≡ parked = o.ahead m.i (ground (arith, p)) in
      split_entry
        (λ j b.
          IsEntry bsp_lapic_id locals root j (if b then called else m.phase j)
            (if b then record (m.info m.i) { starts = true } else m.info j) (m.cpu_locals j)
            (m.setup j))
        m.i
        (record {
          numbered = λ h. s.filled_in p;
          start = λ h. refl;
          bsp = λ h f. absurd (ground (arith, f));
          ap = λ h f. e;
          stored = λ h. absurd (ground (arith, h));
          setups = (at_phase m.i idle s).setups;
        })
        s.entry
  Step-IsEntry (loop_ends p e) o s = s.entry
  Step-IsEntry (spin p e) o s = s.entry
  Step-IsEntry (passes p e) o s = s.entry
  Step-IsEntry {m} (enter j e l) o s =
      with_setup j entered _ (enters _ _ _ _ _ _ _ ((s.entry j).start e) (at_phase j e s)) s
  Step-IsEntry {m} (describe j e) o s =
      let me : (m.info j).extra_argument ≡ j = (s.entry j).numbered (ground (arith, e)) in
      let entry = m.info j in
      subst
        (λ x.
          (l : ℕ)
          → IsEntry bsp_lapic_id locals root l (put m.phase j described l) (m.info l)
              (put m.cpu_locals x
                (record { cpu_number = x; lapic_id = entry.lapic_id; rsp0 = entry.target_stack }) l)
              (m.setup l))
        (sym me)
        (split_entry
          (λ l b.
            IsEntry bsp_lapic_id locals root l (if b then described else m.phase l) (m.info l)
              (if b then own_local j entry else m.cpu_locals l) (m.setup l))
          j (describes _ _ _ _ _ _ _ (at_phase j e s)) s.entry)
  Step-IsEntry {m} (load j e) o s =
      with_setup j loaded _ (loads _ _ _ _ _ _ _ _ (s.segment j e) (at_phase j e s)) s
  Step-IsEntry {m} (read_bsp j e b) o s =
      to_phase j adding
        (goes_on _ _ _ _ _ _ _ loaded adding (ground arith) (ground arith) refl (rw b refl)
          (at_phase j e s))
        s
  Step-IsEntry {m} (read_ap j e b) o s =
      with_setup j adding _ (enables _ _ _ _ _ _ _ b (at_phase j e s)) s
  Step-IsEntry {m} (write j e) o s =
      to_phase j counted
        (goes_on _ _ _ _ _ _ _ adding counted (ground arith) (ground arith) refl refl
          (at_phase j e s))
        s
  Step-IsEntry {m} (leave j e b) o s =
      to_phase j running
        (goes_on _ _ _ _ _ _ _ counted running (ground arith) (ground arith) refl refl
          (at_phase j e s))
        s
  Step-IsEntry {m} (return_bsp p e) o s =
      to_phase m.i running
        (goes_on _ _ _ _ _ _ _ counted running (ground arith) (ground arith) refl refl
          (at_phase m.i e s))
        s

  Step-filled_in :
      {m n : Smp}
      → Step cpu_count bsp_lapic_id locals root m n
      → IsSetUp bsp_lapic_id locals root m
      → n.place ≡ filled
      → (n.info n.i).extra_argument ≡ n.i
  Step-filled_in (lock_fill p more l ok) s h = ground arith
  Step-filled_in (fill_fails p more l ok) s h = absurd (ground (arith, h))
  Step-filled_in (choose_bsp p e) s h = absurd (ground (arith, h))
  Step-filled_in (choose_ap p e) s h = absurd (ground (arith, h))
  Step-filled_in (loop_ends p e) s h = absurd (ground (arith, h))
  Step-filled_in (spin p e) s h = s.filled_in h
  Step-filled_in (passes p e) s h = absurd (ground (arith, h))
  Step-filled_in (enter j e l) s h = s.filled_in h
  Step-filled_in (describe j e) s h = s.filled_in h
  Step-filled_in (load j e) s h = s.filled_in h
  Step-filled_in (read_bsp j e b) s h = s.filled_in h
  Step-filled_in (read_ap j e b) s h = s.filled_in h
  Step-filled_in (write j e) s h = s.filled_in h
  Step-filled_in (leave j e b) s h = s.filled_in h
  Step-filled_in (return_bsp p e) s h = absurd (ground (arith, h))

  -- The descriptor is the one of the processor that is about to load it.
  Step-segment :
      {m n : Smp}
      → Step cpu_count bsp_lapic_id locals root m n
      → Locked m
      → IsSetUp bsp_lapic_id locals root m
      → (l : ℕ) → n.phase l ≡ described
      → base_of n.gdt.tss_descriptor ≡ tss_address locals l
  Step-segment (lock_fill p more l ok) k s j h = s.segment j h
  Step-segment (fill_fails p more l ok) k s j h = s.segment j h
  Step-segment (choose_bsp p e) k s j h = ground (arith, s.segment j)
  Step-segment (choose_ap p e) k s j h = ground (arith, s.segment j)
  Step-segment (loop_ends p e) k s j h = s.segment j h
  Step-segment (spin p e) k s j h = s.segment j h
  Step-segment (passes p e) k s j h = s.segment j h
  Step-segment (enter i e l) k s j h = ground (arith, s.segment j)
  Step-segment {m} (describe i e) k s j h =
      let me : (m.info i).extra_argument ≡ i = (s.entry i).numbered (ground (arith, e)) in
      let same : j ≡ i = ground (arith, k.one i j) in
      rw (same, me) (base_of-tss_create_segment m.gdt (tss_address locals i) (omega arith))
  Step-segment (load i e) k s j h = ground (arith, s.segment j)
  Step-segment (read_bsp i e b) k s j h = ground (arith, s.segment j)
  Step-segment (read_ap i e b) k s j h = ground (arith, s.segment j)
  Step-segment (write i e) k s j h = ground (arith, s.segment j)
  Step-segment (leave i e b) k s j h = ground (arith, s.segment j)
  Step-segment (return_bsp p e) k s j h = ground (arith, s.segment j)

  pub Step-IsSetUp :
      {m n : Smp}
      → Step cpu_count bsp_lapic_id locals root m n
      → Ordered cpu_count m
      → Locked m
      → IsSetUp bsp_lapic_id locals root m
      → IsSetUp bsp_lapic_id locals root n
  Step-IsSetUp step o k s = record {
    filled_in = Step-filled_in step s;
    segment = Step-segment step k s;
    entry = Step-IsEntry step o s;
  }
