-- ===== src/Slab/Fill.antt =====
-- The inner loop of slab_cache_grow: the free list that slab_init_bufctls builds on a page.
use apopt_os.Base.{
  ℕ, zero, suc, ◌+◌, ◌-◌, ◌*◌, ◌%◌, ◌^◌, ◌<◌, ◌≤◌, ◌≡◌, ◌≢◌, true, false, ◌&&◌, refl, ltb, ◌==◌,
  if◌then◌else◌, arith, Bool-cases, inl, inr, page_size,
}
use apopt_os.Slab.Heap.{Flags, Heap}
use apopt_os.Slab.Ops.{slot, skip_slot, append_slot, slab_init_bufctls, init_bufctls}
use apopt_os.Slab.Life.{bufctl_count_max_for}
use apopt_os.Slab.Layout.{slot-in_page, slots_apart}

-- A page `b` from `page_size` on that holds a slab of a cache with objects of `size` bytes.
pub record IsPage (b size : ℕ) : Type 0 where
  pub pos : 0 < size
  pub fits : b + page_size ≤ 2 ^ 64
  pub not_null : 0 < b
  pub aligned : b % page_size ≡ 0

pub slot-pos :
    {b size : ℕ} (i : ℕ) → IsPage b size → i < bufctl_count_max_for size → 0 < slot b size i
slot-pos {b} {size} i p lt =
    let (e, below, end) = slot-in_page b size i p.pos p.fits lt in
    let not_null = p.not_null in omega arith

pub slot-ne :
    {b size : ℕ} (i j : ℕ)
    → IsPage b size
    → i < bufctl_count_max_for size
    → j < bufctl_count_max_for size
    → i ≢ j
    → slot b size i ≢ slot b size j
slot-ne {b} {size} i j p hi hj ne = elim (Bool-cases (ltb i j)) [
  | inl lt ↦ let pos = p.pos in omega (arith, slots_apart b size i j p.pos p.fits (ground arith) hj)
  | inr ge ↦ let pos = p.pos in omega (arith, slots_apart b size j i p.pos p.fits (ground arith) hi)
]

-- Only the first object of a page is page-aligned.
pub slot-aligned_iff :
    {b size : ℕ} (i : ℕ)
    → IsPage b size
    → i < bufctl_count_max_for size
    → 0 < i
    → (slot b size i % 4096 == 0) ≡ false
slot-aligned_iff {b} {size} i p lt pos =
    let (e, below, end) = slot-in_page b size i p.pos p.fits lt in
    let size_pos = p.pos in
    let al = p.aligned in
    let size_le : size ≤ size * i = grind arith in
    let ne : slot b size i % 4096 ≢ 0 = omega arith in ground arith

module _ (c b size s : ℕ) (flags : Flags) (page : IsPage b size) where
  -- The free list of slab `s`, current in cache `c` and last in it, runs over the objects `first`,
  -- …, `last` in order, the objects behind them link nowhere yet, and `count` is the number of
  -- objects that both the slab and the cache have on record.
  pub record Listed (h : Heap) (count first last : ℕ) : Type 0 where
    pub cur : (h.caches c).slabs ≡ s
    pub object_size : (h.caches c).slab_size ≡ size
    pub max : (h.caches c).bufctl_count_max ≡ count
    pub counted : (h.slabs s).bufctl_count ≡ count
    pub addr : (h.slabs s).bufctl_addr ≡ b
    pub last_slab : (h.slabs s).next ≡ 0
    pub head : (h.slabs s).freelist_head ≡ slot b size first
    pub tail : (h.slabs s).freelist ≡ slot b size last
    pub links :
        (i : ℕ) → first ≤ i → i < last → (h.bufctls (slot b size i)).next ≡ slot b size (i + 1)
    pub fresh :
        (i : ℕ) → last ≤ i → i < bufctl_count_max_for size → (h.bufctls (slot b size i)).next ≡ 0

  -- One more object behind `last`: only the tail of the list and the link of `last` change.
  record Appended (h t : Heap) (k : ℕ) : Type 0 where
    caches : t.caches ≡ h.caches
    pmm : t.pmm ≡ h.pmm
    next :
        (x : ℕ)
        → (t.bufctls x).next
          ≡ (if slot b size k == x then slot b size (k + 1) else (h.bufctls x).next)
    slab :
        (x : ℕ)
        → t.slabs x
          ≡ (if s == x then record (h.slabs s) { freelist = slot b size (k + 1) } else h.slabs x)

  not_skipped :
      (h : Heap) (k : ℕ)
      → (h.caches c).slab_size ≡ size
      → k + 1 < bufctl_count_max_for size
      → (flags.no_align && slot b (h.caches c).slab_size (k + 1) % 4096 == 0) ≡ false
  not_skipped h k e lt = ground (arith, slot-aligned_iff (k + 1) page lt)

  append_slot-Appended :
      (h : Heap) (k : ℕ)
      → (h.caches c).slabs ≡ s
      → (h.caches c).slab_size ≡ size
      → (h.slabs s).freelist ≡ slot b size k
      → k + 1 < bufctl_count_max_for size
      → Appended h (slab_init_bufctls h c b (k + 1) flags) k
  unfolding slab_init_bufctls append_slot
  append_slot-Appended h k es ez el lt =
      rw (not_skipped h k ez lt, ez, es, el)
        (let pos = slot-pos k page (omega arith) in
          let ne : (slot b size k == 0) ≡ false = ground arith in
          rw ne (record {
            caches = refl;
            pmm = refl;
            next = λ x. ground arith;
            slab = λ x. ground arith;
          }))

  Listed-step :
      (h : Heap) (count first last : ℕ)
      → first ≤ last
      → last + 1 < bufctl_count_max_for size
      → Listed h count first last
      → Listed (slab_init_bufctls h c b (last + 1) flags) count first (last + 1)
  Listed-step h count first last le lt l =
      let a = append_slot-Appended h last l.cur l.object_size l.tail lt in
      record {
        cur = ground (arith, a.caches, l.cur);
        object_size = ground (arith, a.caches, l.object_size);
        max = ground (arith, a.caches, l.max);
        counted = ground (arith, a.slab s, l.counted);
        addr = ground (arith, a.slab s, l.addr);
        last_slab = ground (arith, a.slab s, l.last_slab);
        head = ground (arith, a.slab s, l.head);
        tail = ground (arith, a.slab s);
        links =
            λ i lo hi. ground (arith, a.next (slot b size i), l.links i lo, slot-ne last i page);
        fresh = λ i lo hi. ground (arith, a.next (slot b size i), l.fresh i, slot-ne last i page);
      }

  -- The loop from a list of the objects up to `last` to one of all objects.
  pub init_bufctls-Listed :
      (n : ℕ) (h : Heap) (count first last : ℕ)
      → first ≤ last
      → last + n < bufctl_count_max_for size
      → Listed h count first last
      → Listed (init_bufctls h c b flags n (last + 1)) count first (last + n)
  unfolding init_bufctls
  init_bufctls-Listed zero h count first last le lt l =
      let e : last + zero ≡ last = omega arith in rw e l
  init_bufctls-Listed (suc n) h count first last le lt l =
      let e : last + suc n ≡ last + 1 + n = omega arith in
      rw e (
        init_bufctls-Listed n (slab_init_bufctls h c b (last + 1) flags) count first (last + 1)
          (omega arith) (omega arith) (Listed-step h count first last le (omega arith) l))

  -- The slab before its first object.
  pub record Bare (h : Heap) (count : ℕ) : Type 0 where
    pub cur : (h.caches c).slabs ≡ s
    pub object_size : (h.caches c).slab_size ≡ size
    pub max : (h.caches c).bufctl_count_max ≡ count
    pub counted : (h.slabs s).bufctl_count ≡ count
    pub addr : (h.slabs s).bufctl_addr ≡ b
    pub last_slab : (h.slabs s).next ≡ 0
    pub none_listed : (h.slabs s).freelist ≡ 0
    pub fresh : (i : ℕ) → i < bufctl_count_max_for size → (h.bufctls (slot b size i)).next ≡ 0

  -- The first object that is not skipped starts the list.
  pub Bare-start :
      (h : Heap) (count i : ℕ)
      → i < bufctl_count_max_for size
      → (flags.no_align && slot b size i % 4096 == 0) ≡ false
      → Bare h count
      → Listed (slab_init_bufctls h c b i flags) count i i
  unfolding slab_init_bufctls append_slot
  Bare-start h count i lt not_skipped l =
      rw (l.object_size, not_skipped, l.cur, l.none_listed)
        (record {
          cur = l.cur;
          object_size = l.object_size;
          max = l.max;
          counted = ground (arith, l.counted);
          addr = ground (arith, l.addr);
          last_slab = ground (arith, l.last_slab);
          head = ground arith;
          tail = ground arith;
          links = λ j lo hi. absurd (omega arith);
          fresh = λ j lo hi. ground (arith, l.fresh j, l.fresh i);
        })

  -- With SLAB_NO_ALIGN the object at the start of the page is skipped, and both counts drop.
  pub Bare-skip :
      (h : Heap) (count : ℕ)
      → 0 < bufctl_count_max_for size
      → 0 < count
      → count < 2 ^ 64
      → flags.no_align ≡ true
      → Bare h count
      → Bare (slab_init_bufctls h c b 0 flags) (count - 1)
  unfolding slab_init_bufctls skip_slot
  Bare-skip h count lt pos small na l =
      let (e, below, end) = slot-in_page b size 0 page.pos page.fits lt in
      let al = page.aligned in
      let zero_al : (slot b size 0 % 4096 == 0) ≡ true = ground (arith, e) in
      rw (l.object_size, na, zero_al, l.cur)
        (record {
          cur = ground (arith, l.cur);
          object_size = ground (arith, l.object_size);
          max = ground (arith, l.max);
          counted = ground (arith, l.counted);
          addr = ground (arith, l.addr);
          last_slab = ground (arith, l.last_slab);
          none_listed = ground (arith, l.none_listed);
          fresh = λ i hi. ground (arith, l.fresh i, l.fresh 0);
        })
