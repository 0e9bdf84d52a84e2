-- ===== src/Slab/Heap.antt =====
-- The objects of slab.h and the memory they live in. The store is typed: a record per address for
-- each of the three structs, which the layout of a page keeps apart (Slab/Layout.antt). The name of
-- a cache is only printed, and is left out.
use apopt_os.Base.{ℕ, Bool, ◌==◌, if◌then◌else◌, page_size}
use apopt_os.Pmm.{Pmm, pmm_alloc, pmm_free}
use apopt_os.Str.Laws.{within}

-- `slab_bufctl_t`, packed: 10 bytes
pub record Bufctl : Type 0 where
  pub next : ℕ
  pub index : ℕ

-- `slab_t`: 40 bytes
pub record Slab : Type 0 where
  pub next : ℕ
  pub bufctl_count : ℕ
  pub bufctl_addr : ℕ
  pub freelist_head : ℕ
  pub freelist : ℕ

-- `slab_cache_t`: 40 bytes with the pointer to its name
pub record Cache : Type 0 where
  pub slab_size : ℕ
  pub bufctl_count_max : ℕ
  pub slabs_head : ℕ
  pub slabs : ℕ

abbrev pub sizeof_bufctl : ℕ
sizeof_bufctl = 10

abbrev pub sizeof_slab : ℕ
sizeof_slab = 40

abbrev pub sizeof_cache : ℕ
sizeof_cache = 40

-- `slab_flags_t`, a bit each
pub record Flags : Type 0 where
  pub panic : Bool
  pub auto_grow : Bool
  pub no_align : Bool

pub record Heap : Type 0 where
  pub pmm : Pmm
  pub caches : ℕ → Cache
  pub slabs : ℕ → Slab
  pub bufctls : ℕ → Bufctl

-- What a call leads to: a value and the new state, a `log(PANIC, …)`, which halts the machine, or a
-- loop that runs on when the fuel is used up.
pub data Outcome {ℓ} (A : Type ℓ) : Type ℓ where
  done : A → Heap → Outcome A
  halted : Outcome A
  out_of_fuel : Outcome A

abbrev pub put {ℓ} : {A : Type ℓ} → (ℕ → A) → ℕ → A → ℕ → A
put f a v x = if a == x then v else f x

-- `p->field = …` and reads of a field go through these.
abbrev pub put_cache : Heap → ℕ → Cache → Heap
put_cache h c v = record h { caches = put h.caches c v }

abbrev pub put_slab : Heap → ℕ → Slab → Heap
put_slab h s v = record h { slabs = put h.slabs s v }

abbrev pub put_bufctl : Heap → ℕ → Bufctl → Heap
put_bufctl h b v = record h { bufctls = put h.bufctls b v }

abbrev pub zero_bufctl : Bufctl
zero_bufctl = record { next = 0; index = 0 }

abbrev pub zero_slab : Slab
zero_slab = record { next = 0; bufctl_count = 0; bufctl_addr = 0; freelist_head = 0; freelist = 0 }

abbrev pub zero_cache : Cache
zero_cache = record { slab_size = 0; bufctl_count_max = 0; slabs_head = 0; slabs = 0 }

-- The page from `a` on, filled with zero bytes.
abbrev pub zero_page : Heap → ℕ → Heap
zero_page h a = record h {
  caches = λ x. if within a page_size x then zero_cache else h.caches x;
  slabs = λ x. if within a page_size x then zero_slab else h.slabs x;
  bufctls = λ x. if within a page_size x then zero_bufctl else h.bufctls x;
}

-- `pmm_allocz(1)` on this store
unfoldable pub allocz_page : Heap → ℕ × Heap
allocz_page h = let (p, a) = pmm_alloc h.pmm 1 in (a, zero_page (record h { pmm = p }) a)

unfoldable pub free_page : Heap → ℕ → Heap
free_page h a = record h { pmm = pmm_free h.pmm a 1 }
