-- ===== src/Pmm/Supply.antt =====
-- How many pages pmm_alloc can still give, in src/kernel/memory/physical/pmm.c.
use apopt_os.Base.{
  ℕ, zero, suc, ◌+◌, ◌*◌, ◌^◌, ◌<◌, ◌≤◌, ◌≡◌, ◌⊎◌, refl, true, false, ◌==◌, if◌then◌else◌, arith,
  Bool-cases, inl, inr, page_to_bit,
}
use apopt_os.Bitmap.{Bitmap, is_set}
use apopt_os.Pmm.{Pmm, claim, pmm_alloc}
use apopt_os.Pmm.Find.{AllUsed}
use apopt_os.Pmm.Alloc.{IsValid, Claimed, Refused, pmm_alloc_lem}
use apopt_os.Pmm.Safety.{is_set-claim, pmm_alloc-IsValid}

-- the pages below `n` that are free
unfoldable pub free_below : Bitmap → ℕ → ℕ
free_below b zero = 0
free_below b (suc n) = (if is_set b n then 0 else 1) + free_below b n

abbrev pub free_pages : Pmm → ℕ
free_pages p = free_below p.bitmap (page_to_bit p.highest_page_top)

free_below-AllUsed : (b : Bitmap) (n : ℕ) → AllUsed b 0 n → free_below b n ≡ 0
unfolding free_below
free_below-AllUsed b zero used = refl
free_below-AllUsed b (suc n) used =
    rw (used n (omega arith) (omega arith))
      (omega (arith, free_below-AllUsed b n (λ j lo hi. used j lo (omega arith))))

-- One page that becomes used.
module _ (b c : Bitmap) (k : ℕ)
    (set : (j : ℕ) → is_set c j ≡ (if k == j then true else is_set b j)) where
  free_below-above : (n : ℕ) → n ≤ k → free_below c n ≡ free_below b n
  unfolding free_below
  free_below-above zero h = refl
  free_below-above (suc n) h =
      let other : (k == n) ≡ false = ground arith in
      rw (set n, other, free_below-above n (omega arith)) refl

  free_below-set : (n : ℕ) → is_set b k ≡ false → k < n → free_below c n + 1 ≡ free_below b n
  unfolding free_below
  free_below-set zero free h = absurd (omega arith)
  free_below-set (suc n) free h = elim (Bool-cases (k == n)) [
    | inl same ↦
        let e : k ≡ n = ground arith in
        let free' : is_set b n ≡ false = rw e at free in
        rw (set n, same, free', free_below-above n (omega arith)) (omega arith)
    | inr other ↦ rw (set n, other) (omega (arith, free_below-set n free (ground arith)))
  ]

-- Whether a call for one page succeeds, and what it leaves.
abbrev pub Given : Pmm → Pmm × ℕ → Type 0
Given p (q, a) =
    (0 < a)
    × (free_pages q + 1 ≡ free_pages p)
    × (q.used_pages_count ≡ p.used_pages_count + 1)
    × (q.highest_page_top ≡ p.highest_page_top)

pub is_set-claim_one :
    (p : Pmm) (k j : ℕ)
    → IsValid p
    → k < page_to_bit p.highest_page_top
    → is_set (claim p k 1).bitmap j ≡ (if k == j then true else is_set p.bitmap j)
is_set-claim_one p k j v top =
    let small = v.small in let covered = v.covered in ground (arith, is_set-claim p k 1 j v)

claim-counts :
    (p : Pmm) (k : ℕ)
    → p.used_pages_count + 1 < 2 ^ 64
    → ((claim p k 1).used_pages_count ≡ p.used_pages_count + 1)
      × ((claim p k 1).highest_page_top ≡ p.highest_page_top)
unfolding claim
claim-counts p k small = (omega arith, refl)

claim-Given :
    (p : Pmm) (k : ℕ)
    → IsValid p
    → p.used_pages_count + free_pages p < 2 ^ 64
    → 0 < k
    → k < page_to_bit p.highest_page_top
    → is_set p.bitmap k ≡ false
    → Given p (claim p k 1, k * 4096)
claim-Given p k v counted pos top free =
    let less =
      free_below-set p.bitmap (claim p k 1).bitmap k (λ j. is_set-claim_one p k j v top)
        (page_to_bit p.highest_page_top) free top in
    let (count, same) = claim-counts p k (omega (arith, less, counted)) in
    (omega arith, rw same less, count, same)

-- A valid allocator whose counter is neither 0 nor near its end.
pub record IsSound (p : Pmm) : Type 0 where
  pub pages : IsValid p
  pub some_used : 0 < p.used_pages_count
  pub counted : p.used_pages_count + free_pages p < 2 ^ 64

-- From `p` to `q` at most `n` free pages have been taken.
pub record Spent (p q : Pmm) (n : ℕ) : Type 0 where
  pub sound : IsSound q
  pub fewer : free_pages q ≤ free_pages p
  pub enough : free_pages p ≤ free_pages q + n

pub Spent-none : {p : Pmm} → IsSound p → Spent p p 0
Spent-none s = record { sound = s; fewer = omega arith; enough = omega arith }

pub Spent-trans : {p q r : Pmm} {a b : ℕ} → Spent p q a → Spent q r b → Spent p r (a + b)
Spent-trans s t = record {
  sound = t.sound;
  fewer = omega (arith, s.fewer, t.fewer);
  enough = omega (arith, s.enough, t.enough);
}

pub Spent-more : {p q : Pmm} {a : ℕ} (b : ℕ) → a ≤ b → Spent p q a → Spent p q b
Spent-more b h s = record { sound = s.sound; fewer = s.fewer; enough = omega (arith, s.enough, h) }

-- On a valid state with a page counter that is not 0 and whose sum with the free pages fits 64 bits,
-- pmm_alloc of one page returns null and changes nothing exactly when no page is free; otherwise one
-- free page fewer is left, and the counter is one more.
pub pmm_alloc-free_pages :
    (p : Pmm)
    → IsSound p
    → ((pmm_alloc p 1 ≡ (p, 0)) × (free_pages p ≡ 0)) ⊎ Given p (pmm_alloc p 1)
pmm_alloc-free_pages p s = by_case (pmm_alloc_lem p 1 s.pages (omega arith) (omega arith))
  where
    by_case :
        Claimed p 1 (pmm_alloc p 1) ⊎ Refused p (pmm_alloc p 1)
        → ((pmm_alloc p 1 ≡ (p, 0)) × (free_pages p ≡ 0)) ⊎ Given p (pmm_alloc p 1)
    by_case (inl (k, r, lo, hi, free, used, some_used)) =
        rw r (inr (claim-Given p k s.pages s.counted lo hi free))
    by_case (inr (r, inl none_used)) = absurd (omega (arith, s.some_used))
    by_case (inr (r, inr used)) = inl (r, free_below-AllUsed p.bitmap _ used)

pub pmm_alloc-Spent : (p : Pmm) → IsSound p → Spent p (pmm_alloc p 1).0 1
pmm_alloc-Spent p s = elim (pmm_alloc-free_pages p s) [
  | inl (r, none_left) ↦ rw r (Spent-more 1 (omega arith) (Spent-none s))
  | inr (pos, less, count, same) ↦ record {
    sound = record {
      pages = pmm_alloc-IsValid p 1 s.pages (omega arith) (omega arith);
      some_used = omega arith;
      counted = omega (arith, s.counted);
    };
    fewer = omega arith;
    enough = omega arith;
  }
]
