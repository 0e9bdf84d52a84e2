-- ===== src/Base/Bits.antt =====
-- `bit_and` and `bit_or` at variables: what is below a power of two and what is a multiple of it do not mix.
use Prim.Native.Nat.{
  ℕ, zero, suc, ◌+◌, ◌-◌, ◌*◌, ◌/◌, ◌%◌, ◌^◌, ◌≤◌, ◌<◌, min, max, bit_and, bit_or, digits,
  bit_and-bitwise, bit_or-bitwise,
}
use mathlib.Core.Path.{◌≡◌, refl, ◌∙◌, ap}
use mathlib.Core.Logic.{inl, inr}
use native.Mathlib.Nat.{pow-suc}
use apopt_os.Base.Tests.{leb, Bool-cases}
use native.Mathlib.Omega.{arith}

-- What `bit_and` and `bit_or` stand for, with their fuel: what becomes of the right number when the
-- left one has run out, and the operation on two digits.
module _ (rest : ℕ → ℕ) (digit : ℕ → ℕ → ℕ) where
  abbrev merged : ℕ → ℕ → ℕ → ℕ
  merged fuel left right = digits rest digit fuel left right

  -- One more unit of fuel changes nothing where there is enough of it.
  merged-suc :
      (fuel left right : ℕ) → left ≤ fuel → merged (suc fuel) left right ≡ merged fuel left right
  merged-suc zero zero right enough = refl
  merged-suc zero (suc left) right enough = absurd (omega arith)
  merged-suc (suc fuel) zero right enough = refl
  merged-suc (suc fuel) (suc left) right enough =
      let halves = merged-suc fuel (suc left / 2) (right / 2) (omega arith) in omega (halves, arith)

  -- So the left number itself is as good as any larger fuel.
  merged_down :
      (fuel left right : ℕ) → left ≤ fuel → merged fuel left right ≡ merged left left right
  merged_down zero left right enough = let none : left ≡ 0 = omega arith in rw none refl
  merged_down (suc fuel) left right enough = elim (Bool-cases (leb left fuel)) [
    | inl less ↦
        let within : left ≤ fuel = ground arith in
        merged-suc fuel left right within ∙ merged_down fuel left right within
    | inr full ↦ let same : left ≡ suc fuel = ground arith in rw same refl
  ]

left_zero : (right : ℕ) → bit_or 0 right ≡ right
left_zero = bit_or-bitwise 0

-- the laws of the lowest digit
pub bit_or-halves :
    (left right : ℕ)
    → bit_or left right ≡ max (left % 2) (right % 2) + 2 * bit_or (left / 2) (right / 2)
bit_or-halves zero right =
    let whole = left_zero right in let half = left_zero (right / 2) in omega (half, whole, arith)
bit_or-halves (suc pred) right =
    let whole = bit_or-bitwise (suc pred) right in
    let half = bit_or-bitwise (suc pred / 2) (right / 2) in
    let fuel = merged_down (λ d. d) max pred (suc pred / 2) (right / 2) (omega arith) in
    omega (half, fuel, whole, arith)

pub bit_and-halves :
    (left right : ℕ)
    → bit_and left right ≡ min (left % 2) (right % 2) + 2 * bit_and (left / 2) (right / 2)
bit_and-halves zero right =
    let whole = bit_and-bitwise 0 right in
    let half = bit_and-bitwise 0 (right / 2) in omega (half, whole, arith)
bit_and-halves (suc pred) right =
    let whole = bit_and-bitwise (suc pred) right in
    let half = bit_and-bitwise (suc pred / 2) (right / 2) in
    let fuel = merged_down (λ d. 0) min pred (suc pred / 2) (right / 2) (omega arith) in
    omega (half, fuel, whole, arith)

pub bit_or-zero : (left : ℕ) → bit_or left 0 ≡ left
bit_or-zero left = zeros left left (omega arith)
  where
    zeros : (bound n : ℕ) → n ≤ bound → bit_or n 0 ≡ n
    zeros bound zero le = left_zero 0
    zeros zero (suc n) le = absurd (omega arith)
    zeros (suc bound) (suc n) le =
        let half = zeros bound (suc n / 2) (omega arith) in
        omega (half, bit_or-halves (suc n) 0, arith)

bit_or-low_at :
    (k p a f g : ℕ) → p ≡ 2 ^ k → f < p → g < p → bit_or (a * p + f) g ≡ a * p + bit_or f g
bit_or-low_at zero p a f g e hf hg =
    let ef : f ≡ 0 = omega (arith, e) in
    let eg : g ≡ 0 = omega (arith, e) in
    rw (ef, eg) (omega (arith, bit_or-zero (a * p + 0), bit_or-zero 0))
bit_or-low_at (suc k) p a f g e hf hg =
    let ep : p ≡ 2 ^ k * 2 = e ∙ pow-suc 2 k in
    let ea : a * p ≡ a * (2 ^ k * 2) = ap (λ (t : ℕ). a * t) ep in
    let half : (a * p + f) / 2 ≡ a * 2 ^ k + f / 2 = omega (arith, ea) in
    omega (
      arith,
      ea,
      bit_or-halves (a * p + f) g,
      bit_or-halves f g,
      ap (λ (t : ℕ). bit_or t (g / 2)) half,
      bit_or-low_at k (2 ^ k) a (f / 2) (g / 2) refl (omega arith) (omega arith),
    )

-- Bits below `2 ^ k` join bits below `2 ^ k`, and leave those above alone.
pub bit_or-low :
    (k a f g : ℕ) → f < 2 ^ k → g < 2 ^ k → bit_or (a * 2 ^ k + f) g ≡ a * 2 ^ k + bit_or f g
bit_or-low k a f g hf hg = bit_or-low_at k (2 ^ k) a f g refl hf hg

bit_or-lt_at : (k p f g : ℕ) → p ≡ 2 ^ k → f < p → g < p → bit_or f g < p
bit_or-lt_at zero p f g e hf hg =
    let ef : f ≡ 0 = omega (arith, e) in
    let eg : g ≡ 0 = omega (arith, e) in rw (ef, eg) (omega (arith, bit_or-zero 0))
bit_or-lt_at (suc k) p f g e hf hg =
    let ep : p ≡ 2 ^ k * 2 = e ∙ pow-suc 2 k in
    omega (
      arith,
      bit_or-halves f g,
      bit_or-lt_at k (2 ^ k) (f / 2) (g / 2) refl (omega arith) (omega arith),
    )

pub bit_or-lt : (k f g : ℕ) → f < 2 ^ k → g < 2 ^ k → bit_or f g < 2 ^ k
bit_or-lt k f g hf hg = bit_or-lt_at k (2 ^ k) f g refl hf hg

pub bit_or-mod_two : (a b : ℕ) → bit_or a b % 2 ≡ max (a % 2) (b % 2)
bit_or-mod_two a b = omega (arith, bit_or-halves a b)

pub bit_and-zero : (left : ℕ) → bit_and left 0 ≡ 0
bit_and-zero left = zeros left left (omega arith)
  where
    zeros : (bound n : ℕ) → n ≤ bound → bit_and n 0 ≡ 0
    zeros bound zero le = bit_and-bitwise 0 0
    zeros zero (suc n) le = absurd (omega arith)
    zeros (suc bound) (suc n) le =
        let half = zeros bound (suc n / 2) (omega arith) in
        omega (half, bit_and-halves (suc n) 0, arith)

-- A multiple of a power of two is joined to a number below that power by addition.
bit_or-high_at : (k p c f : ℕ) → p ≡ 2 ^ k → f < p → bit_or f (c * p) ≡ c * p + f
bit_or-high_at zero p c f e hf =
    let none : f ≡ 0 = omega (arith, e) in rw none (omega (arith, left_zero (c * p)))
bit_or-high_at (suc k) p c f e hf =
    let ep : p ≡ 2 ^ k * 2 = e ∙ pow-suc 2 k in
    let ec : c * p ≡ c * (2 ^ k * 2) = ap (λ (t : ℕ). c * t) ep in
    let half : c * p / 2 ≡ c * 2 ^ k = omega (arith, ec) in
    omega (
      arith,
      ec,
      bit_or-halves f (c * p),
      ap (λ (t : ℕ). bit_or (f / 2) t) half,
      bit_or-high_at k (2 ^ k) c (f / 2) refl (omega arith),
    )

pub bit_or-high : (k c f : ℕ) → f < 2 ^ k → bit_or f (c * 2 ^ k) ≡ c * 2 ^ k + f
bit_or-high k c f hf = bit_or-high_at k (2 ^ k) c f refl hf

-- A mask whose lowest bits are ones keeps what is below them.
bit_and-ones_at : (k p c f : ℕ) → p ≡ 2 ^ k → f < p → bit_and f (c * p + (p - 1)) ≡ f
bit_and-ones_at zero p c f e hf =
    let none : f ≡ 0 = omega (arith, e) in rw none (bit_and-bitwise 0 _)
bit_and-ones_at (suc k) p c f e hf =
    let ep : p ≡ 2 ^ k * 2 = e ∙ pow-suc 2 k in
    let ec : c * p ≡ c * (2 ^ k * 2) = ap (λ (t : ℕ). c * t) ep in
    let half : (c * p + (p - 1)) / 2 ≡ c * 2 ^ k + (2 ^ k - 1) = omega (arith, ec) in
    omega (
      arith,
      ec,
      bit_and-halves f (c * p + (p - 1)),
      ap (λ (t : ℕ). bit_and (f / 2) t) half,
      bit_and-ones_at k (2 ^ k) c (f / 2) refl (omega arith),
    )

pub bit_and-ones : (k c f : ℕ) → f < 2 ^ k → bit_and f (c * 2 ^ k + (2 ^ k - 1)) ≡ f
bit_and-ones k c f hf = bit_and-ones_at k (2 ^ k) c f refl hf
