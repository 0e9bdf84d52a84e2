-- ===== src/Bitmap/Byte.antt =====
-- The bit operations of bitmap.c on one byte, checked at every byte and bit.
use apopt_os.Base.{
  ℕ, ◌<◌, ◌≡◌, refl, Bool, true, false, not, ltb, ◌==◌, ==_iff, if◌then◌else◌, arith, all_below,
  all_below_sound,
}
use apopt_os.Bitmap.{byte_set, byte_unset, byte_check}

abbrev same : Bool → Bool → Bool
same true b = b
same false b = not b

same_eq : (a b : Bool) → same a b ≡ true → a ≡ b
same_eq a b h = ground arith

-- the check of bit `j` after an update of bit `k`, and the size of the result
abbrev set_case : ℕ → ℕ → ℕ → Bool
set_case x k j =
    same (ltb 0 (byte_check (byte_set x k) j)) (if k == j then true else ltb 0 (byte_check x j))

abbrev unset_case : ℕ → ℕ → ℕ → Bool
unset_case x k j =
    same (ltb 0 (byte_check (byte_unset x k) j)) (if k == j then false else ltb 0 (byte_check x j))

every : (ℕ → ℕ → ℕ → Bool) → Bool
every p = all_below 256 (λ x. all_below 8 (λ k. all_below 8 (λ j. p x k j)))

every_sound :
    (p : ℕ → ℕ → ℕ → Bool) → every p ≡ true → (x k j : ℕ) → x < 256 → k < 8 → j < 8 → p x k j ≡ true
unfolding every
every_sound p h x k j hx hk hj =
    all_below_sound 8 _ j (all_below_sound 8 _ k (all_below_sound 256 _ x h hx) hk) hj

set_table : every set_case ≡ true
unfolding every all_below byte_set byte_check
set_table = refl

unset_table : every unset_case ≡ true
unfolding every all_below byte_unset byte_check
unset_table = refl

pub byte_check-byte_set :
    (x k j : ℕ)
    → x < 256
    → k < 8
    → j < 8
    → ltb 0 (byte_check (byte_set x k) j) ≡ (if k == j then true else ltb 0 (byte_check x j))
byte_check-byte_set x k j hx hk hj = same_eq _ _ (every_sound set_case set_table x k j hx hk hj)

pub byte_check-byte_unset :
    (x k j : ℕ)
    → x < 256
    → k < 8
    → j < 8
    → ltb 0 (byte_check (byte_unset x k) j) ≡ (if k == j then false else ltb 0 (byte_check x j))
byte_check-byte_unset x k j hx hk hj =
    same_eq _ _ (every_sound unset_case unset_table x k j hx hk hj)

pub byte_set-lt : (x k : ℕ) → byte_set x k < 256
unfolding byte_set
byte_set-lt x k = omega arith

pub byte_unset-lt : (x k : ℕ) → byte_unset x k < 256
unfolding byte_unset
byte_unset-lt x k = omega arith

zero_table : all_below 8 (λ j. byte_check 0 j == 0) ≡ true
unfolding all_below byte_check
zero_table = refl

pub byte_check-zero : (j : ℕ) → j < 8 → byte_check 0 j ≡ 0
byte_check-zero j h = (==_iff _ _).0 (all_below_sound 8 _ j zero_table h)

ones_table : all_below 8 (λ j. ltb 0 (byte_check 0xFF j)) ≡ true
unfolding all_below byte_check
ones_table = refl

pub byte_check-ones : (j : ℕ) → j < 8 → ltb 0 (byte_check 0xFF j) ≡ true
byte_check-ones j h = all_below_sound 8 _ j ones_table h
