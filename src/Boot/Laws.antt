-- ===== src/Boot/Laws.antt =====
-- stivale2_get_tag on a list of tags that ends.
use apopt_os.Base.{ℕ, zero, suc, ◌<◌, ◌≡◌, List, [], ◌∷◌, length, some, ◌==◌, if◌then◌else◌, arith}
use apopt_os.Str.{Memory}
use apopt_os.Boot.{identifier, next, stivale2_get_tag}

-- The tags from `tag` on are `tags`.
abbrev pub TagChain : Memory → ℕ → List ℕ → Type 0
TagChain m tag [] = tag ≡ 0
TagChain m tag (t ∷ ts) = (tag ≡ t) × (0 < t) × TagChain m (next m t) ts

-- the first tag of a list with the identifier, or null
abbrev pub first_tag : Memory → ℕ → List ℕ → ℕ
first_tag m id [] = 0
first_tag m id (t ∷ ts) = if identifier m t == id then t else first_tag m id ts

-- With more fuel than tags the search ends, with the first tag of the list that has the identifier,
-- or null if none has it.
pub stivale2_get_tag-first_tag :
    (m : Memory) (id fuel tag : ℕ) (tags : List ℕ)
    → TagChain m tag tags
    → length tags < fuel
    → stivale2_get_tag m id fuel tag ≡ some (first_tag m id tags)
unfolding stivale2_get_tag
stivale2_get_tag-first_tag m id zero tag tags chain enough = absurd (omega arith)
stivale2_get_tag-first_tag m id (suc fuel) tag [] chain enough = ground arith
stivale2_get_tag-first_tag m id (suc fuel) tag (t ∷ ts) chain enough =
    ground (arith, chain, stivale2_get_tag-first_tag m id fuel (next m t) ts)
