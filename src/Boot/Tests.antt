-- ===== src/Boot/Tests.antt =====
-- A list of two tags, at 100 and 200.
use apopt_os.Base.{◌≡◌, [], ◌∷◌, some, ◌==◌, if◌then◌else◌, refl, arith}
use apopt_os.Str.{Memory}
use apopt_os.Boot.{read_bytes, next, stivale2_get_tag}
use apopt_os.Boot.Laws.{TagChain, first_tag, stivale2_get_tag-first_tag}

abbrev two_tags : Memory
two_tags x = if x == 100 then 7 else if x == 108 then 200 else if x == 200 then 9 else 0

two_tags-TagChain : TagChain two_tags 100 (100 ∷ 200 ∷ [])
unfolding next read_bytes
two_tags-TagChain = (refl, omega arith, (refl, omega arith, refl))

stivale2_get_tag-first_tag_example :
    stivale2_get_tag two_tags 9 3 100 ≡ some (first_tag two_tags 9 (100 ∷ 200 ∷ []))
stivale2_get_tag-first_tag_example =
    stivale2_get_tag-first_tag two_tags 9 3 100 (100 ∷ 200 ∷ []) two_tags-TagChain (omega arith)
