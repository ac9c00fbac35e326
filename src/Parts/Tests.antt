-- ===== src/Parts/Tests.antt =====
-- Pushing on a list of one full part.
use mysqlproxy.Base.{ℕ, ◌≡◌, refl, true, some, [], ◌∷◌}
use mysqlproxy.Parts.{PartList, part, end_part, push, push_part}

abbrev full_list : PartList ℕ
full_list = record { parts = end_part (7 ∷ 8 ∷ []); nalloc = 2 }

push_full :
    push true true full_list 9
    ≡ some (record full_list { parts = part (7 ∷ 8 ∷ []) (end_part (9 ∷ [])) })
unfolding push push_part
push_full = refl
