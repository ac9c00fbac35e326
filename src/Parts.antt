-- ===== src/Parts.antt =====
-- core/spy_list.c and core/spy_list.h: lists in parts. A part is the list of the elements that it holds,
-- and the parts come in their order, at least one. Whether the pool has memory for a new part, and for
-- its elements, is an argument.
pub mod Push
mod Tests
use mysqlproxy.Base.{
  ℕ, zero, suc, Bool, true, false, ◌&&◌, Option, none, some, List, [], ◌∷◌, ◌++◌, ◌==◌, map_option,
  if◌then◌else◌,
}

-- the part that ends the list, or a part with `next`
pub data Parts {ℓ} (A : Type ℓ) : Type ℓ where
  end_part : List A → Parts A
  part : List A → Parts A → Parts A

-- `spy_list_t`, less the size of an element
pub record PartList {ℓ} (A : Type ℓ) : Type ℓ where
  pub parts : Parts A
  pub nalloc : ℕ

-- `nelts`
abbrev pub count {ℓ} : {A : Type ℓ} → List A → ℕ
count [] = 0
count (x ∷ xs) = suc (count xs)

-- `spy_list_create` and `spy_list_init`
abbrev pub create {ℓ} : {A : Type ℓ} → Bool → Bool → ℕ → Option (PartList A)
create got_list got_elements n =
    if got_list && got_elements then some (record { parts = end_part []; nalloc = n }) else none

-- `spy_list_push`, with the element that the caller then stores; the last part is looked for from the
-- first one on, where the source keeps a pointer to it
unfoldable pub push_part {ℓ} : {A : Type ℓ} → Bool → Bool → ℕ → Parts A → A → Option (Parts A)
push_part got_part got_elements nalloc (end_part xs) x =
    if count xs == nalloc
    then (if got_part && got_elements then some (part xs (end_part (x ∷ []))) else none)
    else some (end_part (xs ++ x ∷ []))
push_part got_part got_elements nalloc (part xs ps) x =
    map_option (part xs) (push_part got_part got_elements nalloc ps x)

unfoldable pub push {ℓ} : {A : Type ℓ} → Bool → Bool → PartList A → A → Option (PartList A)
unfolding push_part
push got_part got_elements l x =
    map_option (λ ps. record l { parts = ps }) (push_part got_part got_elements l.nalloc l.parts x)
