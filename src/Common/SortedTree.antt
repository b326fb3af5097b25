-- ===== src/Common/SortedTree.antt =====
-- The contents of a tree of src-api/common/avl.h in the order in which the program walks it: a
-- list sorted by the tree's comparator. The balancing of the tree does not show in it.
use oonf_api.Base.{ℕ, ltb, List, [], ◌∷◌, Option, none, some, if◌then◌else◌, Bool, ◌&&◌, ◌==◌}
use oonf_api.Base.Int.{ℤ, pos, negsuc, pos_part, neg_part, ltb_ℤ}

-- Of a comparator's result only the sign counts.
abbrev pub is_zero : ℤ → Bool
is_zero d = pos_part d == 0 && neg_part d == 0

module _ {K A : Type 0} (comp : K → K → ℤ) (key : A → K) where
  -- The element whose key compares as equal.
  unfoldable pub avl_find : List A → K → Option A
  avl_find [] k = none
  avl_find (x ∷ xs) k = if is_zero (comp k (key x)) then some x else avl_find xs k

  -- A new element stands behind all elements with a key that is not larger.
  unfoldable pub avl_insert : List A → A → List A
  avl_insert [] new = new ∷ []
  avl_insert (x ∷ xs) new =
      if ltb_ℤ (comp (key new) (key x)) (pos 0) then new ∷ x ∷ xs else x ∷ avl_insert xs new

-- `avl_comp_uint16`, on two numbers of that width.
unfoldable pub avl_comp_uint16 : ℕ → ℕ → ℤ
avl_comp_uint16 u1 u2 = if ltb u2 u1 then pos 1 else if ltb u1 u2 then negsuc 0 else pos 0
