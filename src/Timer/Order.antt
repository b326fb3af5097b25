-- ===== src/Timer/Order.antt =====
-- The tree of the running timers (src-api/subsystems/oonf_timer.c) as a sorted list: what adding
-- and removing a timer does to the order and to how often each timer stands in it.
use oonf_api.Base.{
  ℕ, ◌+◌, ◌-◌, ◌≤◌, ◌≡◌, ◌≢◌, refl, ◌∙◌, false, ◌==◌, ltb, if◌then◌else◌, Bool-cases, inl, inr,
  List, [], ◌∷◌, arith,
}
use oonf_api.Base.Int.{pos, ltb_ℤ}
use oonf_api.Common.SortedTree.{avl_insert}
use oonf_api.Timer.{TimerEntry, put, avl_remove, avlcomp_timer, tree_insert}

avlcomp_timer-lt : (c d : ℕ) → ltb_ℤ (avlcomp_timer c d) (pos 0) ≡ ltb c d
unfolding avlcomp_timer
avlcomp_timer-lt c d = elim (Bool-cases (ltb d c)) [
  | inl greater ↦ let no : ltb c d ≡ false = ground arith in rw (greater, no) refl
  | inr other ↦ elim (Bool-cases (ltb c d)) [
    | inl less ↦ rw (other, less) refl
    | inr equal ↦ rw (other, equal) refl
  ]
]

-- How often a timer stands in the tree.
abbrev pub count : ℕ → List ℕ → ℕ
count t [] = 0
count t (x ∷ tree) = (if x == t then 1 else 0) + count t tree

module _ (entry : ℕ → TimerEntry) where
  -- No timer of the list fires before a time.
  abbrev pub AreFrom : ℕ → List ℕ → Type 0
  AreFrom c [] = Unit
  AreFrom c (x ∷ tree) = (c ≤ (entry x).clock) × AreFrom c tree

  abbrev pub IsOrdered : List ℕ → Type 0
  IsOrdered [] = Unit
  IsOrdered (x ∷ tree) = AreFrom (entry x).clock tree × IsOrdered tree

  pub AreFrom-le : (c d : ℕ) (tree : List ℕ) → d ≤ c → AreFrom c tree → AreFrom d tree
  AreFrom-le c d [] le h = h
  AreFrom-le c d (x ∷ tree) le h = (omega (arith, h.0), AreFrom-le c d tree le h.1)

  pub AreFrom-count :
      (c : ℕ) (tree : List ℕ) (t : ℕ) → AreFrom c tree → count t tree ≢ 0 → c ≤ (entry t).clock
  AreFrom-count c [] t h some_there = absurd (some_there refl)
  AreFrom-count c (x ∷ tree) t h some_there = elim (Bool-cases (x == t)) [
    | inl same ↦ ground (arith, h.0)
    | inr other ↦ AreFrom-count c tree t h.1 (ground arith)
  ]

  AreFrom-avl_remove :
      (c : ℕ) (tree : List ℕ) (t : ℕ) → AreFrom c tree → AreFrom c (avl_remove tree t)
  unfolding avl_remove
  AreFrom-avl_remove c [] t h = h
  AreFrom-avl_remove c (x ∷ tree) t h = elim (Bool-cases (x == t)) [
    | inl same ↦ rw same h.1
    | inr other ↦ rw other (h.0, AreFrom-avl_remove c tree t h.1)
  ]

  pub IsOrdered-avl_remove :
      (tree : List ℕ) (t : ℕ) → IsOrdered tree → IsOrdered (avl_remove tree t)
  unfolding avl_remove
  IsOrdered-avl_remove [] t h = h
  IsOrdered-avl_remove (x ∷ tree) t h = elim (Bool-cases (x == t)) [
    | inl same ↦ rw same h.1
    | inr other ↦
        rw other (AreFrom-avl_remove (entry x).clock tree t h.0, IsOrdered-avl_remove tree t h.1)
  ]

  -- Where the comparator puts a timer.
  pub tree_insert-step :
      (x t : ℕ) (tree : List ℕ)
      → tree_insert entry (x ∷ tree) t ≡ (
          if ltb (entry t).clock (entry x).clock
          then t ∷ x ∷ tree
          else x ∷ tree_insert entry tree t)
  unfolding tree_insert avl_insert avlcomp_timer
  tree_insert-step x t tree = rw (avlcomp_timer-lt (entry t).clock (entry x).clock) refl

  AreFrom-tree_insert :
      (c : ℕ) (tree : List ℕ) (t : ℕ)
      → c ≤ (entry t).clock
      → AreFrom c tree
      → AreFrom c (tree_insert entry tree t)
  unfolding tree_insert avl_insert
  AreFrom-tree_insert c [] t le h = (le, h)
  AreFrom-tree_insert c (x ∷ tree) t le h =
      rw tree_insert-step (elim (Bool-cases (ltb (entry t).clock (entry x).clock)) [
        | inl before ↦ rw before (le, h)
        | inr behind ↦ rw behind (h.0, AreFrom-tree_insert c tree t le h.1)
      ])

  pub IsOrdered-tree_insert :
      (tree : List ℕ) (t : ℕ) → IsOrdered tree → IsOrdered (tree_insert entry tree t)
  unfolding tree_insert avl_insert
  IsOrdered-tree_insert [] t h = (tt, tt)
  IsOrdered-tree_insert (x ∷ tree) t h =
      rw tree_insert-step (elim (Bool-cases (ltb (entry t).clock (entry x).clock)) [
        | inl before ↦
            let le : (entry t).clock ≤ (entry x).clock = ground arith in
            rw before ((le, AreFrom-le _ _ tree le h.0), h)
        | inr behind ↦ rw behind (
          AreFrom-tree_insert (entry x).clock tree t (ground arith) h.0,
          IsOrdered-tree_insert tree t h.1,
        )
      ])

  pub count-tree_insert :
      (tree : List ℕ) (t u : ℕ)
      → count u (tree_insert entry tree t) ≡ count u tree + (if t == u then 1 else 0)
  unfolding tree_insert avl_insert
  count-tree_insert [] t u = omega arith
  count-tree_insert (x ∷ tree) t u =
      rw tree_insert-step (elim (Bool-cases (ltb (entry t).clock (entry x).clock)) [
        | inl before ↦ rw before (omega arith)
        | inr behind ↦ rw behind (omega (arith, count-tree_insert tree t u))
      ])

pub count-avl_remove :
    (tree : List ℕ) (t u : ℕ)
    → count u (avl_remove tree t) ≡ count u tree - (if t == u then 1 else 0)
unfolding avl_remove
count-avl_remove [] t u = omega arith
count-avl_remove (x ∷ tree) t u = elim (Bool-cases (x == t)) [
  | inl same ↦ let e : x ≡ t = ground arith in rw (same, e) (omega arith)
  | inr other ↦
      let rest = count-avl_remove tree t u in
      rw other (elim (Bool-cases (x == u)) [
        | inl here ↦
            let apart : (t == u) ≡ false = ground arith in
            let kept : count u (avl_remove tree t) ≡ count u tree = rest ∙ rw apart (omega arith) in
            rw (here, apart, kept) (omega arith)
        | inr there ↦ rw there (omega (arith, rest))
      ])
]

-- A timer that is not in the list has no part in its order.
module _ (entry : ℕ → TimerEntry) (t : ℕ) (e : TimerEntry) where
  AreFrom-put :
      (c : ℕ) (tree : List ℕ)
      → count t tree ≡ 0
      → AreFrom entry c tree
      → AreFrom (put entry t e) c tree
  AreFrom-put c [] none_there h = h
  AreFrom-put c (x ∷ tree) none_there h =
      let other : (t == x) ≡ false = ground arith in
      rw other (h.0, AreFrom-put c tree (omega arith) h.1)

  pub IsOrdered-put :
      (tree : List ℕ) → count t tree ≡ 0 → IsOrdered entry tree → IsOrdered (put entry t e) tree
  IsOrdered-put [] none_there h = h
  IsOrdered-put (x ∷ tree) none_there h =
      let other : (t == x) ≡ false = ground arith in
      rw other (AreFrom-put _ tree (omega arith) h.0, IsOrdered-put tree (omega arith) h.1)

-- Only the times count for the order.
module _ (entry entry' : ℕ → TimerEntry) (same : (t : ℕ) → (entry' t).clock ≡ (entry t).clock) where
  AreFrom-same : (c : ℕ) (tree : List ℕ) → AreFrom entry c tree → AreFrom entry' c tree
  AreFrom-same c [] h = h
  AreFrom-same c (x ∷ tree) h = (rw (same x) h.0, AreFrom-same c tree h.1)

  pub IsOrdered-same : (tree : List ℕ) → IsOrdered entry tree → IsOrdered entry' tree
  IsOrdered-same [] h = h
  IsOrdered-same (x ∷ tree) h = (rw (same x) (AreFrom-same _ tree h.0), IsOrdered-same tree h.1)
