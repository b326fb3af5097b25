-- ===== src/DuplicateSet/Verdict.antt =====
-- What `_test` (src-api/subsystems/oonf_duplicate_set.c) answers, by the window of the entry.
use oonf_api.Base.{
  ℕ, ◌^◌, ◌≤◌, ◌<◌, ◌≡◌, ◌≢◌, ◌↔◌, ◌⊎◌, inl, inr, Bool, Bool-cases, ◌==◌, ap, ◌∙◌, arith,
}
use oonf_api.Base.Bits.{nth_bit}
use oonf_api.DuplicateSet.{
  DupResult, too_old, duplicate, new, newest, Entry, test_too_old, test_history, test_ahead,
  test_entry,
}
use oonf_api.DuplicateSet.Place.{back_of, counted, Place, same, far, behind, ahead, place}
use oonf_api.DuplicateSet.Window.{Seen, IsWindow, IsKnown, test_history_known, test_history_new}

abbrev answer : Entry → ℕ → Bool → DupResult
answer e s add = (test_entry e s add).1

too_old_answer :
    (e : Entry) (s : ℕ) → ((test_too_old e s).1 ≡ newest) ⊎ ((test_too_old e s).1 ≡ too_old)
unfolding test_too_old
too_old_answer e s = ground arith

ahead_answer : (e : Entry) (s d : ℕ) (add : Bool) → (test_ahead e s d add).1 ≡ newest
unfolding test_ahead
ahead_answer e s d add = ground arith

module _ (e : Entry) (s : ℕ) (add : Bool) (w : IsWindow e) (hs : s < 2 ^ 16) where
  answer_far :
      test_entry e s add ≡ test_too_old e s → (answer e s add ≡ newest) ⊎ (answer e s add ≡ too_old)
  answer_far eq = elim (too_old_answer e s) [
    | inl a ↦ inl (ap (λ r. r.1) eq ∙ a)
    | inr a ↦ inr (ap (λ r. r.1) eq ∙ a)
  ]

  answer_ahead :
      (d : ℕ) → test_entry e s add ≡ test_ahead (counted e) s d add → answer e s add ≡ newest
  answer_ahead d eq = ap (λ r. r.1) eq ∙ ahead_answer (counted e) s d add

  answer_behind :
      (b : ℕ)
      → b < 32
      → test_entry e s add ≡ test_history (counted e) b add
      → ((nth_bit b e.history ≡ 1) × (answer e s add ≡ duplicate))
        ⊎ ((nth_bit b e.history ≢ 1) × (answer e s add ≡ new))
  answer_behind b lt eq = elim (Bool-cases (nth_bit b e.history == 1)) [
    | inl set ↦
        let h : nth_bit b e.history ≡ 1 = ground arith in
        inl (h, ap (λ r. r.1) (eq ∙ test_history_known (counted e) b add lt h))
    | inr clear ↦
        let h : nth_bit b e.history ≢ 1 = ground arith in
        inr (h, ap (λ r. r.1) (eq ∙ test_history_new (counted e) b add lt h))
  ]

  -- The four places, by the window and the answer.
  Answers : Type 0
  Answers =
      (Seen e s × IsKnown (answer e s add))
      ⊎ ((back_of e s < 32) × (¬ (Seen e s)) × (answer e s add ≡ new))
      ⊎ ((32 ≤ back_of e s) × ((answer e s add ≡ newest) ⊎ (answer e s add ≡ too_old)))

  answers : Answers
  unfolding Answers
  answers = by_place (place e s hs w.current_lt)
    where
      by_place : Place e s → Answers
      by_place (same h eq) =
          let z : back_of e s ≡ 0 = omega (arith, w.current_lt) in
          inl ((omega arith, rw z w.current_seen), inr (ap (λ r. r.1) (eq add)))
      by_place (far ne le up eq) = inr (inr (le, answer_far (eq add)))
      by_place (behind b eb lo lt eq) = elim (answer_behind b lt (eq add)) [
        | inl (h, a) ↦ inl ((omega arith, rw (← eb) h), inl a)
        | inr (h, a) ↦ inr (inl (omega arith, (λ k. h (rw eb k.1)), a))
      ]
      by_place (ahead d ed lo hi eq) =
          inr (inr (omega (arith, w.current_lt), inl (answer_ahead d (eq add))))

-- A sequence number is answered as a duplicate or as the current one exactly when the window
-- holds it, whether or not it is to be added.
pub test_entry-IsKnown_iff :
    (e : Entry) (s : ℕ) (add : Bool)
    → IsWindow e
    → s < 2 ^ 16
    → IsKnown (test_entry e s add).1 ↔ Seen e s
unfolding Answers
test_entry-IsKnown_iff e s add w hs = elim (answers e s add w hs) [
  | inl (seen, known) ↦ ((λ _. seen), (λ _. known))
  | inr (inl (lt, unseen, isnew)) ↦
      ((λ k. absurd (unknown k isnew)), (λ seen. absurd (unseen seen)))
  | inr (inr (ge, a)) ↦ ((λ k. absurd (outside k a)), (λ seen. absurd (omega arith)))
]
  where
    unknown : IsKnown (test_entry e s add).1 → (test_entry e s add).1 ≡ new → ⊥
    unknown (inl a) b = cc
    unknown (inr a) b = cc

    outside :
        IsKnown (test_entry e s add).1
        → ((test_entry e s add).1 ≡ newest) ⊎ ((test_entry e s add).1 ≡ too_old)
        → ⊥
    outside (inl a) (inl b) = cc
    outside (inl a) (inr b) = cc
    outside (inr a) (inl b) = cc
    outside (inr a) (inr b) = cc
