-- ===== src/Timer/Events.antt =====
-- When the next timer fires, and that no timer of a removed class fires
-- (src-api/subsystems/oonf_timer.c).
use oonf_api.Base.{
  ℕ, ◌+◌, ◌-◌, ◌^◌, ◌≤◌, ◌≡◌, ◌≢◌, refl, sym, ◌∙◌, ap, true, false, ◌==◌, Bool-cases, ◌⊎◌, inl, inr,
  List, [], ◌∷◌, arith,
}
use oonf_api.Timer.Order.{count, AreFrom-count}
use oonf_api.Timer.Running.{IsRunning, oonf_timer_stop-clock, stop_all-IsRunning}
use oonf_api.Timer.{
  Scheduler, oonf_timer_stop, stop_all, oonf_timer_remove, oonf_timer_get_next_event,
}

-- The next event is the largest 64-bit number when no timer runs, and otherwise the time of a
-- running timer, such that no running timer has an earlier time.
pub oonf_timer_get_next_event-least :
    (st : Scheduler)
    → IsRunning st
    → (((t : ℕ) → (st.entry t).clock ≡ 0) × (oonf_timer_get_next_event st ≡ 2 ^ 64 - 1))
      ⊎ ((t : ℕ) × ((st.entry t).clock ≢ 0)
          × (oonf_timer_get_next_event st ≡ (st.entry t).clock)
          × ((u : ℕ) → (st.entry u).clock ≢ 0 → oonf_timer_get_next_event st ≤ (st.entry u).clock))
unfolding oonf_timer_get_next_event
oonf_timer_get_next_event-least st h = by_tree st.timer_tree refl
  where
    stands : (u : ℕ) → (st.entry u).clock ≢ 0 → count u st.timer_tree ≡ 1
    stands u runs =
        let set : ((st.entry u).clock == 0) ≡ false = ground arith in h.once u ∙ rw set refl

    by_tree :
        (tree : List ℕ)
        → st.timer_tree ≡ tree
        → (((t : ℕ) → (st.entry t).clock ≡ 0) × (oonf_timer_get_next_event st ≡ 2 ^ 64 - 1))
          ⊎ ((t : ℕ) × ((st.entry t).clock ≢ 0)
              × (oonf_timer_get_next_event st ≡ (st.entry t).clock)
              × ((u : ℕ)
                  → (st.entry u).clock ≢ 0
                  → oonf_timer_get_next_event st ≤ (st.entry u).clock))
    by_tree [] e = inl (
      λ t. elim (Bool-cases ((st.entry t).clock == 0)) [
        | inl idle ↦ ground arith
        | inr runs ↦
            let there : count t st.timer_tree ≡ 1 = stands t (ground arith) in
            absurd (omega (arith, rw e at there))
      ],
      rw e refl,
    )
    by_tree (t ∷ tree) e =
        let ordered = rw e at h.ordered in
        inr (
          t,
          λ idle.
              let same : (t == t) ≡ true = ground arith in
              let gone : count t st.timer_tree ≡ 0 = h.once t ∙ rw idle refl in
              let here : count t (t ∷ tree) ≡ 1 + count t tree = rw same refl in
              absurd (omega (arith, rw e at gone, here)),
          rw e refl,
          λ u runs. rw e (elim (Bool-cases (t == u)) [
            | inl same ↦ let eq : t ≡ u = ground arith in rw eq (omega arith)
            | inr other ↦
                let there : count u st.timer_tree ≡ 1 = stands u runs in
                let behind : count u (t ∷ tree) ≡ 0 + count u tree = rw other refl in
                AreFrom-count st.entry (st.entry t).clock tree u ordered.0
                  (omega (arith, rw e at there, behind))
          ]),
        )

oonf_timer_stop-info :
    (st : Scheduler) (t u : ℕ) → ((oonf_timer_stop st t).entry u).info ≡ (st.entry u).info
unfolding oonf_timer_stop
oonf_timer_stop-info st t u = elim (Bool-cases ((st.entry t).clock == 0)) [
  | inl idle ↦ rw idle refl
  | inr runs ↦ rw runs (elim (Bool-cases (t == u)) [
    | inl same ↦ let e : t ≡ u = ground arith in rw same (ap (λ v. (st.entry v).info) e)
    | inr other ↦ rw other refl
  ])
]

oonf_timer_stop-idle :
    (st : Scheduler) (t u : ℕ) → (st.entry u).clock ≡ 0 → ((oonf_timer_stop st t).entry u).clock ≡ 0
unfolding oonf_timer_stop
oonf_timer_stop-idle st t u h = elim (Bool-cases ((st.entry t).clock == 0)) [
  | inl idle ↦ rw idle h
  | inr runs ↦
      rw runs (elim (Bool-cases (t == u)) [ inl same ↦ rw same refl | inr other ↦ rw other h ])
]

stop_all-idle :
    (st : Scheduler) (timers : List ℕ) (info t : ℕ)
    → (st.entry t).info ≡ info
    → ((st.entry t).clock ≡ 0) ⊎ (count t timers ≢ 0)
    → ((stop_all st timers info).entry t).clock ≡ 0
unfolding stop_all
stop_all-idle st [] info t own (inl idle) = idle
stop_all-idle st [] info t own (inr there) = absurd (there refl)
stop_all-idle st (x ∷ timers) info t own h = elim (Bool-cases ((st.entry x).info == info)) [
  | inl mine ↦
      rw (mine, stop_all)
        (stop_all-idle (oonf_timer_stop st x) timers info t (oonf_timer_stop-info st x t ∙ own)
          (after h (Bool-cases (x == t))))
  | inr other ↦ rw (other, stop_all) (stop_all-idle st timers info t own (passed other h))
]
  where
    after :
        ((st.entry t).clock ≡ 0) ⊎ (count t (x ∷ timers) ≢ 0)
        → ((x == t) ≡ true) ⊎ ((x == t) ≡ false)
        → (((oonf_timer_stop st x).entry t).clock ≡ 0) ⊎ (count t timers ≢ 0)
    after (inl idle) c = inl (oonf_timer_stop-idle st x t idle)
    after (inr there) (inl same) =
        let e : x ≡ t = ground arith in
        inl (ap (λ v. ((oonf_timer_stop st x).entry v).clock) (sym e) ∙ oonf_timer_stop-clock st x)
    after (inr there) (inr other) = inr (λ none_left. there (rw (other, none_left) (omega arith)))

    passed :
        ((st.entry x).info == info) ≡ false
        → ((st.entry t).clock ≡ 0) ⊎ (count t (x ∷ timers) ≢ 0)
        → ((st.entry t).clock ≡ 0) ⊎ (count t timers ≢ 0)
    passed other (inl idle) = inl idle
    passed other (inr there) = elim (Bool-cases (x == t)) [
      | inl same ↦
          let e : x ≡ t = ground arith in
          let mine : (st.entry x).info ≡ info = ap (λ v. (st.entry v).info) e ∙ own in
          absurd (ground arith)
      | inr apart ↦ inr (λ none_left. there (rw (apart, none_left) (omega arith)))
    ]

-- When a class of timers is removed, the tree stays the tree of the running timers, and no timer
-- of the class runs any more.
pub oonf_timer_remove-idle :
    (st : Scheduler) (info : ℕ)
    → IsRunning st
    → IsRunning (oonf_timer_remove st info)
      × ((t : ℕ) → (st.entry t).info ≡ info → ((oonf_timer_remove st info).entry t).clock ≡ 0)
unfolding oonf_timer_remove
oonf_timer_remove-idle st info h = (
  stop_all-IsRunning st st.timer_tree info h,
  λ t own. stop_all-idle st st.timer_tree info t own (elim (Bool-cases ((st.entry t).clock == 0)) [
    | inl idle ↦ inl (ground arith)
    | inr runs ↦
        let there : count t st.timer_tree ≡ 1 = h.once t ∙ rw runs refl in
        inr (λ e. absurd (omega (arith, e, there)))
  ]),
)
