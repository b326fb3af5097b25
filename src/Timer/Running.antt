-- ===== src/Timer/Running.antt =====
-- Which timers run (src-api/subsystems/oonf_timer.c): the tree holds each timer that has a time
-- once, and no other, in the order of the times.
use oonf_api.Base.{
  ℕ, ◌+◌, ◌*◌, ◌^◌, ◌≤◌, ◌<◌, ◌≡◌, ◌≢◌, refl, sym, ◌∙◌, ap, true, false, not, ◌==◌, if◌then◌else◌,
  Bool-cases, inl, inr, List, [], ◌∷◌, arith,
}
use oonf_api.Timer.Deadline.{calc_clock-bounds}
use oonf_api.Timer.Order.{
  count, IsOrdered, IsOrdered-avl_remove, IsOrdered-tree_insert, count-tree_insert,
  count-avl_remove, IsOrdered-put,
}
use oonf_api.Timer.{
  TimerEntry, Scheduler, put, timeslice, avl_remove, tree_insert, os_core_random, oonf_timer_stop,
  calc_clock, stop_all, oonf_timer_start_ext, oonf_timer_set_ext, oonf_timer_is_active,
}

pub record IsTree (entry : ℕ → TimerEntry) (tree : List ℕ) : Type 0 where
  pub once : (t : ℕ) → count t tree ≡ (if (entry t).clock == 0 then 0 else 1)
  pub ordered : IsOrdered entry tree

abbrev pub IsRunning : Scheduler → Type 0
IsRunning st = IsTree st.entry st.timer_tree

-- The tree without a timer, whether it runs or not.
abbrev without : (ℕ → TimerEntry) → List ℕ → ℕ → List ℕ
without entry tree t = if not ((entry t).clock == 0) then avl_remove tree t else tree

module _ (entry : ℕ → TimerEntry) (tree : List ℕ) (t : ℕ) (h : IsTree entry tree) where
  count-without_self : count t (without entry tree t) ≡ 0
  count-without_self = elim (Bool-cases ((entry t).clock == 0)) [
    | inl idle ↦ rw idle (h.once t ∙ rw idle refl)
    | inr runs ↦
        let same : (t == t) ≡ true = ground arith in
        let here : count t tree ≡ 1 = h.once t ∙ rw runs refl in
        rw runs (count-avl_remove tree t t ∙ rw (same, here) refl)
  ]

  count-without : (u : ℕ) → (t == u) ≡ false → count u (without entry tree t) ≡ count u tree
  count-without u other = elim (Bool-cases ((entry t).clock == 0)) [
    | inl idle ↦ rw idle refl
    | inr runs ↦ rw runs (count-avl_remove tree t u ∙ rw other (omega arith))
  ]

  IsOrdered-without : IsOrdered entry (without entry tree t)
  IsOrdered-without = elim (Bool-cases ((entry t).clock == 0)) [
    | inl idle ↦ rw idle h.ordered
    | inr runs ↦ rw runs (IsOrdered-avl_remove entry tree t h.ordered)
  ]

  -- A timer that gets the time 0 leaves the tree; one that gets another time is put back.
  IsTree-idle : (e : TimerEntry) → e.clock ≡ 0 → IsTree (put entry t e) (without entry tree t)
  IsTree-idle e idle = record {
    once = λ u. elim (Bool-cases (t == u)) [
      | inl same ↦
          let eq : t ≡ u = ground arith in
          rw (same, idle) (ap (λ v. count v (without entry tree t)) (sym eq) ∙ count-without_self)
      | inr other ↦ rw other (count-without u other ∙ h.once u)
    ];
    ordered = IsOrdered-put entry t e (without entry tree t) count-without_self IsOrdered-without;
  }

  IsTree-set :
      (e : TimerEntry)
      → (e.clock == 0) ≡ false
      → IsTree (put entry t e) (tree_insert (put entry t e) (without entry tree t) t)
  IsTree-set e set = record {
    once = λ u.
        count-tree_insert (put entry t e) (without entry tree t) t u ∙ elim (Bool-cases (t == u)) [
          | inl same ↦
              let eq : t ≡ u = ground arith in
              let gone : count u (without entry tree t) ≡ 0 =
                ap (λ v. count v (without entry tree t)) (sym eq) ∙ count-without_self in
              rw (same, set, gone) refl
          | inr other ↦ rw (other, count-without u other) (omega (arith, h.once u))
        ];
    ordered =
        IsOrdered-tree_insert (put entry t e) (without entry tree t) t
          (IsOrdered-put entry t e (without entry tree t) count-without_self IsOrdered-without);
  }

-- Stopping a timer keeps the tree the tree of the running timers.
pub oonf_timer_stop-IsRunning :
    (st : Scheduler) (t : ℕ) → IsRunning st → IsRunning (oonf_timer_stop st t)
unfolding oonf_timer_stop
oonf_timer_stop-IsRunning st t h = elim (Bool-cases ((st.entry t).clock == 0)) [
  | inl idle ↦ rw idle h
  | inr runs ↦ rw runs (
      rw runs at (
        IsTree-idle st.entry st.timer_tree t h (record (st.entry t) { clock = 0; random = 0 })
          refl))
]

pub oonf_timer_stop-clock : (st : Scheduler) (t : ℕ) → ((oonf_timer_stop st t).entry t).clock ≡ 0
unfolding oonf_timer_stop
oonf_timer_stop-clock st t = elim (Bool-cases ((st.entry t).clock == 0)) [
  | inl idle ↦ rw idle (ground arith)
  | inr runs ↦ let same : (t == t) ≡ true = ground arith in rw (runs, same) refl
]

pub stop_all-IsRunning :
    (st : Scheduler) (timers : List ℕ) (info : ℕ)
    → IsRunning st
    → IsRunning (stop_all st timers info)
unfolding stop_all
stop_all-IsRunning st [] info h = h
stop_all-IsRunning st (t ∷ timers) info h = elim (Bool-cases ((st.entry t).info == info)) [
  | inl own ↦
      rw (own, stop_all)
        (stop_all-IsRunning (oonf_timer_stop st t) timers info (oonf_timer_stop-IsRunning st t h))
  | inr other ↦ rw (other, stop_all) (stop_all-IsRunning st timers info h)
]

-- The numbers with which a timer starts in the future: a jitter of at most half of the interval,
-- random numbers of at most `RAND_MAX`, and sums and products below 2 ^ 64.
pub record IsTimely (rand_max now : ℕ) (st : Scheduler) (t first : ℕ) : Type 0 where
  pub pct : (st.entry t).jitter_pct ≤ 50
  pub random_le : (st.entry t).random ≤ rand_max
  pub draw_le : st.draws 0 ≤ rand_max
  pub max_ge : 32767 ≤ rand_max
  pub product : (st.entry t).jitter_pct * first < 2 ^ 64
  pub sum : now + first + timeslice < 2 ^ 64

-- With a jitter of at most 50 percent, the random numbers at most RAND_MAX, which is at least 32767,
-- and no 64-bit overflow in the product of jitter and first interval or in the deadline: starting a
-- timer keeps the tree the sorted tree of the running timers; the timer fires after the present time
-- and at most one time slice after its first interval, has a period only in a periodic class, and
-- the other timers keep their entries.
pub oonf_timer_start_ext-IsRunning :
    (rand_max now : ℕ) (st : Scheduler) (t first interval : ℕ)
    → IsTimely rand_max now st t first
    → IsRunning st
    → let st' = oonf_timer_start_ext rand_max now st t first interval in
      IsRunning st'
      × (now < (st'.entry t).clock)
      × ((st'.entry t).clock ≤ now + first + timeslice)
      × ((st'.entry t).period ≡ (if (st.class (st.entry t).info).periodic then interval else 0))
      × ((u : ℕ) → t ≢ u → st'.entry u ≡ st.entry u)
unfolding oonf_timer_start_ext os_core_random
oonf_timer_start_ext-IsRunning rand_max now st t first interval ok h =
    let r : ℕ =
      (if (st.entry t).random == 0
        then os_core_random st.draws
        else ((st.entry t).random, st.draws)).0 in
    let e = record (st.entry t) { random = r } in
    let bounds = calc_clock-bounds rand_max now e first drawn ok.max_ge ok.pct ok.product ok.sum in
    let later : (calc_clock rand_max now e first == 0) ≡ false = ground (arith, bounds.1) in
    let same : (t == t) ≡ true = ground arith in
    (
      IsTree-set st.entry st.timer_tree t h _ later,
      rw same bounds.1,
      rw same bounds.2,
      rw same refl,
      λ u ne. let other : (t == u) ≡ false = ground arith in rw other refl,
    )
  where
    drawn :
        (if (st.entry t).random == 0
          then os_core_random st.draws
          else ((st.entry t).random, st.draws)).0
        ≤ rand_max
    drawn = elim (Bool-cases ((st.entry t).random == 0)) [
      | inl fresh ↦ rw fresh ok.draw_le
      | inr cached ↦ rw cached ok.random_le
    ]

-- Setting a timer keeps the tree too, and the timer runs afterwards exactly if its time is not 0.
pub oonf_timer_set_ext-IsRunning :
    (rand_max now : ℕ) (st : Scheduler) (t first interval : ℕ)
    → IsTimely rand_max now st t first
    → IsRunning st
    → let st' = oonf_timer_set_ext rand_max now st t first interval in
      IsRunning st' × (oonf_timer_is_active (st'.entry t) ≡ not (first == 0))
unfolding oonf_timer_set_ext oonf_timer_is_active
oonf_timer_set_ext-IsRunning rand_max now st t first interval ok h =
    elim (Bool-cases (first == 0)) [
      | inl none_given ↦
          rw none_given (oonf_timer_stop-IsRunning st t h, rw (oonf_timer_stop-clock st t) refl)
      | inr given ↦
          let started = oonf_timer_start_ext-IsRunning rand_max now st t first interval ok h in
          let runs : ((oonf_timer_start_ext rand_max now st t first interval).entry t).clock ≢ 0 =
            omega (arith, started.1) in
          let active : (((oonf_timer_start_ext rand_max now st t first interval).entry t).clock
                == 0)
              ≡ false =
            ground arith in
          rw given (started.0, rw active refl)
    ]
