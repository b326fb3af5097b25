-- ===== src/Timer/Walk.antt =====
-- The loop over the due timers (`oonf_timer_walk`, src-api/subsystems/oonf_timer.c), for callbacks
-- that do not touch the timers.
use oonf_api.Base.{
  ℕ, ◌+◌, ◌*◌, ◌^◌, ◌≤◌, ◌<◌, ◌≡◌, ◌≢◌, refl, ◌∙◌, ap, Bool, true, false, ◌==◌, if◌then◌else◌,
  Bool-cases, inl, inr, arith,
}
use oonf_api.Timer.Order.{IsOrdered-same}
use oonf_api.Timer.Running.{
  IsTree, IsRunning, IsTimely, oonf_timer_stop-IsRunning, oonf_timer_stop-clock,
  oonf_timer_start_ext-IsRunning,
}
use oonf_api.Timer.{
  Scheduler, timeslice, put, is_timer, os_core_random, oonf_timer_stop, oonf_timer_start_ext,
  oonf_timer_start, enter_callback, restart, fire,
}

-- A callback that leaves the timers as they are.
abbrev pub quiet : ℕ → ℕ → Scheduler → Scheduler
quiet info t st = st

module _ (st : Scheduler) (t : ℕ) where
  entered_stopped : ((enter_callback st t).class (st.entry t).info).timer_stopped ≡ false
  unfolding enter_callback
  entered_stopped =
      let own : ((st.entry t).info == (st.entry t).info) ≡ true = ground arith in rw own refl

  stop_stopped :
      ((st.entry t).clock == 0) ≡ false
      → ((oonf_timer_stop (enter_callback st t) t).class (st.entry t).info).timer_stopped ≡ true
  unfolding oonf_timer_stop enter_callback is_timer
  stop_stopped runs =
      let own : ((st.entry t).info == (st.entry t).info) ≡ true = ground arith in
      let same : (t == t) ≡ true = ground arith in rw (runs, own, same) refl

  enter_callback-IsRunning : IsRunning st → IsRunning (enter_callback st t)
  unfolding enter_callback
  enter_callback-IsRunning h = h

module _ (rand_max now : ℕ) where
  -- The end of a round: the timer starts again if it was not stopped.
  finish : ℕ → ℕ → Scheduler → Scheduler
  finish info t st = if (st.class info).timer_stopped then st else restart rand_max now st t

  finish_stopped :
      (info t : ℕ) (st : Scheduler) → (st.class info).timer_stopped ≡ true → finish info t st ≡ st
  unfolding finish
  finish_stopped info t st h = rw h refl

  finish-restart :
      (info t : ℕ) (st : Scheduler)
      → (st.class info).timer_stopped ≡ false
      → finish info t st ≡ restart rand_max now st t
  unfolding finish
  finish-restart info t st h = rw h refl

  module _ (st : Scheduler) (t : ℕ) where
    called : Bool → Scheduler
    called once = if once then oonf_timer_stop (enter_callback st t) t else enter_callback st t

    fire-finish :
        fire rand_max now quiet st t
        ≡ finish (st.entry t).info t (called ((st.entry t).period == 0))
    unfolding fire finish called
    fire-finish = refl

    pub fire_once :
        ((st.entry t).clock == 0) ≡ false
        → ((st.entry t).period == 0) ≡ true
        → fire rand_max now quiet st t ≡ oonf_timer_stop (enter_callback st t) t
    unfolding called
    fire_once runs once =
        fire-finish
        ∙ ap (λ b. finish (st.entry t).info t (called b)) once
        ∙ finish_stopped (st.entry t).info t (oonf_timer_stop (enter_callback st t) t)
            (stop_stopped st t runs)

    pub fire_again :
        ((st.entry t).period == 0) ≡ false
        → fire rand_max now quiet st t ≡ restart rand_max now (enter_callback st t) t
    unfolding called
    fire_again again =
        fire-finish
        ∙ ap (λ b. finish (st.entry t).info t (called b)) again
        ∙ finish-restart (st.entry t).info t (enter_callback st t) (entered_stopped st t)

-- The numbers with which a timer can start again after each firing: those of `IsTimely` for its
-- period, with random numbers of at most `RAND_MAX` only.
pub record IsSteady (rand_max now : ℕ) (st : Scheduler) (t : ℕ) : Type 0 where
  pub pct : (st.entry t).jitter_pct ≤ 50
  pub draw_le : (n : ℕ) → st.draws n ≤ rand_max
  pub max_ge : 32767 ≤ rand_max
  pub product : (st.entry t).jitter_pct * (st.entry t).period < 2 ^ 64
  pub sum : now + (st.entry t).period + timeslice < 2 ^ 64

module _ (st : Scheduler) (t : ℕ) where
  unfoldable pub reseeded : Scheduler
  reseeded = record st {
    entry = put st.entry t (record (st.entry t) { random = (os_core_random st.draws).0 });
    draws = (os_core_random st.draws).1;
  }

  pub reseeded_self : reseeded.entry t ≡ record (st.entry t) { random = st.draws 0 }
  unfolding reseeded os_core_random
  reseeded_self = let same : (t == t) ≡ true = ground arith in rw same refl

  pub reseeded-clock : (u : ℕ) → (reseeded.entry u).clock ≡ (st.entry u).clock
  unfolding reseeded
  reseeded-clock u = elim (Bool-cases (t == u)) [
    | inl same ↦ let e : t ≡ u = ground arith in rw same (ap (λ v. (st.entry v).clock) e)
    | inr other ↦ rw other refl
  ]

  reseeded-IsTree : IsRunning st → IsTree reseeded.entry st.timer_tree
  reseeded-IsTree h = record {
    once = λ u. rw (reseeded-clock u) (h.once u);
    ordered = IsOrdered-same st.entry reseeded.entry reseeded-clock st.timer_tree h.ordered;
  }

  reseeded-IsRunning : IsRunning st → IsRunning reseeded
  unfolding reseeded
  reseeded-IsRunning h = reseeded-IsTree h

  reseeded-IsTimely :
      (rand_max now : ℕ)
      → IsSteady rand_max now st t
      → IsTimely rand_max now reseeded t (st.entry t).period
  unfolding reseeded os_core_random
  reseeded-IsTimely rand_max now ok = record {
    pct = rw reseeded_self ok.pct;
    random_le = rw reseeded_self (ok.draw_le 0);
    draw_le = next_draw;
    max_ge = ok.max_ge;
    product = rw reseeded_self ok.product;
    sum = ok.sum;
  }
    where
      next_draw : reseeded.draws 0 ≤ rand_max
      next_draw = ok.draw_le 1

  pub restart_lem :
      (rand_max now : ℕ)
      → restart rand_max now st t
        ≡ oonf_timer_start_ext rand_max now reseeded t
            (reseeded.entry t).period
            (reseeded.entry t).period
  unfolding restart oonf_timer_start reseeded
  restart_lem rand_max now = refl

restart-IsRunning :
    (rand_max now : ℕ) (st : Scheduler) (t : ℕ)
    → IsRunning st
    → IsSteady rand_max now st t
    → let st' = restart rand_max now st t in
      IsRunning st'
      × (now < (st'.entry t).clock)
      × ((st'.entry t).clock ≤ now + (st.entry t).period + timeslice)
restart-IsRunning rand_max now st t h ok =
    let p : ℕ = (st.entry t).period in
    let back =
      oonf_timer_start_ext-IsRunning rand_max now (reseeded st t) t p p
        (reseeded-IsTimely st t rand_max now ok) (reseeded-IsRunning st t h) in
    let same : ((reseeded st t).entry t).period ≡ p = ap (λ e. e.period) (reseeded_self st t) in
    rw (restart_lem st t rand_max now) (rw same (back.0, back.1, back.2))

enter_callback-IsSteady :
    (rand_max now : ℕ) (st : Scheduler) (t : ℕ)
    → IsSteady rand_max now st t
    → IsSteady rand_max now (enter_callback st t) t
unfolding enter_callback
enter_callback-IsSteady rand_max now st t ok = record {
  pct = ok.pct;
  draw_le = ok.draw_le;
  max_ge = ok.max_ge;
  product = ok.product;
  sum = ok.sum;
}

-- For a running timer, with a jitter of at most 50 percent, the random numbers at most RAND_MAX,
-- which is at least 32767, and no 64-bit overflow in the product of jitter and period or in the next
-- deadline: firing, with a callback that leaves the timers as they are, keeps the tree the sorted
-- tree of the running timers; without a period the timer does not run afterwards, and with one it
-- fires again after the present time and at most one time slice after its period.
pub fire-IsRunning :
    (rand_max now : ℕ) (st : Scheduler) (t : ℕ)
    → IsRunning st
    → (st.entry t).clock ≢ 0
    → IsSteady rand_max now st t
    → let st' = fire rand_max now quiet st t in
      IsRunning st'
      × ((st.entry t).period ≡ 0 → (st'.entry t).clock ≡ 0)
      × ((st.entry t).period ≢ 0
          → (now < (st'.entry t).clock)
            × ((st'.entry t).clock ≤ now + (st.entry t).period + timeslice))
unfolding enter_callback
fire-IsRunning rand_max now st t h runs ok = elim (Bool-cases ((st.entry t).period == 0)) [
  | inl once ↦
      let set : ((st.entry t).clock == 0) ≡ false = ground arith in
      rw (fire_once rand_max now st t set once) (
        oonf_timer_stop-IsRunning (enter_callback st t) t (enter_callback-IsRunning st t h),
        λ e. oonf_timer_stop-clock (enter_callback st t) t,
        λ ne. absurd (ground arith),
      )
  | inr again ↦
      let back =
        restart-IsRunning rand_max now (enter_callback st t) t (enter_callback-IsRunning st t h)
          (enter_callback-IsSteady rand_max now st t ok) in
      rw (fire_again rand_max now st t again)
        (back.0, λ e. absurd (ground arith), λ ne. (back.1, back.2))
]
