-- ===== src/Timer/Loop.antt =====
-- The loop of `oonf_timer_walk` (src-api/subsystems/oonf_timer.c) ends when no timer is due, for
-- callbacks that leave the timers as they are.
use oonf_api.Base.Exec.{Exec, done, fault, out_of_bounds}
use oonf_api.Base.{
  ℕ, zero, suc, ◌+◌, ◌≤◌, ◌<◌, ◌≡◌, ◌≢◌, refl, ◌∙◌, ap, true, false, ◌==◌, ltb, if◌then◌else◌,
  Bool-cases, inl, inr, List, [], ◌∷◌, Option, some, arith,
}
use oonf_api.Timer.Order.{count, AreFrom, AreFrom-count}
use oonf_api.Timer.Running.{IsRunning}
use oonf_api.Timer.Walk.{quiet}
use oonf_api.Timer.{Scheduler, fire, walk_loop, oonf_timer_walk}
use oonf_api.Timer.Fired.{due}
use oonf_api.Timer.Round.{AreSteady, IsLasting, after, fire-AreSteady, fire-due, fire-IsLasting}

-- The tree is the tree of the running timers, and none of them is due.
pub record IsQuiet (now : ℕ) (st : Scheduler) : Type 0 where
  pub running : IsRunning st
  pub later : (t : ℕ) → (st.entry t).clock ≢ 0 → now < (st.entry t).clock

-- A round of the loop, on a tree that is not empty.
walk_round : ℕ → ℕ → ℕ → Scheduler → ℕ → Exec (Option Scheduler)
walk_round rand_max now fuel st t =
    if ltb now (st.entry t).clock
    then done (some st)
    else walk_loop rand_max now quiet fuel (fire rand_max now quiet st t)

walk_loop-walk_round :
    (rand_max now fuel : ℕ) (st : Scheduler) (t : ℕ) (tree : List ℕ)
    → st.timer_tree ≡ t ∷ tree
    → walk_loop rand_max now quiet (suc fuel) st ≡ walk_round rand_max now fuel st t
unfolding walk_loop walk_round
walk_loop-walk_round rand_max now fuel st t tree e =
    ap
      (λ l. elim l as (λ l. Exec (Option Scheduler)) [
        | [] ↦ fault out_of_bounds
        | x ∷ timers ↦ walk_round rand_max now fuel st x
      ])
      e

first_runs :
    (st : Scheduler) (t : ℕ) (tree : List ℕ)
    → IsRunning st
    → st.timer_tree ≡ t ∷ tree
    → (st.entry t).clock ≢ 0
first_runs st t tree h e idle =
    let same : (t == t) ≡ true = ground arith in
    let gone : count t st.timer_tree ≡ 0 = h.once t ∙ rw idle refl in
    let here : count t (t ∷ tree) ≡ 1 + count t tree = rw same refl in
    absurd (omega (arith, rw e at gone, here))

first_later :
    (now : ℕ) (st : Scheduler) (t : ℕ) (tree : List ℕ)
    → IsRunning st
    → st.timer_tree ≡ t ∷ tree
    → now < (st.entry t).clock
    → IsQuiet now st
first_later now st t tree h e later =
    let ordered = rw e at h.ordered in
    record {
      running = h;
      later = λ u runs.
          let set : ((st.entry u).clock == 0) ≡ false = ground arith in
          let one : count u st.timer_tree ≡ 1 = h.once u ∙ rw set refl in
          let from : AreFrom st.entry (st.entry t).clock (t ∷ tree) = (omega arith, ordered.0) in
          let le : (st.entry t).clock ≤ (st.entry u).clock =
            AreFrom-count st.entry (st.entry t).clock (t ∷ tree) u from
              (omega (arith, rw e at one)) in
          omega (arith, le, later);
    }

walk_loop-IsQuiet :
    (rand_max now fuel : ℕ) (st : Scheduler) (u : ℕ)
    → IsRunning st
    → AreSteady rand_max now st
    → IsLasting now st u
    → due now st.entry st.timer_tree < fuel
    → (st' : Scheduler) × (walk_loop rand_max now quiet fuel st ≡ done (some st')) × IsQuiet now st'
unfolding walk_loop walk_round
walk_loop-IsQuiet rand_max now zero st u h steady last lt = absurd (omega arith)
walk_loop-IsQuiet rand_max now (suc fuel) st u h steady last lt =
    by_tree (λ t. walk_loop-IsQuiet rand_max now fuel (fire rand_max now quiet st t) u)
      st.timer_tree refl
  where
    by_tree :
        ((t : ℕ)
          → IsRunning (fire rand_max now quiet st t)
          → AreSteady rand_max now (fire rand_max now quiet st t)
          → IsLasting now (fire rand_max now quiet st t) u
          → due now (fire rand_max now quiet st t).entry (fire rand_max now quiet st t).timer_tree
            < fuel
          → (st' : Scheduler) × (walk_loop rand_max now quiet fuel (fire rand_max now quiet st t)
              ≡ done (some st'))
            × IsQuiet now st')
        → (tree : List ℕ) → st.timer_tree ≡ tree
        → (st' : Scheduler) × (walk_loop rand_max now quiet (suc fuel) st ≡ done (some st'))
          × IsQuiet now st'
    by_tree again [] e =
        let set : ((st.entry u).clock == 0) ≡ false = ground (arith, last.runs) in
        let one : count u st.timer_tree ≡ 1 = h.once u ∙ rw set refl in
        absurd (omega (arith, rw e at one))
    by_tree again (t ∷ tree) e =
        let runs = first_runs st t tree h e in
        elim (Bool-cases (ltb now (st.entry t).clock)) [
          | inl later ↦ (
            st,
            walk_loop-walk_round rand_max now fuel st t tree e ∙ rw later refl,
            first_later now st t tree h e (ground arith),
          )
          | inr is_due ↦
              let le : (st.entry t).clock ≤ now = ground arith in
              let (st', run, quiet_after) =
                again t (after rand_max now st t h steady runs).0
                  (fire-AreSteady rand_max now st t h steady runs)
                  (fire-IsLasting rand_max now st t h steady runs u le last)
                  (omega (arith, fire-due rand_max now st t h steady runs tree e le)) in
              (st', walk_loop-walk_round rand_max now fuel st t tree e ∙ rw is_due run, quiet_after)
        ]

-- In a sorted tree of the running timers, with a jitter of at most 50 percent for all timers, the
-- random numbers at most RAND_MAX, which is at least 32767, and no 64-bit overflow in the product of
-- jitter and period or in the next deadline: when some timer lasts, because it is periodic or not
-- due, the walk of the scheduler with callbacks that leave the timers as they are ends, if its fuel
-- is more than the number of due timers. The tree is the sorted tree of the running timers then, and
-- all of them fire after the present time.
pub oonf_timer_walk-IsQuiet :
    (rand_max now fuel : ℕ) (st : Scheduler) (u : ℕ)
    → IsRunning st
    → AreSteady rand_max now st
    → IsLasting now st u
    → due now st.entry st.timer_tree < fuel
    → (st' : Scheduler) × (oonf_timer_walk rand_max now quiet fuel st ≡ done (some st'))
      × IsQuiet now st'
unfolding oonf_timer_walk
oonf_timer_walk-IsQuiet rand_max now fuel st u h steady last enough =
    let (st', run, q) =
      walk_loop-IsQuiet rand_max now fuel (record st { scheduling_now = true }) u h steady' last'
        enough in
    (
      record st' { scheduling_now = false },
      rw run refl,
      record { running = q.running; later = q.later },
    )
  where
    steady' : AreSteady rand_max now (record st { scheduling_now = true })
    steady' t = record {
      pct = (steady t).pct;
      draw_le = (steady t).draw_le;
      max_ge = (steady t).max_ge;
      product = (steady t).product;
      sum = (steady t).sum;
    }

    last' : IsLasting now (record st { scheduling_now = true }) u
    last' = record { runs = last.runs; lasts = last.lasts }
