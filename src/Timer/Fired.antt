-- ===== src/Timer/Fired.antt =====
-- What firing a timer changes (`oonf_timer_walk`, src-api/subsystems/oonf_timer.c), for callbacks
-- that leave the timers as they are.
use oonf_api.Base.{
  ℕ, suc, ◌+◌, ◌≤◌, ◌<◌, ◌≡◌, ◌≢◌, refl, ◌∙◌, ap, true, false, ◌==◌, ltb, if◌then◌else◌, Bool-cases,
  ◌⊎◌, inl, inr, List, [], ◌∷◌, arith,
}
use oonf_api.Common.SortedTree.{avl_insert}
use oonf_api.Timer.Order.{count, tree_insert-step}
use oonf_api.Timer.Walk.{quiet, reseeded, reseeded-clock, restart_lem, fire_once, fire_again}
use oonf_api.Timer.{
  TimerEntry, Scheduler, avl_remove, tree_insert, os_core_random, oonf_timer_stop,
  oonf_timer_start_ext, enter_callback, fire,
}

-- How many timers of a list are due.
abbrev pub due : ℕ → (ℕ → TimerEntry) → List ℕ → ℕ
due now entry [] = 0
due now entry (x ∷ tree) = (if ltb now (entry x).clock then 0 else 1) + due now entry tree

pub due-others :
    (now t : ℕ) (entry entry' : ℕ → TimerEntry) (tree : List ℕ)
    → ((u : ℕ) → t ≢ u → entry' u ≡ entry u)
    → count t tree ≡ 0
    → due now entry' tree ≡ due now entry tree
due-others now t entry entry' [] same h = refl
due-others now t entry entry' (x ∷ tree) same h =
    let other : (x == t) ≡ false = ground arith in
    let kept : entry' x ≡ entry x = same x (ground arith) in
    rw kept (
      ap (λ n. (if ltb now (entry x).clock then 0 else 1) + n)
        (due-others now t entry entry' tree same (omega arith)))

pub due-tree_insert :
    (now : ℕ) (entry : ℕ → TimerEntry) (tree : List ℕ) (t : ℕ)
    → now < (entry t).clock
    → due now entry (tree_insert entry tree t) ≡ due now entry tree
unfolding tree_insert avl_insert
due-tree_insert now entry [] t later =
    let l : ltb now (entry t).clock ≡ true = ground arith in rw l refl
due-tree_insert now entry (x ∷ tree) t later =
    let l : ltb now (entry t).clock ≡ true = ground arith in
    rw (tree_insert-step entry) (elim (Bool-cases (ltb (entry t).clock (entry x).clock)) [
      | inl before ↦ rw (before, l) (omega arith)
      | inr behind ↦ rw behind (
          ap (λ n. (if ltb now (entry x).clock then 0 else 1) + n)
            (due-tree_insert now entry tree t later))
    ])

-- What firing a timer changes.
pub record Fired (st st' : Scheduler) (t : ℕ) : Type 0 where
  pub others : (u : ℕ) → t ≢ u → st'.entry u ≡ st.entry u
  pub jitter : (st'.entry t).jitter_pct ≡ (st.entry t).jitter_pct
  pub period : ((st'.entry t).period ≡ (st.entry t).period) ⊎ ((st'.entry t).period ≡ 0)
  pub draws_le : (m : ℕ) → ((n : ℕ) → st.draws n ≤ m) → (n : ℕ) → st'.draws n ≤ m
  pub tree :
      (st'.timer_tree ≡ avl_remove st.timer_tree t)
      ⊎ (st'.timer_tree ≡ tree_insert st'.entry (avl_remove st.timer_tree t) t)

oonf_timer_stop-Fired :
    (st : Scheduler) (t : ℕ) → ((st.entry t).clock == 0) ≡ false → Fired st (oonf_timer_stop st t) t
unfolding oonf_timer_stop
oonf_timer_stop-Fired st t runs =
    let same : (t == t) ≡ true = ground arith in
    rw runs (record {
      others = λ u ne. let other : (t == u) ≡ false = ground arith in rw other refl;
      jitter = rw same refl;
      period = inl (rw same refl);
      draws_le = λ m h n. h n;
      tree = inl refl;
    })

oonf_timer_start_ext-Fired :
    (rand_max now : ℕ) (st : Scheduler) (t first : ℕ)
    → ((st.entry t).clock == 0) ≡ false
    → Fired st (oonf_timer_start_ext rand_max now st t first (st.entry t).period) t
unfolding oonf_timer_start_ext os_core_random
oonf_timer_start_ext-Fired rand_max now st t first runs =
    let same : (t == t) ≡ true = ground arith in
    record {
      others = λ u ne. let other : (t == u) ≡ false = ground arith in rw other refl;
      jitter = rw same refl;
      period = elim (Bool-cases (st.class (st.entry t).info).periodic) [
        | inl yes_periodic ↦ inl (rw (same, yes_periodic) refl)
        | inr once ↦ inr (rw (same, once) refl)
      ];
      draws_le = λ m h n. elim (Bool-cases ((st.entry t).random == 0)) [
        | inl fresh ↦ rw fresh (h (suc n))
        | inr cached ↦ rw cached (h n)
      ];
      tree = inr (rw runs refl);
    }

enter_callback-Fired :
    (st st' : Scheduler) (t : ℕ) → Fired (enter_callback st t) st' t → Fired st st' t
unfolding enter_callback
enter_callback-Fired st st' t h = record {
  others = h.others;
  jitter = h.jitter;
  period = h.period;
  draws_le = h.draws_le;
  tree = h.tree;
}

reseeded-Fired : (st st' : Scheduler) (t : ℕ) → Fired (reseeded st t) st' t → Fired st st' t
unfolding reseeded os_core_random
reseeded-Fired st st' t h =
    let same : (t == t) ≡ true = ground arith in
    record {
      others = λ u ne. let other : (t == u) ≡ false = ground arith in h.others u ne ∙ rw other refl;
      jitter = h.jitter ∙ rw same refl;
      period = elim h.period [ inl e ↦ inl (e ∙ rw same refl) | inr e ↦ inr e ];
      draws_le = λ m le n. h.draws_le m (λ k. le (suc k)) n;
      tree = h.tree;
    }

pub fire-Fired :
    (rand_max now : ℕ) (st : Scheduler) (t : ℕ)
    → ((st.entry t).clock == 0) ≡ false
    → Fired st (fire rand_max now quiet st t) t
unfolding enter_callback
fire-Fired rand_max now st t runs = elim (Bool-cases ((st.entry t).period == 0)) [
  | inl once ↦
      rw (fire_once rand_max now st t runs once)
        (enter_callback-Fired st _ t (oonf_timer_stop-Fired (enter_callback st t) t entered))
  | inr again ↦
      let e : Scheduler = enter_callback st t in
      rw (fire_again rand_max now st t again, restart_lem (enter_callback st t) t rand_max now)
        (enter_callback-Fired st _ t (
          reseeded-Fired e _ t (
            oonf_timer_start_ext-Fired rand_max now (reseeded e t) t ((reseeded e t).entry t).period
              (rw (reseeded-clock e t t) entered))))
]
  where
    entered : (((enter_callback st t).entry t).clock == 0) ≡ false
    entered = runs
