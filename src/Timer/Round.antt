-- ===== src/Timer/Round.antt =====
-- A round of `oonf_timer_walk` (src-api/subsystems/oonf_timer.c), for callbacks that leave the timers
-- as they are: one timer less is due, and a timer that lasts stays.
use oonf_api.Base.{
  ℕ, suc, ◌+◌, ◌≤◌, ◌<◌, ◌≡◌, ◌≢◌, refl, sym, ◌∙◌, ap, true, false, ◌==◌, ltb, Bool-cases, ◌⊎◌, inl,
  inr, List, ◌∷◌, arith,
}
use oonf_api.Timer.Order.{count, count-tree_insert}
use oonf_api.Timer.Running.{IsRunning}
use oonf_api.Timer.Walk.{quiet, IsSteady, fire-IsRunning}
use oonf_api.Timer.{Scheduler, timeslice, avl_remove, tree_insert, fire}
use oonf_api.Timer.Fired.{due, due-others, due-tree_insert, Fired, fire-Fired}

-- Each timer may start again after it has fired.
abbrev pub AreSteady : ℕ → ℕ → Scheduler → Type 0
AreSteady rand_max now st = (t : ℕ) → IsSteady rand_max now st t

-- A timer that is not stopped by firing, or does not fire.
pub record IsLasting (now : ℕ) (st : Scheduler) (t : ℕ) : Type 0 where
  pub runs : (st.entry t).clock ≢ 0
  pub lasts : ((st.entry t).period ≢ 0) ⊎ (now < (st.entry t).clock)

module _ (rand_max now : ℕ) (st : Scheduler) (t : ℕ) (h : IsRunning st)
    (steady : AreSteady rand_max now st) (runs : (st.entry t).clock ≢ 0) where
  abbrev pub next : Scheduler
  next = fire rand_max now quiet st t

  fired : Fired st next t
  fired = fire-Fired rand_max now st t (ground arith)

  period_eq : (u : ℕ) → ((next.entry u).period ≡ (st.entry u).period) ⊎ ((next.entry u).period ≡ 0)
  period_eq u = elim (Bool-cases (t == u)) [
    | inl same ↦ let e : t ≡ u = ground arith in rw (sym e) fired.period
    | inr other ↦ inl (ap (λ e. e.period) (fired.others u (ground arith)))
  ]

  jitter_eq : (u : ℕ) → (next.entry u).jitter_pct ≡ (st.entry u).jitter_pct
  jitter_eq u = elim (Bool-cases (t == u)) [
    | inl same ↦ let e : t ≡ u = ground arith in rw (sym e) fired.jitter
    | inr other ↦ ap (λ e. e.jitter_pct) (fired.others u (ground arith))
  ]

  pub fire-AreSteady : AreSteady rand_max now next
  fire-AreSteady u = record {
    pct = omega (arith, jitter_eq u, (steady u).pct);
    draw_le = fired.draws_le rand_max (steady u).draw_le;
    max_ge = (steady u).max_ge;
    product = elim (period_eq u) [
      | inl e ↦ rw (jitter_eq u, e) (steady u).product
      | inr e ↦ rw e (omega arith)
    ];
    sum = elim (period_eq u) [
      | inl e ↦ rw e (steady u).sum
      | inr e ↦ rw e (omega (arith, (steady u).sum))
    ];
  }

  pub after :
      IsRunning next
      × ((st.entry t).period ≡ 0 → (next.entry t).clock ≡ 0)
      × ((st.entry t).period ≢ 0
          → (now < (next.entry t).clock)
            × ((next.entry t).clock ≤ now + (st.entry t).period + timeslice))
  after = fire-IsRunning rand_max now st t h runs (steady t)

  removed : (tree : List ℕ) → st.timer_tree ≡ t ∷ tree → avl_remove st.timer_tree t ≡ tree
  unfolding avl_remove
  removed tree e = let same : (t == t) ≡ true = ground arith in rw e (rw same refl)

  absent : (tree : List ℕ) → st.timer_tree ≡ t ∷ tree → count t tree ≡ 0
  absent tree e =
      let same : (t == t) ≡ true = ground arith in
      let set : ((st.entry t).clock == 0) ≡ false = ground arith in
      let one : count t st.timer_tree ≡ 1 = h.once t ∙ rw set refl in
      let split : count t (t ∷ tree) ≡ 1 + count t tree = rw same refl in
      omega (arith, rw e at one, split)

  -- If the timer was put back, it is not due.
  back_later :
      (tree : List ℕ) → next.timer_tree ≡ tree_insert next.entry tree t → now < (next.entry t).clock
  back_later tree q = elim (Bool-cases ((st.entry t).period == 0)) [
    | inr again ↦ (after.2 (ground arith)).0
    | inl once ↦
        let idle : (next.entry t).clock ≡ 0 = after.1 (ground arith) in
        let gone : count t next.timer_tree ≡ 0 = after.0.once t ∙ rw idle refl in
        let same : (t == t) ≡ true = ground arith in
        let put_back : count t (tree_insert next.entry tree t) ≡ count t tree + 1 =
          count-tree_insert next.entry tree t t ∙ rw same refl in
        absurd (omega (arith, put_back, ap (count t) (sym q) ∙ gone))
  ]

  -- A due timer at the head of the tree is not due any more, and the others are as they were.
  pub fire-due :
      (tree : List ℕ)
      → st.timer_tree ≡ t ∷ tree
      → (st.entry t).clock ≤ now
      → suc (due now next.entry next.timer_tree) ≡ due now st.entry st.timer_tree
  fire-due tree e le =
      let rest : due now next.entry tree ≡ due now st.entry tree =
        due-others now t st.entry next.entry tree fired.others (absent tree e) in
      let is_due : ltb now (st.entry t).clock ≡ false = ground arith in
      let head : due now st.entry (t ∷ tree) ≡ 1 + due now st.entry tree = rw is_due refl in
      let whole : due now st.entry st.timer_tree ≡ 1 + due now st.entry tree =
        ap (due now st.entry) e ∙ head in
      let left : due now next.entry next.timer_tree ≡ due now next.entry tree = elim fired.tree [
        | inl q ↦ ap (due now next.entry) (q ∙ removed tree e)
        | inr q ↦
            let q' : next.timer_tree ≡ tree_insert next.entry tree t =
              q ∙ ap (λ l. tree_insert next.entry l t) (removed tree e) in
            ap (due now next.entry) q' ∙ due-tree_insert now next.entry tree t (back_later tree q')
      ] in
      omega (arith, left, rest, whole)

  pub fire-IsLasting :
      (u : ℕ) → (st.entry t).clock ≤ now → IsLasting now st u → IsLasting now next u
  fire-IsLasting u le last = elim (Bool-cases (t == u)) [
    | inr other ↦
        let same : next.entry u ≡ st.entry u = fired.others u (ground arith) in
        record {
          runs = λ z. last.runs (ap (λ e. e.clock) (sym same) ∙ z);
          lasts = elim last.lasts [
            | inl p ↦ inl (λ z. p (ap (λ e. e.period) (sym same) ∙ z))
            | inr l ↦ inr (rw same l)
          ];
        }
    | inl same ↦
        let e : u ≡ t = ground arith in
        let periodic : (st.entry t).period ≢ 0 = elim last.lasts [
          | inl p ↦ λ z. p (ap (λ v. (st.entry v).period) e ∙ z)
          | inr l ↦ absurd (omega (arith, l, ap (λ v. (st.entry v).clock) e))
        ] in
        let later = (after.2 periodic).0 in
        rw e (record { runs = omega (arith, later); lasts = inr later })
  ]
