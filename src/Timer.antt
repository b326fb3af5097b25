-- ===== src/Timer.antt =====
-- The timer scheduler (src-api/subsystems/oonf_timer.c, its inline functions in oonf_timer.h, and
-- `oonf_clock_get_absolute` of oonf_clock.h). Timers and their classes are numbers, with their
-- records in a store; the tree holds the numbers of the running timers. The present time, the
-- random numbers, `RAND_MAX` and the callbacks are arguments. The assertions are not modelled.
pub mod Deadline
pub mod Running
pub mod Order
pub mod Events
pub mod Walk
pub mod Fired
pub mod Round
pub mod Loop
use oonf_api.Base.Exec.{Exec, done, fault, out_of_bounds, ◌>>=◌}
use oonf_api.Base.Int.{ℤ, pos, negsuc}
use oonf_api.Base.Word.{u8, u32, u64, sub32, sub64}
use oonf_api.Base.{
  ℕ, zero, suc, ◌+◌, ◌-◌, ◌*◌, ◌/◌, ◌%◌, ◌^◌, Bool, true, false, not, ◌==◌, ltb, if◌then◌else◌,
  List, [], ◌∷◌, Option, none, some,
}
use oonf_api.Common.SortedTree.{avl_insert}

pub record TimerInfo : Type 0 where
  pub periodic : Bool
  pub usage : ℕ
  pub changes : ℕ
  pub timer_in_callback : Option ℕ
  pub timer_stopped : Bool

pub record TimerEntry : Type 0 where
  pub info : ℕ
  pub jitter_pct : ℕ
  pub period : ℕ
  pub random : ℕ
  pub clock : ℕ

-- `draws` are the random numbers still to come.
pub record Scheduler : Type 0 where
  pub entry : ℕ → TimerEntry
  pub class : ℕ → TimerInfo
  pub timer_tree : List ℕ
  pub scheduling_now : Bool
  pub draws : ℕ → ℕ

abbrev pub timeslice : ℕ
timeslice = 100

-- A store with one record replaced.
abbrev pub put {ℓ} : {A : Type ℓ} → (ℕ → A) → ℕ → A → ℕ → A
put f i x j = if i == j then x else f j

-- The tree without one node.
unfoldable pub avl_remove : List ℕ → ℕ → List ℕ
avl_remove [] t = []
avl_remove (x ∷ xs) t = if x == t then xs else x ∷ avl_remove xs t

-- `_avlcomp_timer`, on the times of two timers.
unfoldable pub avlcomp_timer : ℕ → ℕ → ℤ
avlcomp_timer c1 c2 = if ltb c2 c1 then pos 1 else if ltb c1 c2 then negsuc 0 else pos 0

unfoldable pub tree_insert : (ℕ → TimerEntry) → List ℕ → ℕ → List ℕ
unfolding avl_insert avlcomp_timer
tree_insert entry tree t = avl_insert avlcomp_timer (λ i. (entry i).clock) tree t

unfoldable pub oonf_timer_is_active : TimerEntry → Bool
oonf_timer_is_active t = not (t.clock == 0)

unfoldable pub oonf_timer_get_period : TimerEntry → ℕ
oonf_timer_get_period t = t.period

-- `os_core_random`
unfoldable pub os_core_random : (ℕ → ℕ) → ℕ × (ℕ → ℕ)
os_core_random draws = (draws 0, λ n. draws (suc n))

unfoldable pub is_timer : Option ℕ → ℕ → Bool
is_timer none t = false
is_timer (some i) t = i == t

unfoldable pub oonf_timer_stop : Scheduler → ℕ → Scheduler
unfolding avl_remove is_timer
oonf_timer_stop st t =
    let e = st.entry t in
    if e.clock == 0
    then st
    else let i = st.class e.info in
      record st {
        timer_tree = avl_remove st.timer_tree t;
        entry = put st.entry t (record e { clock = 0; random = 0 });
        class = put st.class e.info (record i {
          usage = sub32 i.usage 1;
          changes = u32 (i.changes + 1);
          timer_stopped = (if is_timer i.timer_in_callback t then true else i.timer_stopped);
        });
      }

-- The timers of a class, stopped in the order of the tree.
unfoldable pub stop_all : Scheduler → List ℕ → ℕ → Scheduler
unfolding oonf_timer_stop
stop_all st [] info = st
stop_all st (t ∷ timers) info =
    stop_all (if (st.entry t).info == info then oonf_timer_stop st t else st) timers info

-- The class leaves the list of classes with it, which is not modelled.
unfoldable pub oonf_timer_remove : Scheduler → ℕ → Scheduler
unfolding stop_all
oonf_timer_remove st info = stop_all st st.timer_tree info

-- The class while one of its timers is in its callback.
unfoldable pub enter_callback : Scheduler → ℕ → Scheduler
enter_callback st t =
    let info = (st.entry t).info in
    let i = st.class info in
    record st {
      class = put st.class info (record i {
        timer_in_callback = some t;
        timer_stopped = false;
        changes = u32 (i.changes + 1);
      });
    }

module _ (rand_max now : ℕ) where
  unfoldable pub oonf_clock_get_absolute : ℕ → ℕ
  oonf_clock_get_absolute relative = u64 (now + relative)

  -- `_calc_clock`: the time at which the timer fires.
  unfoldable pub calc_clock : TimerEntry → ℕ → ℕ
  unfolding oonf_clock_get_absolute
  calc_clock timer rel_time =
      let t =
        if timer.jitter_pct == 0
        then 0
        else u64 (timer.random / (rand_max / timer.jitter_pct) * rel_time) / 100 in
      let rel_time = sub64 rel_time t in
      let clock = u64 (oonf_clock_get_absolute (sub64 rel_time t) + timeslice) in
      clock - clock % timeslice

  unfoldable pub oonf_timer_start_ext : Scheduler → ℕ → ℕ → ℕ → Scheduler
  unfolding calc_clock avl_remove tree_insert os_core_random
  oonf_timer_start_ext st t first interval =
      let e = st.entry t in
      let i = st.class e.info in
      let running = not (e.clock == 0) in
      let tree = if running then avl_remove st.timer_tree t else st.timer_tree in
      let (random, draws) =
        if e.random == 0 then os_core_random st.draws else (e.random, st.draws) in
      let e = record e { random = random } in
      let entry =
        put st.entry t (record e {
          clock = calc_clock e first;
          period = (if i.periodic then interval else 0);
        }) in
      record st {
        entry = entry;
        class = put st.class e.info (record i {
          usage = (if running then i.usage else u32 (i.usage + 1));
          changes = u32 (i.changes + 1);
        });
        timer_tree = tree_insert entry tree t;
        draws = draws;
      }

  unfoldable pub oonf_timer_start : Scheduler → ℕ → ℕ → Scheduler
  unfolding oonf_timer_start_ext
  oonf_timer_start st t rel_time = oonf_timer_start_ext st t rel_time rel_time

  unfoldable pub oonf_timer_set_ext : Scheduler → ℕ → ℕ → ℕ → Scheduler
  unfolding oonf_timer_stop oonf_timer_start_ext
  oonf_timer_set_ext st t first interval =
      if first == 0 then oonf_timer_stop st t else oonf_timer_start_ext st t first interval

  unfoldable pub oonf_timer_set : Scheduler → ℕ → ℕ → Scheduler
  unfolding oonf_timer_set_ext
  oonf_timer_set st t rel_time = oonf_timer_set_ext st t rel_time rel_time

  -- A timer that was not stopped gets a new random number and starts again.
  unfoldable pub restart : Scheduler → ℕ → Scheduler
  unfolding oonf_timer_start os_core_random
  restart st t =
      let (random, draws) = os_core_random st.draws in
      let st = record st {
        entry = put st.entry t (record (st.entry t) { random = random });
        draws = draws;
      } in
      oonf_timer_start st t (st.entry t).period

  -- A due timer in the loop of `oonf_timer_walk`; `callback` is what the class calls for a timer.
  unfoldable pub fire : (ℕ → ℕ → Scheduler → Scheduler) → Scheduler → ℕ → Scheduler
  unfolding enter_callback oonf_timer_stop restart
  fire callback st t =
      let info = (st.entry t).info in
      let st = enter_callback st t in
      let st = if (st.entry t).period == 0 then oonf_timer_stop st t else st in
      let st = callback info t st in if (st.class info).timer_stopped then st else restart st t

  -- The loop of `oonf_timer_walk` on fuel, no state when the fuel is used up. On an empty tree the
  -- head of its list is read as a timer.
  unfoldable pub walk_loop :
      (ℕ → ℕ → Scheduler → Scheduler) → ℕ → Scheduler → Exec (Option Scheduler)
  unfolding fire
  walk_loop callback zero st = done none
  walk_loop callback (suc fuel) st = elim st.timer_tree [
    | [] ↦ fault out_of_bounds
    | t ∷ timers ↦
        let rest = walk_loop callback fuel (fire callback st t) in
        if ltb now (st.entry t).clock then done (some st) else rest
  ]

  unfoldable pub oonf_timer_walk :
      (ℕ → ℕ → Scheduler → Scheduler) → ℕ → Scheduler → Exec (Option Scheduler)
  unfolding walk_loop
  oonf_timer_walk callback fuel st = do
    result ← walk_loop callback fuel (record st { scheduling_now = true })
    done (elim result [ none ↦ none | some st ↦ some (record st { scheduling_now = false }) ])

unfoldable pub oonf_timer_get_next_event : Scheduler → ℕ
oonf_timer_get_next_event st = elim st.timer_tree [
  | [] ↦ 2 ^ 64 - 1
  | t ∷ timers ↦ (st.entry t).clock
]
