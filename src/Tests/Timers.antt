-- ===== src/Tests/Timers.antt =====
-- The theorems on the timer scheduler (src-api/subsystems/oonf_timer.c) at inputs.
use oonf_api.Base.{
  Bool-cases, inl, inr, ◌==◌, ◌∷◌, some, ℕ, ◌+◌, ◌-◌, ◌*◌, ◌/◌, ◌%◌, ◌^◌, ◌≤◌, ◌<◌, ◌≡◌, ◌≢◌, ◌⊎◌,
  refl, true, false, [], none, arith,
}
use oonf_api.Timer.Deadline.{calc_clock-bounds}
use oonf_api.Timer.Events.{oonf_timer_get_next_event-least, oonf_timer_remove-idle}
use oonf_api.Timer.Running.{IsRunning, IsTimely, oonf_timer_start_ext-IsRunning}
use oonf_api.Base.Exec.{done}
use oonf_api.Timer.Loop.{IsQuiet, oonf_timer_walk-IsQuiet}
use oonf_api.Timer.Round.{AreSteady}
use oonf_api.Timer.Walk.{IsSteady, quiet, fire-IsRunning}
use oonf_api.Timer.{
  fire, put, oonf_timer_walk, TimerEntry, Scheduler, timeslice, calc_clock, oonf_timer_start_ext,
  oonf_timer_remove, oonf_timer_get_next_event,
}

-- A jitter of ten per cent and a random number in the middle.
abbrev timer : TimerEntry
timer = record { info = 0; jitter_pct = 10; period = 0; random = 1073741824; clock = 0 }

abbrev idle : Scheduler
idle = record {
  entry = λ t. timer;
  class = λ i. record {
    periodic = true;
    usage = 0;
    changes = 0;
    timer_in_callback = none;
    timer_stopped = false;
  };
  timer_tree = [];
  scheduling_now = false;
  draws = λ n. n % 1000;
}

idle-IsRunning : IsRunning idle
idle-IsRunning = record { once = λ t. refl; ordered = tt }

abbrev rand_max : ℕ
rand_max = 2147483647

idle-IsTimely : IsTimely rand_max 5000 idle 3 2000
idle-IsTimely = record {
  pct = omega arith;
  random_le = omega arith;
  draw_le = omega arith;
  max_ge = omega arith;
  product = omega arith;
  sum = omega arith;
}

calc_clock-bounds_example :
    (calc_clock rand_max 5000 timer 2000 % timeslice ≡ 0)
    × (5000 < calc_clock rand_max 5000 timer 2000)
    × (calc_clock rand_max 5000 timer 2000 ≤ 5000 + 2000 + timeslice)
    × (5000 + 2000 < calc_clock rand_max 5000 timer 2000 + 2 * (10 * 2000 / 100))
calc_clock-bounds_example =
    calc_clock-bounds rand_max 5000 timer 2000 (omega arith) (omega arith) (omega arith)
      (omega arith) (omega arith)

abbrev started : Scheduler
started = oonf_timer_start_ext rand_max 5000 idle 3 2000 2000

oonf_timer_start_ext-IsRunning_example :
    IsRunning started
    × (5000 < (started.entry 3).clock)
    × ((started.entry 3).clock ≤ 5000 + 2000 + timeslice)
    × ((started.entry 3).period ≡ 2000)
    × ((u : ℕ) → 3 ≢ u → started.entry u ≡ timer)
oonf_timer_start_ext-IsRunning_example =
    oonf_timer_start_ext-IsRunning rand_max 5000 idle 3 2000 2000 idle-IsTimely idle-IsRunning

started-IsRunning : IsRunning started
started-IsRunning =
    (oonf_timer_start_ext-IsRunning rand_max 5000 idle 3 2000 2000 idle-IsTimely idle-IsRunning).0

oonf_timer_get_next_event-least_example :
    (((t : ℕ) → (started.entry t).clock ≡ 0) × (oonf_timer_get_next_event started ≡ 2 ^ 64 - 1))
    ⊎ ((t : ℕ) × ((started.entry t).clock ≢ 0)
        × (oonf_timer_get_next_event started ≡ (started.entry t).clock)
        × ((u : ℕ)
            → (started.entry u).clock ≢ 0
            → oonf_timer_get_next_event started ≤ (started.entry u).clock))
oonf_timer_get_next_event-least_example = oonf_timer_get_next_event-least started started-IsRunning

oonf_timer_remove-idle_example :
    IsRunning (oonf_timer_remove started 0)
    × ((t : ℕ) → (started.entry t).info ≡ 0 → ((oonf_timer_remove started 0).entry t).clock ≡ 0)
oonf_timer_remove-idle_example = oonf_timer_remove-idle started 0 started-IsRunning

-- Timer 3 is due at 7000 and has a period of 2000.
abbrev due : Scheduler
due = record idle {
  entry = put (λ t. timer) 3 (record timer { period = 2000; clock = 7000 });
  timer_tree = 3 ∷ [];
}

due-IsRunning : IsRunning due
due-IsRunning = record {
  once = λ t. elim (Bool-cases (3 == t)) [ inl same ↦ rw same refl | inr other ↦ rw other refl ];
  ordered = (tt, tt);
}

due-IsSteady : IsSteady rand_max 7000 due 3
due-IsSteady = record {
  pct = omega arith;
  draw_le = λ n. omega arith;
  max_ge = omega arith;
  product = omega arith;
  sum = omega arith;
}

fire-IsRunning_example :
    IsRunning (fire rand_max 7000 quiet due 3)
    × ((due.entry 3).period ≡ 0 → ((fire rand_max 7000 quiet due 3).entry 3).clock ≡ 0)
    × ((due.entry 3).period ≢ 0
        → (7000 < ((fire rand_max 7000 quiet due 3).entry 3).clock)
          × (((fire rand_max 7000 quiet due 3).entry 3).clock ≤ 7000 + 2000 + timeslice))
fire-IsRunning_example = fire-IsRunning rand_max 7000 due 3 due-IsRunning (omega arith) due-IsSteady

due-AreSteady : AreSteady rand_max 7000 due
due-AreSteady t = elim (Bool-cases (3 == t)) [
  | inl same ↦ record {
    pct = rw same (omega arith);
    draw_le = λ n. omega arith;
    max_ge = omega arith;
    product = rw same (omega arith);
    sum = rw same (omega arith);
  }
  | inr other ↦ record {
    pct = rw other (omega arith);
    draw_le = λ n. omega arith;
    max_ge = omega arith;
    product = rw other (omega arith);
    sum = rw other (omega arith);
  }
]

oonf_timer_walk-IsQuiet_example :
    (st' : Scheduler) × (oonf_timer_walk rand_max 7000 quiet 2 due ≡ done (some st'))
    × IsQuiet 7000 st'
oonf_timer_walk-IsQuiet_example =
    oonf_timer_walk-IsQuiet rand_max 7000 2 due 3 due-IsRunning due-AreSteady
      (record { runs = omega arith; lasts = inl (omega arith) }) (omega arith)
