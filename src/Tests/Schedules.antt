-- ===== src/Tests/Schedules.antt =====
-- src/YMUtilities.c and src/YMDispatch.c on concrete times, timers and queues.
use yammer.Prelude.{
  ◌==◌, false, true, ℕ, ◌<◌, ◌≡◌, ◌⊎◌, ap, refl, inl, inr, false, List, [], ◌∷◌, ◌++◌, All, ok,
  arith,
}
use yammer.Prelude.Integers.{credit, pos, negsuc, ◌+ℤ◌, ◌-ℤ◌}
use yammer.Time.{Timespec, timespec_normalize, carry_up, carry_down, borrow, timespec_compare}
use yammer.Time.Normal.{SameTime, IsNormal, timespec_normalize_lem}
use yammer.Dispatch.{
  User, noop, Entry, Queue, new_queue, add_entry, signal, wait, take_entry, Timer, insert_timer,
  sigalarm,
}
use yammer.Dispatch.Fifo.{Run, woken_takes_first}
use yammer.Dispatch.Sources.{DispatchSource, source_create, select_pass, at_source, destroy_end}
use yammer.Dispatch.Sources.Once.{Sources, IsOnce, served-IsOnce}
use yammer.Dispatch.Timers.{OtherTime, Earlier, Schedule, sigalarm_earliest}

-- Two seconds less 3000000001 nanoseconds.
abbrev early : Timespec
early = record { tv_sec = pos 2; tv_nsec = negsuc 3000000000 }

-- It is -1.000000001 seconds: -2 seconds and 999999999 nanoseconds.
normal_early : timespec_normalize early ≡ record { tv_sec = negsuc 1; tv_nsec = pos 999999999 }
unfolding timespec_normalize carry_up carry_down borrow ◌+ℤ◌ ◌-ℤ◌
normal_early = refl

timespec_normalize_example :
    SameTime (timespec_normalize early) early × IsNormal (timespec_normalize early)
timespec_normalize_example = timespec_normalize_lem early

abbrev user : ℕ → User
user context = record { dispatch_proc = 8; context = context; on_complete_proc = 0; mode = noop }

abbrev entry : ℕ → Entry
entry context = record { user = user context; has_sem = false; is_source = false }

-- Two entries, of which one was signaled, and a thread that was woken.
abbrev woken_queue : Queue
woken_queue = record {
  is_global = false;
  stack = entry 1 ∷ entry 2 ∷ [];
  unsignaled = 1;
  sem = 0;
  woken = 1;
  threads = false ∷ [];
}

woken_queue-Run : Run (entry 1 ∷ entry 2 ∷ []) [] woken_queue
unfolding new_queue add_entry signal wait
woken_queue-Run = Run.waited (omega arith) (
    Run.signaled (omega arith)
      (Run.add (entry 2) (Run.add (entry 1) (Run.start false (false ∷ [])))))

woken_takes_first_example :
    (e : Entry) × (later : List Entry) × (q' : Queue) × (take_entry woken_queue ≡ ok (e, q'))
    × ([] ++ (e ∷ later) ≡ entry 1 ∷ entry 2 ∷ [])
woken_takes_first_example =
    woken_takes_first (entry 1 ∷ entry 2 ∷ []) [] woken_queue woken_queue-Run (omega arith)

abbrev timer : ℕ → ℕ → Timer
timer sec context = record {
  queue = 5;
  time = record { tv_sec = pos sec; tv_nsec = pos 0 };
  dispatch = user context;
}

other_second : (a b x y : ℕ) → a < b ⊎ b < a → OtherTime (timer a x) (timer b y)
other_second a b x y (inl h) e = omega (arith, ap (λ t. credit t.tv_sec) e)
other_second a b x y (inr h) e = omega (arith, ap (λ t. credit t.tv_sec) e)

-- Timers for the seconds 3, 1 and 2, set in this order.
timers-Schedule : Schedule (timer 1 20 ∷ timer 2 30 ∷ timer 3 10 ∷ [])
unfolding insert_timer timespec_compare
timers-Schedule =
    Schedule.set (timer 2 30)
      (other_second 2 1 30 20 (inr (omega arith)), (other_second 2 3 30 10 (inl (omega arith)), tt))
      (Schedule.set (timer 1 20) (other_second 1 3 20 10 (inl (omega arith)), tt)
        (Schedule.set (timer 3 10) tt Schedule.none_set))

sigalarm_earliest_example : All (Earlier (timer 1 20)) (timer 2 30 ∷ timer 3 10 ∷ [])
unfolding sigalarm
sigalarm_earliest_example =
    sigalarm_earliest (timer 1 20 ∷ timer 2 30 ∷ timer 3 10 ∷ []) (timer 2 30 ∷ timer 3 10 ∷ [])
      (timer 1 20) timers-Schedule refl

-- Two sources, both of which are ready in one round; one of a user queue was destroyed before.
abbrev two_sources : List DispatchSource
two_sources =
    record {
      id = 64;
      listed = true;
      on_user_queue = false;
      writeable = false;
      data_fd = 5;
      servicing_sem = 0;
      queued = 1;
      running = 0;
    }
    ∷ record {
      id = 96;
      listed = true;
      on_user_queue = true;
      writeable = true;
      data_fd = 5;
      servicing_sem = 0;
      queued = 1;
      running = 0;
    }
    ∷ []

two_sources-Sources : Sources two_sources
unfolding source_create select_pass at_source destroy_end
two_sources-Sources =
    Sources.selected (λ writeable fd. fd == 5)
      (Sources.created 96 true true 5 (omega arith, tt)
        (Sources.destroyed 32 refl (
          Sources.destroy_begun 32 (
            Sources.created 32 true false 7 (omega arith, tt)
              (Sources.created 64 false false 5 tt Sources.none_created)))))

served-IsOnce_example : All IsOnce two_sources
served-IsOnce_example = served-IsOnce two_sources two_sources-Sources
