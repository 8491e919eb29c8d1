-- ===== src/Dispatch.antt =====
-- src/YMDispatch.c: dispatch queues and timers. A queue's entries are added under its lock and then
-- signaled; a thread of the queue waits for a signal, takes the first entry under the lock and runs
-- it. Other threads may act between any two of these, so that each is a step of its own.
pub mod Fifo
pub mod Timers
pub mod Sources
use yammer.Prelude.{
  ℕ, zero, suc, ◌+◌, ◌-◌, Bool, true, false, not, ◌&&◌, ◌||◌, List, [], ◌∷◌, ◌++◌, length, Option,
  none, some, Outcome, ok, abort, ◌>>=◌, if◌then◌else◌, leb, ◌==◌,
}
use yammer.Prelude.Integers.{ℤ, pos, ◌+ℤ◌}
use yammer.Time.{
  Timespec, timespec_compare, timespec_normalize, ComparisonResult, less_than, equal_to,
  greater_than,
}

-- What a context is for when its user is done with.
pub data ContextMode : Type 0 where
  noop release free other : ContextMode

-- ym_dispatch_user_t
pub record User : Type 0 where
  pub dispatch_proc : ℕ
  pub context : ℕ
  pub on_complete_proc : ℕ
  pub mode : ContextMode

-- __ym_dispatch_dispatch
pub record Entry : Type 0 where
  pub user : User
  pub has_sem : Bool
  pub is_source : Bool

-- `unsignaled` adds that did not yet signal, `sem` the count of the semaphore, `woken` threads that
-- waited and did not yet take an entry, `threads` whether each thread of the queue is busy.
pub record Queue : Type 0 where
  pub is_global : Bool
  pub stack : List Entry
  pub unsignaled : ℕ
  pub sem : ℕ
  pub woken : ℕ
  pub threads : List Bool

unfoldable pub new_queue : Bool → List Bool → Queue
new_queue is_global threads = record {
  is_global = is_global;
  stack = [];
  unsignaled = 0;
  sem = 0;
  woken = 0;
  threads = threads;
}

-- __YMDispatchDispatch: the add, and the signal.
unfoldable pub add_entry : Queue → Entry → Queue
add_entry q e = record q { stack = q.stack ++ (e ∷ []); unsignaled = q.unsignaled + 1 }

unfoldable pub signal : Queue → Queue
signal q = record q { unsignaled = q.unsignaled - 1; sem = q.sem + 1 }

-- __ym_dispatch_service_loop: the wait, and the entry that is taken, where a queue without one has NULL to
-- read from.
unfoldable pub wait : Queue → Queue
wait q = record q { sem = q.sem - 1; woken = q.woken + 1 }

abbrev pub first_entry : List Entry → Outcome (Entry × List Entry)
first_entry [] = abort
first_entry (e ∷ es) = ok (e, es)

unfoldable pub take_entry : Queue → Outcome (Entry × Queue)
take_entry q = do
  (e, es) ← first_entry q.stack
  ok (e, record q { stack = es; woken = q.woken - 1 })

-- What a thread does for an entry.
pub data Effect : Type 0 where
  call : ℕ → ℕ → Effect
  release_context free_context : ℕ → Effect
  signal_sem : Effect

abbrev pub finish_context : ContextMode → ℕ → List Effect
finish_context noop context = []
finish_context release context = release_context context ∷ []
finish_context free context = free_context context ∷ []
finish_context other context = []

-- __YMDispatchUserFinalize
unfoldable pub user_finalize : User → List Effect
user_finalize u =
    let complete = if u.on_complete_proc == 0 then [] else call u.on_complete_proc u.context ∷ [] in
    complete ++ finish_context u.mode u.context

-- The rest of a round of the service loop.
unfoldable pub run_entry : Entry → List Effect
run_entry e =
    let finalized = if e.is_source then [] else user_finalize e.user in
    let waited = if e.has_sem then signal_sem ∷ [] else [] in
    call e.user.dispatch_proc e.user.context ∷ (finalized ++ waited)

abbrev pub all_busy : List Bool → Bool
all_busy [] = true
all_busy (busy ∷ rest) = busy && all_busy rest

-- __YMDispatchCheckExpandGlobalQueue: a new thread is not busy. `default_threads` is what
-- YMGetDefaultThreadsForCores gives.
unfoldable pub check_expand_global_queue : ℕ → Queue → Queue
check_expand_global_queue default_threads q =
    let overflow = leb default_threads (length q.threads) in
    let available = overflow && not (all_busy q.threads) in
    let expanded = record q { threads = q.threads ++ (false ∷ []) } in
    if not q.is_global || available then q else expanded

-- YMDispatchAsync up to its signal.
unfoldable pub dispatch_async : ℕ → Queue → User → Queue
dispatch_async default_threads q user =
    add_entry (check_expand_global_queue default_threads q)
      (record { user = user; has_sem = false; is_source = false })

-- __ym_dispatch_timer, with the queue that it is for.
pub record Timer : Type 0 where
  pub queue : ℕ
  pub time : Timespec
  pub dispatch : User

-- timer->time.tv_nsec++
abbrev pub moved : Timer → Timer
moved t = record t { time = record { tv_sec = t.time.tv_sec; tv_nsec = t.time.tv_nsec +ℤ pos 1 } }

-- What the loop of YMDispatchAfter does at a timer; `rest` is what the further rounds make of `xs`.
abbrev pub place_timer : ComparisonResult → Timer → Timer → List Timer → List Timer → List Timer
place_timer less_than t x xs rest = t ∷ x ∷ xs
place_timer equal_to t x xs rest = x ∷ moved t ∷ xs
place_timer greater_than t x xs rest = x ∷ rest

unfoldable pub insert_timer : Timer → List Timer → List Timer
insert_timer t [] = t ∷ []
insert_timer t (x ∷ xs) = place_timer (timespec_compare t.time x.time) t x xs (insert_timer t xs)

-- YMDispatchAfter: `now` is the clock's time, `delay` the seconds after it as a struct.
unfoldable pub dispatch_after : ℕ → User → Timespec → Timespec → List Timer → List Timer
dispatch_after queue user now delay timers =
    let sum : Timespec = record {
      tv_sec = now.tv_sec +ℤ delay.tv_sec;
      tv_nsec = now.tv_nsec +ℤ delay.tv_nsec;
    } in
    insert_timer (record { queue = queue; time = timespec_normalize sum; dispatch = user }) timers

-- __ym_dispatch_sigalarm: the timer whose user goes to its queue, and the timers that are left.
unfoldable pub sigalarm : List Timer → Outcome (Timer × List Timer)
sigalarm [] = abort
sigalarm (t ∷ ts) = ok (t, ts)
