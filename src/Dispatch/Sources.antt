-- ===== src/Dispatch/Sources.antt =====
-- src/YMDispatch.c: sources, which are descriptors with a user that a queue runs when they are ready. The
-- select loop and the threads of the queues share a source through its semaphore.
pub mod Once
use yammer.Prelude.{
  ℕ, zero, suc, ◌+◌, ◌-◌, Bool, true, false, not, ◌&&◌, List, [], ◌∷◌, ◌++◌, if◌then◌else◌, ltb,
  ◌==◌, Option, none, some, Outcome, ok, abort, ◌>>=◌,
}

-- __ym_dispatch_source: `id` is its address, `listed` whether it is in gDispatch->sources, `on_user_queue` whether its
-- queue is a YMDispatchQueueUser, `queued` the entries that were dispatched for it and not yet taken, `running` the
-- threads that run its user. A list has the sources that were not freed, in the order in which they were made, which is
-- that of gDispatch->sources.
pub record DispatchSource : Type 0 where
  pub id : ℕ
  pub listed : Bool
  pub on_user_queue : Bool
  pub writeable : Bool
  pub data_fd : ℕ
  pub servicing_sem : ℕ
  pub queued : ℕ
  pub running : ℕ

-- YMDispatchSourceCreate
unfoldable pub source_create : ℕ → Bool → Bool → ℕ → List DispatchSource → List DispatchSource
source_create id on_user_queue writeable fd sources =
    sources
    ++ (record {
      id = id;
      listed = true;
      on_user_queue = on_user_queue;
      writeable = writeable;
      data_fd = fd;
      servicing_sem = 1;
      queued = 0;
      running = 0;
    }
        ∷ [])

unfoldable pub at_source :
    ℕ → (DispatchSource → DispatchSource) → List DispatchSource → List DispatchSource
at_source id change [] = []
at_source id change (s ∷ ss) = (if s.id == id then change s else s) ∷ at_source id change ss

abbrev pub unlist : DispatchSource → DispatchSource
unlist s = record s { listed = false }

-- The first half of YMDispatchSourceDestroy: the source is taken out of gDispatch->sources, if it is there.
abbrev pub destroy_begin : ℕ → List DispatchSource → List DispatchSource
destroy_begin id = at_source id unlist

-- What the free makes of the source at the address, with the others: `none` is the wait for its semaphore. A source
-- of the main or the global queue is not waited for; if an entry for it is queued, or its user runs, the entry or the
-- thread goes on with freed memory, which is `abort`.
abbrev pub free_source :
    DispatchSource → List DispatchSource → Outcome (Option (List DispatchSource))
free_source s others =
    let waited = if ltb 0 s.servicing_sem then ok (some others) else ok none in
    let not_waited = if s.queued + s.running == 0 then ok (some others) else abort in
    if s.on_user_queue then waited else not_waited

abbrev pub with_source :
    DispatchSource → Option (List DispatchSource) → Outcome (Option (List DispatchSource))
with_source s none = ok none
with_source s (some others) = ok (some (s ∷ others))

-- The second half of YMDispatchSourceDestroy, of a pointer to a source.
unfoldable pub destroy_end : ℕ → List DispatchSource → Outcome (Option (List DispatchSource))
destroy_end id [] = abort
destroy_end id (s ∷ ss) =
    let rest = destroy_end id ss >>= with_source s in if s.id == id then free_source s ss else rest

-- The select loop takes all sources out of its list, without freeing them.
unfoldable pub reset_sources : List DispatchSource → List DispatchSource
reset_sources [] = []
reset_sources (s ∷ ss) = unlist s ∷ reset_sources ss

-- The first loop of a round of the select loop: the descriptors that select() watches, each with whether it is
-- for writing.
unfoldable pub watched : List DispatchSource → List (Bool × ℕ)
watched [] = []
watched (s ∷ ss) =
    let rest = watched ss in
    if s.listed && ltb 0 s.servicing_sem then (s.writeable, s.data_fd) ∷ rest else rest

-- YMSemaphoreTest takes the semaphore if it can, and the source goes to its queue.
abbrev pub dispatch_source : DispatchSource → DispatchSource
dispatch_source s =
    let taken = record s { servicing_sem = s.servicing_sem - 1; queued = s.queued + 1 } in
    if ltb 0 s.servicing_sem then taken else s

-- The second loop: `is_set` is what FD_ISSET says of a descriptor after select().
unfoldable pub select_pass : (Bool → ℕ → Bool) → List DispatchSource → List DispatchSource
select_pass is_set [] = []
select_pass is_set (s ∷ ss) =
    (if s.listed && is_set s.writeable s.data_fd then dispatch_source s else s)
    ∷ select_pass is_set ss

-- A thread takes an entry of the source at an address, and begins to run its user.
abbrev pub begin_service : DispatchSource → DispatchSource
begin_service s =
    let begun = record s { queued = s.queued - 1; running = s.running + 1 } in
    if ltb 0 s.queued then begun else s

-- __ym_source_select_wrapper signals the semaphore when the user has returned.
abbrev pub end_service : DispatchSource → DispatchSource
end_service s =
    let ended = record s { running = s.running - 1; servicing_sem = s.servicing_sem + 1 } in
    if ltb 0 s.running then ended else s
