-- ===== src/Dispatch/Sources/Once.antt =====
-- src/YMDispatch.c: a source is served by one thread at a time.
use yammer.Prelude.{
  ℕ, ◌+◌, ◌≡◌, ◌≢◌, ◌⊎◌, inl, inr, refl, subst, List, [], ◌∷◌, All, Bool, true, false, ◌&&◌, arith,
  ◌==◌, if◌then◌else◌, Bool-cases, Option, none, some, ok, >>=-eq-ok,
}
use yammer.Dispatch.Sources.{
  DispatchSource, source_create, free_source, with_source, destroy_begin, destroy_end, unlist,
  reset_sources, select_pass, dispatch_source, begin_service, end_service, at_source,
}

-- The lists of sources that come about when sources are created at addresses that are not in use and destroyed,
-- rounds of the select loop see whatever select() says, threads begin and end to serve the sources, and the loop resets
-- its list. The free of a source is a step where it does not wait and is not undefined.
pub data Sources : List DispatchSource → Type 0 where
  none_created : Sources []
  created :
      {ss : List DispatchSource} (id : ℕ) (on_user_queue writeable : Bool) (fd : ℕ)
      → All (λ s. s.id ≢ id) ss
      → Sources ss
      → Sources (source_create id on_user_queue writeable fd ss)
  destroy_begun : {ss : List DispatchSource} (id : ℕ) → Sources ss → Sources (destroy_begin id ss)
  destroyed :
      {ss ss' : List DispatchSource} (id : ℕ)
      → destroy_end id ss ≡ ok (some ss')
      → Sources ss
      → Sources ss'
  selected :
      {ss : List DispatchSource} (is_set : Bool → ℕ → Bool)
      → Sources ss
      → Sources (select_pass is_set ss)
  begun : {ss : List DispatchSource} (id : ℕ) → Sources ss → Sources (at_source id begin_service ss)
  ended : {ss : List DispatchSource} (id : ℕ) → Sources ss → Sources (at_source id end_service ss)
  were_reset : {ss : List DispatchSource} → Sources ss → Sources (reset_sources ss)

-- The one token of a source is in its semaphore, in its queue or with a thread.
abbrev pub HasOneToken : DispatchSource → Type 0
HasOneToken s = s.servicing_sem + s.queued + s.running ≡ 1

dispatch_source-HasOneToken : (s : DispatchSource) → HasOneToken s → HasOneToken (dispatch_source s)
dispatch_source-HasOneToken s h = ground arith

begin_service-HasOneToken : (s : DispatchSource) → HasOneToken s → HasOneToken (begin_service s)
begin_service-HasOneToken s h = ground arith

end_service-HasOneToken : (s : DispatchSource) → HasOneToken s → HasOneToken (end_service s)
end_service-HasOneToken s h = ground arith

either-HasOneToken :
    (b : Bool) (s t : DispatchSource)
    → HasOneToken s
    → HasOneToken t
    → HasOneToken (if b then s else t)
either-HasOneToken true s t h k = h
either-HasOneToken false s t h k = k

source_create-All :
    (id : ℕ) (on_user_queue writeable : Bool) (fd : ℕ) (ss : List DispatchSource)
    → All HasOneToken ss
    → All HasOneToken (source_create id on_user_queue writeable fd ss)
unfolding source_create
source_create-All id on_user_queue writeable fd [] h = (refl, tt)
source_create-All id on_user_queue writeable fd (s ∷ ss) (h, hs) =
    (h, source_create-All id on_user_queue writeable fd ss hs)

-- What a free that goes through leaves are the other sources.
free_source-others :
    (s : DispatchSource) (ss ss' : List DispatchSource)
    → free_source s ss ≡ ok (some ss')
    → ss ≡ ss'
free_source-others s ss ss' ran = ground arith

destroy_end-All :
    (id : ℕ) (ss ss' : List DispatchSource)
    → destroy_end id ss ≡ ok (some ss')
    → All HasOneToken ss
    → All HasOneToken ss'
unfolding destroy_end
destroy_end-All id [] ss' ran h = cc
destroy_end-All id (s ∷ ss) ss' ran (h, hs) = elim (Bool-cases (s.id == id)) [
  | inl this ↦ subst (All HasOneToken) (free_source-others s ss ss' (ground arith)) hs
  | inr other ↦
      let (left, deeper, kept) = >>=-eq-ok (destroy_end id ss) (with_source s) (ground arith) in
      go (λ others deep. destroy_end-All id ss others deep hs) left deeper kept
]
  where
    go :
        ((others : List DispatchSource)
          → destroy_end id ss ≡ ok (some others)
          → All HasOneToken others)
        → (left : Option (List DispatchSource)) → destroy_end id ss ≡ ok left
        → with_source s left ≡ ok (some ss')
        → All HasOneToken ss'
    go below none deeper kept = cc
    go below (some others) deeper kept =
        let same : s ∷ others ≡ ss' = cc in subst (All HasOneToken) same (h, below others deeper)

reset_sources-All :
    (ss : List DispatchSource) → All HasOneToken ss → All HasOneToken (reset_sources ss)
unfolding reset_sources
reset_sources-All [] h = tt
reset_sources-All (s ∷ ss) (h, hs) = (h, reset_sources-All ss hs)

select_pass-All :
    (is_set : Bool → ℕ → Bool) (ss : List DispatchSource)
    → All HasOneToken ss
    → All HasOneToken (select_pass is_set ss)
unfolding select_pass
select_pass-All is_set [] h = tt
select_pass-All is_set (s ∷ ss) (h, hs) = (
  either-HasOneToken (s.listed && is_set s.writeable s.data_fd) (dispatch_source s) s
      (dispatch_source-HasOneToken s h) h,
  select_pass-All is_set ss hs,
)

at_source-All :
    (id : ℕ) (change : DispatchSource → DispatchSource)
    → ((s : DispatchSource) → HasOneToken s → HasOneToken (change s))
    → (ss : List DispatchSource) → All HasOneToken ss
    → All HasOneToken (at_source id change ss)
unfolding at_source
at_source-All id change keeps [] h = tt
at_source-All id change keeps (s ∷ ss) (h, hs) = (
  either-HasOneToken (s.id == id) (change s) s (keeps s h) h,
  at_source-All id change keeps ss hs,
)

Sources-All : {ss : List DispatchSource} → Sources ss → All HasOneToken ss
Sources-All none_created = tt
Sources-All (created {ss} id on_user_queue writeable fd free r) =
    source_create-All id on_user_queue writeable fd ss (Sources-All r)
Sources-All (destroy_begun {ss} id r) = at_source-All id unlist (λ s h. h) ss (Sources-All r)
Sources-All (destroyed {ss} {ss'} id ran r) = destroy_end-All id ss ss' ran (Sources-All r)
Sources-All (selected {ss} is_set r) = select_pass-All is_set ss (Sources-All r)
Sources-All (begun {ss} id r) =
    at_source-All id begin_service begin_service-HasOneToken ss (Sources-All r)
Sources-All (ended {ss} id r) =
    at_source-All id end_service end_service-HasOneToken ss (Sources-All r)
Sources-All (were_reset {ss} r) = reset_sources-All ss (Sources-All r)

-- A source that is dispatched or served is so once, and then its semaphore cannot be taken.
abbrev pub IsOnce : DispatchSource → Type 0
IsOnce s =
    ((s.queued + s.running ≡ 0) × (s.servicing_sem ≡ 1))
    ⊎ ((s.queued + s.running ≡ 1) × (s.servicing_sem ≡ 0))

IsOnce-HasOneToken : (s : DispatchSource) → HasOneToken s → IsOnce s
IsOnce-HasOneToken s h = elim (Bool-cases (s.servicing_sem == 0)) [
  | inl busy ↦ inr (ground (arith, h, busy), ground (arith, busy))
  | inr idle ↦ inl (ground (arith, h, idle), ground (arith, h, idle))
]

All-weaken : (ss : List DispatchSource) → All HasOneToken ss → All IsOnce ss
All-weaken [] h = tt
All-weaken (s ∷ ss) (h, hs) = (IsOnce-HasOneToken s h, All-weaken ss hs)

-- As long as no source of the main or the global queue is freed while it is dispatched or served,
-- then however sources come and go, whatever select() reports, and however the threads of the queues
-- take turns, each source is dispatched and not yet served, or served by a thread, once at most at a
-- time. Exactly while it is, its semaphore, which the free of a source of a user queue waits for,
-- cannot be taken.
pub served-IsOnce : (ss : List DispatchSource) → Sources ss → All IsOnce ss
served-IsOnce ss r = All-weaken ss (Sources-All r)
