-- ===== src/Plexer/Streams.antt =====
-- src/YMPlexer.c: how streams come and go, and how a plexer is interrupted.
use yammer.Prelude.{
  ℕ, ◌+◌, ◌-◌, ◌%◌, ◌==◌, leb, Bool, true, false, not, ◌&&◌, Option, none, some, List, [], ◌∷◌,
  ◌++◌, Outcome, ok, abort, ymassert, ◌>>=◌, ◌>>◌, if◌then◌else◌,
}
use yammer.Dictionary.{Item, Dictionary, enumerator_begin}
use yammer.Dictionary
use yammer.Plexer.Link.{close}
use yammer.Plexer.Messages.{stream_id_max}
use yammer.Plexer.State.{
  Plexer, StreamInfo, retain_plexer, release_plexer, retain_stream, release_stream,
  called_new_incoming, called_closing, called_interrupted, schedule_close, destroy_source,
  close_provider, join_events, no_objects, note, update, set_info, stream_info,
}

-- The loop of __YMPlexerDestroySources over the contexts: the context that `c` ends up with, and
-- the contexts that are left. Where no context matches, `c` is the last one and all are left.
unfoldable pub find_source : Option ℕ → List ℕ → Option ℕ × List ℕ
find_source stream [] = (none, [])
find_source none (c ∷ cs) = (some c, cs)
find_source (some s) (c ∷ []) = if s == c then (some c, []) else (some c, c ∷ [])
find_source (some s) (c ∷ d ∷ cs) =
    let (found, left) = find_source (some s) (d ∷ cs) in
    if s == c then (some c, d ∷ cs) else (found, c ∷ left)

-- __YMPlexerDestroySources: `up` asks for the upstream source, whose pointer the function clears
-- before it hands it on.
unfoldable pub destroy_sources : Plexer → Bool → Option ℕ → Outcome Plexer
destroy_sources p up stream =
    if not p.active
    then ok p
    else (if up && p.upstream_source
        then ok (note (record p { upstream_source = false }) (destroy_source none ∷ []))
        else (let (c, left) = find_source stream p.downstream_sources in
            elim c [
              | none ↦ abort
              | some s ↦
                  ok (note (record p { downstream_sources = left }) (destroy_source (some s) ∷ []))
            ]))

-- The loop of __YMPlexerInterrupt over the dictionary: every stream is hung up and released.
unfoldable pub hang_up : List Item → Plexer → Outcome Plexer
hang_up [] p = ok p
hang_up (e ∷ es) p = do
  i ← stream_info p e.value
  let p' = set_info p e.value (some (record i { up_open = false }))
  hang_up es (note p' (release_stream e.value ∷ []))

-- __ym_plexer_notify_interrupted by way of __YMPlexerCallbackFunctionWithName.
abbrev notify_interrupted : Plexer → Plexer
notify_interrupted p =
    if p.interrupted_func
    then note p (retain_plexer ∷ called_interrupted ∷ release_plexer ∷ [])
    else p

-- __YMPlexerInterrupt: whether this was the first call.
unfoldable pub interrupt : Plexer → Outcome (Plexer × Bool)
interrupt p = if not p.active then ok (p, false) else (do
  let off = record p { active = false }
  up ← (if off.upstream_source then destroy_sources off true none else ok off)
  down ← destroy_sources up false none
  let closed = note (record down { link = (close down.link).1 }) (close_provider ∷ [])
  e ← Dictionary.enumerator_begin closed.streams_by_id
  hung ← hang_up closed.streams_by_id.items closed
  let emptied = record hung { streams_by_id = Dictionary.create }
  ok (note (notify_interrupted emptied) (join_events ∷ []), true))

-- The user info and the pipes of a new stream.
abbrev pub fresh_info : ℕ → Bool → StreamInfo
fresh_info stream_id is_local = record {
  stream_id = stream_id;
  is_locally_originated = is_local;
  user_closed = false;
  raw_read = 0;
  muxer_read = 0;
  muxer_written = 0;
  down = [];
  up = [];
  up_open = true;
}

-- __YMPlexerCreateStreamWithID
unfoldable pub create_stream_with_id : Plexer → ℕ → Bool → Plexer × ℕ
create_stream_with_id p stream_id is_local = (
  record p {
    info = update p.info p.next_stream (some (fresh_info stream_id is_local));
    next_stream = p.next_stream + 1;
    downstream_sources = p.downstream_sources ++ p.next_stream ∷ [];
    log = p.log ++ (retain_plexer ∷ retain_plexer ∷ retain_stream p.next_stream ∷ []);
  },
  p.next_stream,
)

-- The id after `localStreamIDLast`.
unfoldable pub next_stream_id : Bool → ℕ → ℕ
next_stream_id even last =
    if leb (stream_id_max - 1) last then (if even then 0 else 1) else last + 2

-- YMPlexerCreateStream; none is NULL.
unfoldable pub create_stream : Plexer → Outcome (Plexer × Option ℕ)
create_stream p = do
  let id = next_stream_id p.my_streams_even p.local_stream_id_last
  let q = record p { local_stream_id_last = id }
  taken ← Dictionary.contains no_objects q.streams_by_id id
  (if taken then (do (r, first) ← interrupt q; ok (r, none)) else (do
    let (r, s) = create_stream_with_id q id true
    (d, effects) ← Dictionary.add no_objects r.streams_by_id id s
    ok (note (record r { streams_by_id = d }) (retain_stream s ∷ []), some s)))

-- __YMPlexerChooseStreamWithID: the stream, or none for NULL, and whether it is new.
unfoldable pub choose_stream : Plexer → ℕ → Outcome (Plexer × Option ℕ × Bool)
choose_stream p id = do
  found ← Dictionary.get_item no_objects p.streams_by_id id
  (if not (found == 0)
      then ok (p, some found, false)
      else (if id % 2 == 0 && p.my_streams_even
          then (do (q, first) ← interrupt p; ok (q, none, false))
          else (do
            let (q, s) = create_stream_with_id p id false
            let r = note q (retain_stream s ∷ [])
            (d, effects) ← Dictionary.add no_objects r.streams_by_id id s
            ok (record r { streams_by_id = d }, some s, true))))

-- CHECK_REMOVE
unfoldable pub check_remove : Plexer → ℕ → Outcome Plexer
check_remove p id = do
  s ← Dictionary.get_item no_objects p.streams_by_id id
  (if s == 0 then ok p else (do
    (d, value, effects) ← Dictionary.remove no_objects p.streams_by_id id
    i ← stream_info p s
    ok (
        note (set_info (record p { streams_by_id = d }) s none)
          (release_plexer ∷ release_stream s ∷ []))))

-- YMPlexerCloseStream
unfoldable pub close_stream : Plexer → ℕ → Outcome Plexer
close_stream p s = do
  i ← stream_info p s
  ymassert (not i.user_closed)
  ok (
      note p (
        (if i.is_locally_originated && p.active then schedule_close s ∷ [] else [])
        ++ release_stream s ∷ []))

-- __ym_plexer_close_stream: the mark '%' goes into the stream's own downstream pipe.
unfoldable pub close_stream_task : Plexer → ℕ → Outcome Plexer
close_stream_task p s = do
  i ← stream_info p s
  ok (set_info p s (some (record i { user_closed = true; down = i.down ++ b'%' ∷ [] })))

-- __ym_plexer_notify_new_stream by way of __YMPlexerCallbackFunctionWithName.
abbrev pub notify_new_stream : Plexer → ℕ → Plexer
notify_new_stream p s = note p (
    retain_plexer
      ∷ retain_stream s
      ∷ (if p.new_incoming_func then called_new_incoming s ∷ [] else [])
    ++ release_plexer ∷ release_stream s ∷ [])

-- __ym_plexer_notify_stream_closing by way of __YMPlexerCallbackFunctionWithName.
unfoldable pub notify_stream_closing : Plexer → ℕ → Outcome Plexer
notify_stream_closing p s = do
  i ← stream_info p s
  let called = (if p.closing_func then called_closing s ∷ [] else [])
  q ← destroy_sources (note p (retain_plexer ∷ retain_stream s ∷ called)) false (some s)
  r ← check_remove q i.stream_id
  ok (note r (release_plexer ∷ release_stream s ∷ []))

-- YMPlexerSetInterruptedFunc, YMPlexerSetNewIncomingStreamFunc and YMPlexerSetStreamClosingFunc:
-- whether the function is not NULL.
unfoldable pub set_interrupted_func : Plexer → Bool → Plexer
set_interrupted_func p func = record p { interrupted_func = func }

unfoldable pub set_new_incoming_stream_func : Plexer → Bool → Plexer
set_new_incoming_stream_func p func = record p { new_incoming_func = func }

unfoldable pub set_stream_closing_func : Plexer → Bool → Plexer
set_stream_closing_func p func = record p { closing_func = func }

-- _YMPlexerFree: a plexer that was not interrupted before is, then its own objects are released.
unfoldable pub free_plexer : Plexer → Outcome Plexer
free_plexer p = do
  (q, first) ←
      interrupt
        (record p { interrupted_func = false; new_incoming_func = false; closing_func = false })
  ok q

-- YMPlexerStop
unfoldable pub stop : Plexer → Outcome (Plexer × Bool)
stop p = do
  (q, first) ←
      interrupt
        (record p { interrupted_func = false; new_incoming_func = false; closing_func = false })
  ok (note q (join_events ∷ []), first)
