-- ===== src/Plexer/State.antt =====
-- src/YMPlexer.c: the state of a plexer and of its streams, and the calls that it makes on them.
-- A stream is a pointer, never NULL, to an object whose pipes and user info stand in `info`; freed
-- user info is none, and to read it stops the model as undefined. The array of downstream source
-- contexts is the list of their streams (Array.Refinement). Names and locks are left out: the
-- functions are run one after the other.
use yammer.Prelude.{
  ℕ, ◌==◌, Bool, true, false, Option, none, some, List, [], ◌∷◌, ◌++◌, Outcome, ok, abort,
  if◌then◌else◌,
}
use yammer.Dictionary.{Dictionary, create}
use yammer.Plexer.Link.{Link}

-- __ym_plexer_stream_user_info, with the bytes in the two pipes of the stream. `up_open` is
-- whether the plexer's end of the upstream pipe is open. rawWritten, which only the log reads, is
-- left out.
pub record StreamInfo : Type 0 where
  pub stream_id : ℕ
  pub is_locally_originated : Bool
  pub user_closed : Bool
  pub raw_read : ℕ
  pub muxer_read : ℕ
  pub muxer_written : ℕ
  pub down : List ℕ
  pub up : List ℕ
  pub up_open : Bool

-- The calls on objects other than the plexer's own, in their order.
pub data Action : Type 0 where
  retain_plexer release_plexer : Action
  retain_stream release_stream : ℕ → Action
  called_new_incoming called_closing : ℕ → Action
  called_interrupted : Action
  schedule_close : ℕ → Action
  destroy_source : Option ℕ → Action
  close_provider : Action
  join_events : Action

pub record Plexer : Type 0 where
  pub link : Link
  pub upstream_source : Bool
  pub downstream_sources : List ℕ
  pub active : Bool
  pub master : Bool
  pub my_streams_even : Bool
  pub streams_by_id : Dictionary
  pub local_stream_id_last : ℕ
  pub interrupted_func : Bool
  pub new_incoming_func : Bool
  pub closing_func : Bool
  pub info : ℕ → Option StreamInfo
  -- The pointer that the next allocation returns.
  pub next_stream : ℕ
  pub log : List Action

-- The dictionary of streams has plain keys, so it never asks YMIsEqual.
abbrev pub no_objects : ℕ → ℕ → Bool
no_objects a b = false

abbrev pub note : Plexer → List Action → Plexer
note p actions = record p { log = p.log ++ actions }

abbrev pub update : (ℕ → Option StreamInfo) → ℕ → Option StreamInfo → ℕ → Option StreamInfo
update info s i t = if t == s then i else info t

abbrev pub set_info : Plexer → ℕ → Option StreamInfo → Plexer
set_info p s i = record p { info = update p.info s i }

abbrev pub or_abort : Option StreamInfo → Outcome StreamInfo
or_abort none = abort
or_abort (some i) = ok i

-- YM_STREAM_INFO
abbrev pub stream_info : Plexer → ℕ → Outcome StreamInfo
stream_info p s = or_abort (p.info s)

-- YMPlexerCreate: `link` is the provider and the upstream descriptor. localStreamIDLast, which only
-- the opening exchange sets, is 0.
unfoldable pub create_plexer : Link → Bool → Plexer
unfolding create
create_plexer link master = record {
  link = link;
  upstream_source = true;
  downstream_sources = [];
  active = false;
  master = master;
  my_streams_even = false;
  streams_by_id = create;
  local_stream_id_last = 0;
  interrupted_func = false;
  new_incoming_func = false;
  closing_func = false;
  info = λ s. none;
  next_stream = 1;
  log = retain_plexer ∷ [];
}
