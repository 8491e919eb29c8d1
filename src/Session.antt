-- ===== src/Session.antt =====
-- src/YMSession.c: the connections of a session, which the address of each is the key of, and how an interruption
-- takes them down. A pointer is a number and 0 is NULL; a peer stands at its pointer in `peer_at`. The two dictionaries
-- are made by YMDictionaryCreate, so that they retain neither keys nor values.
pub mod Client
pub mod Server
pub mod Drain
pub mod Interrupt
pub mod Books
pub mod Endings
pub mod Run
pub mod Accounts
pub mod Late
use yammer.Prelude.{
  ℕ, zero, suc, ◌+◌, Bool, true, false, not, Option, none, some, List, [], ◌∷◌, ◌++◌, Outcome, ok,
  abort, ymassert, ◌>>=◌, ◌>>◌, ◌==◌, if◌then◌else◌,
}
use yammer.Dictionary.{Item, Dictionary, get_random_key, create2}
use yammer.Dictionary
use yammer.Peer.{Peer}

-- Which of the user's functions are not NULL.
pub record Callbacks : Type 0 where
  pub added : Bool
  pub resolve_failed : Bool
  pub resolved : Bool
  pub connect_failed : Bool
  pub should_accept : Bool
  pub initializing : Bool
  pub connected : Bool
  pub interrupted : Bool
  pub new_stream : Bool
  pub stream_closing : Bool

pub record Session : Type 0 where
  pub connections : Dictionary
  pub known_peers : Dictionary
  pub default_connection : ℕ
  pub interrupted : Bool
  pub peer_at : ℕ → Peer
  pub callbacks : Callbacks
  pub browser : Bool
  pub service : Bool
  pub accept_queue : Bool
  pub accept_exit_flag : Bool
  pub observing : Bool
  pub listen_socket : Option ℕ

pub data Object : Type 0 where
  connection peer address : ℕ → Object
  session service browser : Object

-- What a session calls, in order. Those from `initializing` on are the
-- user's functions.
pub data Call : Type 0 where
  created retain release : Object → Call
  close set_callbacks close_socket : ℕ → Call
  dispatch_accept stop_service stop_browser : Call
  dispatch_connect : ℕ → ℕ → Bool → Call
  initializing interrupted : Call
  connected : ℕ → Call
  connect_failed : ℕ → Bool → Call
  new_stream stream_closing : ℕ → ℕ → Call
  added resolved resolve_failed : ℕ → Call

-- A call through a function pointer, which may not be NULL.
abbrev pub through : Bool → Call → Outcome (List Call)
through true call = ok (call ∷ [])
through false call = abort

-- A call that the code makes only if the pointer is not NULL.
abbrev pub if_set : Bool → Call → List Call
if_set true call = call ∷ []
if_set false call = []

-- YMSessionCreate
unfoldable pub create : Callbacks → (ℕ → Peer) → Session
unfolding Dictionary.create
create callbacks peer_at = record {
  connections = Dictionary.create;
  known_peers = Dictionary.create;
  default_connection = 0;
  interrupted = false;
  peer_at = peer_at;
  callbacks = callbacks;
  browser = false;
  service = false;
  accept_queue = false;
  accept_exit_flag = false;
  observing = false;
  listen_socket = none;
}

-- What __YMSessionInterrupt does with a connection.
abbrev pub release_unless : ℕ → ℕ → Outcome (List Call)
release_unless float c = do
  ymassert (not (c == 0))
  ok (if c == float then [] else (release (connection c) ∷ []))

-- What YMSessionStop does with a connection.
abbrev pub close_released : ℕ → Outcome (List Call)
close_released c = ok (close c ∷ release (connection c) ∷ [])

module _ (is_equal : ℕ → ℕ → Bool) where
  -- The loop that takes a random connection out until none is left, of YMSessionStop and of
  -- __YMSessionInterrupt: a round takes one off the count, which is `n`. The n-th value of `chosen` is
  -- what arc4random_uniform returns in the round with count n, and `dispose` is what is done with the
  -- connection.
  unfoldable pub drain :
      (ℕ → Outcome (List Call)) → (ℕ → ℕ) → ℕ → Dictionary → Outcome (Dictionary × List Call)
  drain dispose chosen zero d = ok (d, [])
  drain dispose chosen (suc n) d = do
    key ← get_random_key d (chosen (suc n))
    (d', c, effects) ← Dictionary.remove is_equal d key
    calls ← dispose c
    (d'', rest) ← drain dispose chosen n d'
    ok (d'', calls ++ rest)

  -- __YMSessionInterrupt
  unfoldable pub interrupt : (ℕ → ℕ) → ℕ → Session → Outcome (Bool × Session × List Call)
  interrupt chosen float s =
      let first = (do
        (d, calls) ← drain (release_unless float) chosen s.connections.count s.connections
        ok (
          true,
          record s { interrupted = true; default_connection = 0; connections = d },
          calls,
        )) in
      if s.interrupted then ok (false, s, []) else first

  -- YMSessionStop
  unfoldable pub stop : (ℕ → ℕ) → Session → Outcome (Session × List Call)
  stop chosen s = do
    (d, calls) ← drain close_released chosen s.connections.count s.connections
    ok (record s { connections = d }, calls)

  module _ (address_of : ℕ → ℕ) where
    -- __YMSessionAddConnection
    unfoldable pub add_connection : Session → ℕ → Outcome (Session × List Call)
    add_connection s c = do
      ymassert (not (address_of c == 0))
      held ← Dictionary.contains is_equal s.connections (address_of c)
      ymassert (not held)
      (d, effects) ← Dictionary.add is_equal s.connections (address_of c) c
      let default = if s.default_connection == 0 then c else s.default_connection
      ymassert (not (default == 0))
      ok (
        record s { connections = d; default_connection = default },
        retain (connection c) ∷ set_callbacks c ∷ [],
      )

    -- The connection is taken out of the dictionary if it is still there.
    abbrev pub take_out : Session → ℕ → Bool → Outcome Session
    take_out s c false = ok s
    take_out s c true = do
      (d, value, effects) ← Dictionary.remove is_equal s.connections (address_of c)
      ok (record s { connections = d })

    abbrev pub interrupted_first : ℕ → ℕ → Session × List Call → Outcome (Session × List Call)
    interrupted_first saved_default c (s, calls) = do
      held ← Dictionary.contains is_equal s.connections (address_of c)
      s' ← take_out s c held
      ok (
        s',
        calls
            ++ ((if c == saved_default then if_set s.callbacks.interrupted interrupted else [])
                ++ (release (connection c) ∷ [])),
      )

    -- __ym_session_connection_interrupted_proc
    unfoldable pub connection_interrupted : (ℕ → ℕ) → Session → ℕ → Outcome (Session × List Call)
    connection_interrupted chosen s c = do
      (first, s', calls) ← interrupt chosen c s
      let reported = interrupted_first s.default_connection c (s', calls)
      if first then reported else ok (s', calls)

-- __ym_session_new_stream_proc
unfoldable pub new_stream_proc : Session → ℕ → ℕ → List Call
new_stream_proc s c stream = if_set s.callbacks.new_stream (new_stream c stream)

-- __ym_session_stream_closing_proc
unfoldable pub stream_closing_proc : Session → ℕ → ℕ → List Call
stream_closing_proc s c stream =
    if not (c == s.default_connection)
    then []
    else if_set s.callbacks.stream_closing (stream_closing c stream)

-- The walk of YMSessionCopyConnections, and its array as the list it stands for; none is NULL.
abbrev pub values_of : List Item → List ℕ
values_of [] = []
values_of (i ∷ is) = i.value ∷ values_of is

unfoldable pub copy_connections : Session → Outcome (Option (List ℕ))
copy_connections s = do
  n ← Dictionary.get_count s.connections
  ok (if n == 0 then none else some (values_of s.connections.items))
