-- ===== src/Session/Server.antt =====
-- src/YMSession.c: the side that advertises itself and takes incoming connections. What the port, the socket, the
-- service and the observer of the network answer are parameters.
pub mod Retry
pub mod Incoming
use yammer.Prelude.{
  ℕ, ◌+◌, Bool, true, false, not, ◌&&◌, ◌||◌, Option, none, some, List, [], ◌∷◌, ◌++◌, Outcome, ok,
  abort, ymassert, ◌>>=◌, ◌>>◌, ◌==◌, ltb, uint16_max, if◌then◌else◌,
}
use yammer.Session.{
  Session, Callbacks, Call, Object, retain, release, initializing, connected, connect_failed,
  connection, peer, address, session, service, dispatch_accept, close_socket, stop_service, through,
  if_set, add_connection,
}

-- What the calls of __ym_session_listen_proc return: the socket of YMPortReserve, none for a failure, and
-- whether listen(), YMmDNSServiceCreate, YMmDNSServiceStart and the observer succeed.
pub record Answers : Type 0 where
  pub reserved : Option ℕ
  pub listens : Bool
  pub creates_service : Bool
  pub starts_service : Bool
  pub observes : Bool

abbrev pub service_ended : Bool → List Call
service_ended true = stop_service ∷ release service ∷ []
service_ended false = []

-- rewind_fail
unfoldable pub rewind : Session → ℕ → Session × List Call
rewind s sock = (
  record s { listen_socket = none; accept_exit_flag = true; service = false },
  close_socket sock ∷ service_ended s.service,
)

-- __ym_session_listen_proc from a socket that listens on. The test after YMmDNSServiceStart is of the session, which
-- is not NULL, so that `okay` is the observer's.
unfoldable pub advertise : Session → ℕ → Answers → Bool × Session × List Call
unfolding rewind
advertise s sock answers =
    let listening : Session = record s { listen_socket = some sock } in
    let (rewound, calls) = rewind listening sock in
    let accepting : List Call = retain session ∷ dispatch_accept ∷ [] in
    if answers.creates_service
    then (
      answers.observes,
      record listening { service = true; observing = answers.observes },
      accepting,
    )
    else (false, rewound, accepting ++ calls)

abbrev pub listen_on : Session → Option ℕ → Answers → Bool × Session × List Call
unfolding rewind advertise
listen_on s none answers = (false, s, [])
listen_on s (some sock) answers =
    let (rewound, calls) = rewind s sock in
    if ltb uint16_max sock
    then (false, s, [])
    else (if answers.listens
        then advertise s sock answers
        else (false, rewound, close_socket sock ∷ calls))

-- YMSessionStartAdvertising, which waits for __ym_session_listen_proc.
unfoldable pub start_advertising : Session → Answers → Bool × Session × List Call
unfolding rewind advertise
start_advertising s answers =
    if s.service || s.accept_queue
    then (false, s, [])
    else listen_on (record s { accept_queue = true }) answers.reserved answers

abbrev pub close_listening : Option ℕ → List Call
close_listening none = []
close_listening (some sock) = close_socket sock ∷ []

abbrev pub is_open : Option ℕ → Bool
is_open none = false
is_open (some sock) = true

-- YMSessionStopAdvertising: whether the socket closes and the service stops.
unfoldable pub stop_advertising : Session → Bool → Bool → Bool × Session × List Call
stop_advertising s closes stops = (
  (closes || not (is_open s.listen_socket)) && (stops || not s.service),
  record s { accept_exit_flag = true; listen_socket = none; service = false; observing = false },
  close_listening s.listen_socket ++ service_ended s.service,
)

-- A round of __ym_session_accept_proc whose accept() returns a socket: what it calls before it hands the socket
-- over to __ym_session_init_incoming_connection_proc.
unfoldable pub accepted : Session → List Call
accepted s = if_set s.callbacks.initializing initializing ++ (retain session ∷ [])

-- catch_release
abbrev pub release_incoming : ℕ → ℕ → Option ℕ → List Call
release_incoming a p none = release (address a) ∷ release (peer p) ∷ release session ∷ []
release_incoming a p (some c) =
    release (address a) ∷ release (peer p) ∷ release (connection c) ∷ release session ∷ []

module _ (is_equal : ℕ → ℕ → Bool) (address_of : ℕ → ℕ) where
  abbrev pub take_incoming : Session → ℕ → ℕ → Option ℕ → Outcome (Session × List Call)
  take_incoming s a p none =
      ok
        (s, if_set s.callbacks.connect_failed (connect_failed p false) ++ release_incoming a p none)
  take_incoming s a p (some c) = do
    (s', calls) ← add_connection is_equal address_of s c
    ymassert (not (s'.default_connection == 0))
    told ← through s.callbacks.connected (connected c)
    ok (s', Call.created (connection c) ∷ (calls ++ told ++ release_incoming a p (some c)))

  -- __ym_session_init_incoming_connection_proc: its address and its peer are new, `accepts` is what the user answers
  -- and `new` what YMConnectionCreateIncoming returns.
  unfoldable pub init_incoming : Session → ℕ → ℕ → Bool → Option ℕ → Outcome (Session × List Call)
  init_incoming s a p accepts new =
      let taken = take_incoming s a p new in
      if s.callbacks.should_accept
      then (if accepts then taken else ok (s, release_incoming a p none))
      else abort
