-- ===== src/Session/Client.antt =====
-- src/YMSession.c: the side that browses for peers and connects to them. YMConnectionConnect and YMConnectionInit are
-- answers; an address stands at its pointer in `address_at`.
pub mod Connects
pub mod Peers
use yammer.Prelude.{
  ℕ, ◌+◌, Bool, true, false, not, ◌||◌, ◌&&◌, Option, none, some, List, [], ◌∷◌, ◌++◌, Outcome, ok,
  abort, ymassert, ◌>>=◌, ◌>>◌, ◌==◌, if◌then◌else◌,
}
use yammer.Prelude.Bytes.{same_bytes}
use yammer.Dictionary.{Item}
use yammer.Dictionary
use yammer.Address.{Address, is_equal_including_port}
use yammer.Peer.{Peer, set_addresses, set_port}
use yammer.Peer
use yammer.Session.{
  Session, Callbacks, Call, Object, created, retain, release, dispatch_connect, initializing,
  connected, connect_failed, added, resolved, resolve_failed, connection, peer, session, browser,
  stop_browser, through, if_set, add_connection,
}

-- __ym_session_connect
pub record Context : Type 0 where
  pub peer : ℕ
  pub connection : ℕ
  pub more_coming : Bool
  pub user_sync : Bool

-- catch_release
abbrev pub release_context : Context → List Call
release_context sc =
    release session ∷ release (peer sc.peer) ∷ release (connection sc.connection) ∷ []

-- A function of the user that only an asynchronous connect calls.
abbrev pub unless_sync : Context → Bool → Call → Outcome (List Call)
unless_sync sc set call = if sc.user_sync then ok [] else through set call

-- __ym_session_connect_async_proc from the return of YMConnectionConnect to its end, or up to the call of
-- YMConnectionInit, for which the result is true.
unfoldable pub connect_returned : Session → Context → Bool → Outcome (Bool × List Call)
connect_returned s sc okay =
    let failed = (do
      told ← unless_sync sc s.callbacks.connect_failed (connect_failed sc.peer sc.more_coming)
      ok (false, told ++ release_context sc)) in
    if s.interrupted
    then ok (false, release_context sc)
    else (if okay then ok (true, if_set s.callbacks.initializing initializing) else failed)

abbrev pub is_some_left : List ℕ → Bool
is_some_left [] = false
is_some_left (a ∷ as') = true

module _ (is_equal : ℕ → ℕ → Bool) (address_of : ℕ → ℕ) where
  -- The rest of it, from the return of YMConnectionInit.
  unfoldable pub init_returned : Session → Context → Bool → Outcome (Session × List Call)
  init_returned s sc okay =
      let initialized = (do
        (s', calls) ← add_connection is_equal address_of s sc.connection
        told ← unless_sync sc s.callbacks.connected (connected sc.connection)
        ok (s', calls ++ told ++ release_context sc)) in
      if s.interrupted
      then ok (s, release_context sc)
      else (if okay then initialized else ok (s, release_context sc))

  module _ (connects initializes : ℕ → Bool) where
    -- __ym_session_connect_async_proc while no other thread changes the session.
    unfoldable pub connect_proc : Session → Context → Outcome (Session × List Call)
    unfolding connect_returned init_returned
    connect_proc s sc = do
      (goes_on, calls) ← connect_returned s sc (connects sc.connection)
      (s', rest) ← if goes_on then init_returned s sc (initializes sc.connection) else ok (s, [])
      ok (s', calls ++ rest)

    -- YMDispatchAsync leaves the work to another thread, YMDispatchSync waits for its end.
    unfoldable pub dispatch : Session → Context → Outcome (Session × List Call)
    unfolding connect_proc
    dispatch s sc =
        let waited = connect_proc s sc in
        if sc.user_sync
        then waited
        else ok (s, dispatch_connect sc.peer sc.connection sc.more_coming ∷ [])

    module _ (address_at : ℕ → Address) (new_connection : ℕ → ℕ) where
      -- The walk over the connections for one that has the address. It compares the address with itself.
      unfoldable pub is_existing : ℕ → List Item → Bool
      is_existing address [] = false
      is_existing address (i ∷ is) =
          is_equal_including_port (address_at address) (address_at address) false
          || is_existing address is

      -- One round of the loop over the addresses of a peer.
      unfoldable pub connect_address : ℕ → Bool → Session → ℕ → Bool → Outcome (Session × List Call)
      unfolding is_existing dispatch
      connect_address p sync s address more_coming =
          let c = new_connection address in
          let sc : Context = record {
            peer = p;
            connection = c;
            more_coming = more_coming;
            user_sync = sync;
          } in
          let connecting = (do
            (s', calls) ← dispatch s sc
            ok (
              s',
              created (connection c)
                  ∷ retain session
                  ∷ retain (peer p)
                  ∷ retain (connection c)
                  ∷ (calls ++ (release (connection c) ∷ [])),
            )) in
          if is_existing address s.connections.items then ok (s, []) else connecting

      unfoldable pub connect_loop : ℕ → Bool → Session → List ℕ → Outcome (Session × List Call)
      unfolding connect_address
      connect_loop p sync s [] = ok (s, [])
      connect_loop p sync s (a ∷ as') = do
        (s', calls) ← connect_address p sync s a (is_some_left as')
        (s'', rest) ← connect_loop p sync s' as'
        ok (s'', calls ++ rest)

      -- The array of a peer without addresses is NULL, which YMArrayGetCount reads.
      abbrev pub connect_all :
          ℕ → Bool → Session → Option (List ℕ) → Outcome (Bool × Session × List Call)
      connect_all p sync s none = abort
      connect_all p sync s (some addresses) = do
        (s', calls) ← connect_loop p sync s addresses
        ok (true, s', calls)

      -- YMSessionConnectToPeer, not on Apple's systems.
      unfoldable pub connect_to_peer : Session → ℕ → Bool → Outcome (Bool × Session × List Call)
      connect_to_peer s p sync = do
        known ← Dictionary.contains is_equal s.known_peers p
        let connecting = connect_all p sync s (s.peer_at p).addresses
        if known then connecting else ok (false, s, [])

abbrev pub at : (ℕ → Peer) → ℕ → Peer → ℕ → Peer
at peers p new k = if k == p then new else peers k

-- The walk of __ym_mdns_service_removed_func: the key of the last peer with the name.
unfoldable pub last_named : (ℕ → Peer) → List ℕ → Option ℕ → List Item → Option ℕ
last_named peers name found [] = found
last_named peers name found (i ∷ is) =
    last_named peers name (if same_bytes (peers i.value).name name then some i.key else found) is

-- The walk of __ym_mdns_service_resolved_func and of YMSessionGetPeerNamed: the first peer with the name.
unfoldable pub first_named : (ℕ → Peer) → List ℕ → List Item → Option ℕ
first_named peers name [] = none
first_named peers name (i ∷ is) =
    if same_bytes (peers i.value).name name then some i.value else first_named peers name is

unfoldable pub get_peer_named : Session → List ℕ → Option ℕ
unfolding first_named
get_peer_named s name = first_named s.peer_at name s.known_peers.items

-- An unknown name is ymabort. YMRetain does not take the NULL of a service without addresses.
abbrev pub store_resolved :
    Session → Bool → Option ℕ → Option (List ℕ) → ℕ → Outcome (Session × List Call)
store_resolved s success none addresses port = abort
store_resolved s success (some p) none port = abort
store_resolved s success (some p) (some addresses) port = do
  told ←
      if success
      then through s.callbacks.resolved (resolved p)
      else through s.callbacks.resolve_failed (resolve_failed p)
  ok (
    record s {
      peer_at = at s.peer_at p (set_port (set_addresses (s.peer_at p) (some addresses)) port);
    },
    told,
  )

-- __ym_mdns_service_resolved_func
unfoldable pub service_resolved :
    Session → Bool → List ℕ → Option (List ℕ) → ℕ → Outcome (Session × List Call)
unfolding first_named
service_resolved s success name addresses port =
    store_resolved s success (first_named s.peer_at name s.known_peers.items) addresses port

module _ (is_equal : ℕ → ℕ → Bool) where
  -- `browser_resolves` is what YMmDNSBrowserResolve returns.
  unfoldable pub resolve_peer : Session → ℕ → Bool → Outcome Bool
  resolve_peer s p browser_resolves = do
    known ← Dictionary.contains is_equal s.known_peers p
    ok (if known then browser_resolves else false)

  -- __ym_mdns_service_appeared_func; the new peer is at `p`.
  unfoldable pub service_appeared : Session → ℕ → List ℕ → Outcome (Session × List Call)
  service_appeared s p name = do
    (d, effects) ← Dictionary.add is_equal s.known_peers p p
    told ← through s.callbacks.added (added p)
    ok (
      record s { known_peers = d; peer_at = at s.peer_at p (Peer.create (some name) none none) },
      told,
    )

  abbrev pub forget : Session → Option ℕ → Outcome Session
  forget s none = ok s
  forget s (some key) = do
    (d, value, effects) ← Dictionary.remove is_equal s.known_peers key
    ok (record s { known_peers = d })

  -- __ym_mdns_service_removed_func, which calls nothing that the user has set.
  unfoldable pub service_removed : Session → List ℕ → Outcome Session
  unfolding last_named
  service_removed s name = forget s (last_named s.peer_at name none s.known_peers.items)

-- YMSessionStartBrowsing: whether the browser was made, and whether it starts.
unfoldable pub start_browsing : Session → Bool → Bool → Bool × Session
start_browsing s is_made starts =
    if s.browser || not (s.default_connection == 0)
    then (false, s)
    else (is_made && starts, record s { browser = is_made })

-- YMSessionStopBrowsing
unfoldable pub stop_browsing : Session → Bool → Bool × Session × List Call
stop_browsing s stops =
    if s.browser
    then (stops, record s { browser = false }, stop_browser ∷ release browser ∷ [])
    else (true, s, [])
