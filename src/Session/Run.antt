-- ===== src/Session/Run.antt =====
-- src/YMSession.c: a session over courses of connects, incoming connections, interruptions and stops. The connects are
-- asynchronous; the interruption of a connection that the session does not hold, which is the first, is not a step, since
-- it releases a connection that YMSessionStop has released before. A step is
-- what a thread does while it holds the session: a connect goes on when YMConnectionConnect and when YMConnectionInit
-- return, and the other steps may come between.
use yammer.Prelude.{ℕ, suc, ◌<◌, ◌≡◌, ◌⊎◌, Bool, true, false, List, [], ◌∷◌, ◌++◌, Option, ok}
use yammer.Address.{Address}
use yammer.Peer.{Peer}
use yammer.Session.{Session, Callbacks, Call, create, interrupt, stop, connection_interrupted}
use yammer.Session.Interrupt.{held}
use yammer.Session.Client.{Context, connect_returned, init_returned, connect_address, is_existing}
use yammer.Session.Server.{init_incoming}
use yammer.Session.Server.Incoming.{IsLive}

abbrev pub async_context : ℕ → ℕ → Bool → Context
async_context p c more_coming = record {
  peer = p;
  connection = c;
  more_coming = more_coming;
  user_sync = false;
}

module _ (eq : ℕ → ℕ → Bool) (address_of : ℕ → ℕ) (address_at : ℕ → Address) where
  -- The session, the connects whose YMConnectionConnect and whose YMConnectionInit has not returned, and all calls.
  pub data Run : Session → List Context → List Context → List Call → Type 0 where
    starts : (callbacks : Callbacks) (peer_at : ℕ → Peer) → Run (create callbacks peer_at) [] [] []
    connects :
        {s s' : Session} {cs is' : List Context} {calls new : List Call} (never : ℕ → Bool)
        (p a : ℕ) (more_coming : Bool) (new_connection : ℕ → ℕ)
        → 0 < new_connection a
        → is_existing eq address_of never never address_at new_connection a s.connections.items
          ≡ false
        → connect_address eq address_of never never address_at new_connection p false s a
            more_coming
          ≡ ok (s', new)
        → Run s cs is' calls
        → Run s' (async_context p (new_connection a) more_coming ∷ cs) is' (calls ++ new)
    connect_ends :
        {s : Session} {is' : List Context} {calls new : List Call} (ps qs : List Context)
        (sc : Context) (okay : Bool)
        → connect_returned s sc okay ≡ ok (false, new)
        → Run s (ps ++ sc ∷ qs) is' calls
        → Run s (ps ++ qs) is' (calls ++ new)
    connect_goes_on :
        {s : Session} {is' : List Context} {calls new : List Call} (ps qs : List Context)
        (sc : Context) (okay : Bool)
        → connect_returned s sc okay ≡ ok (true, new)
        → Run s (ps ++ sc ∷ qs) is' calls
        → Run s (ps ++ qs) (sc ∷ is') (calls ++ new)
    initialized :
        {s s' : Session} {cs : List Context} {calls new : List Call} (ps qs : List Context)
        (sc : Context) (okay : Bool)
        → init_returned eq address_of s sc okay ≡ ok (s', new)
        → Run s cs (ps ++ sc ∷ qs) calls
        → Run s' cs (ps ++ qs) (calls ++ new)
    incoming :
        {s s' : Session} {cs is' : List Context} {calls new : List Call} (a p : ℕ) (accepts : Bool)
        (c : Option ℕ)
        → IsLive c
        → init_incoming eq address_of s a p accepts c ≡ ok (s', new)
        → Run s cs is' calls
        → Run s' cs is' (calls ++ new)
    is_interrupted :
        {s s' : Session} {cs is' : List Context} {calls new : List Call} (chosen : ℕ → ℕ) (c : ℕ)
        → ((m : ℕ) → chosen (suc m) < suc m)
        → (0 < held c s.connections.items) ⊎ (s.interrupted ≡ true)
        → connection_interrupted eq address_of chosen s c ≡ ok (s', new)
        → Run s cs is' calls
        → Run s' cs is' (calls ++ new)
    closes_all :
        {s s' : Session} {cs is' : List Context} {calls new : List Call} (chosen : ℕ → ℕ)
        (first : Bool)
        → ((m : ℕ) → chosen (suc m) < suc m)
        → interrupt eq chosen 0 s ≡ ok (first, s', new)
        → Run s cs is' calls
        → Run s' cs is' (calls ++ new)
    stops :
        {s s' : Session} {cs is' : List Context} {calls new : List Call} (chosen : ℕ → ℕ)
        → ((m : ℕ) → chosen (suc m) < suc m)
        → stop eq chosen s ≡ ok (s', new)
        → Run s cs is' calls
        → Run s' cs is' (calls ++ new)
