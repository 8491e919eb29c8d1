-- ===== src/Session/Accounts.antt =====
-- src/YMSession.c: the references on connections and the reports of an interruption, over any run of a session.
use yammer.Prelude.{
  ℕ, ◌+◌, ◌<◌, ◌≤◌, ◌≡◌, refl, subst, Bool, true, false, List, [], ◌∷◌, ◌++◌, All, arith, ok,
}
use yammer.Address.{Address}
use yammer.Session.{
  Session, Call, create, created, retain, release, connection, peer, session, dispatch_connect,
}
use yammer.Session.Drain.{tally, tally-append}
use yammer.Session.Interrupt.{is, gain, loss, held, IsSound}
use yammer.Session.Books.{Books, IsKeyed, told, spent}
use yammer.Session.Endings.{connection_interrupted-Books, interrupt-Books, stop-Books}
use yammer.Session.Client.{
  Context, connect_returned, init_returned, connect_address, is_existing, dispatch,
}
use yammer.Session.Client.Connects.{
  connect_returned-Ends, connect_returned_goes_on, init_returned-Ends,
}
use yammer.Session.Server.Incoming.{init_incoming-Books}
use yammer.Session.Run.{
  Run, async_context, starts, connects, connect_ends, connect_goes_on, initialized, incoming,
  is_interrupted, closes_all, stops,
}

-- The references that contexts hold on a connection.
abbrev pub refs : ℕ → List Context → ℕ
refs c [] = 0
refs c (sc ∷ cs) = is c sc.connection + refs c cs

refs-split :
    (c : ℕ) (ps : List Context) (sc : Context) (qs : List Context)
    → refs c (ps ++ sc ∷ qs) ≡ is c sc.connection + refs c (ps ++ qs)
refs-split c [] sc qs = refl
refs-split c (p ∷ ps) sc qs = omega (arith, refs-split c ps sc qs)

abbrev AreLive : List Context → Type 0
AreLive = All (λ (sc : Context). 0 < sc.connection)

AreLive-split :
    (ps : List Context) (sc : Context) (qs : List Context)
    → AreLive (ps ++ sc ∷ qs)
    → (0 < sc.connection) × AreLive (ps ++ qs)
AreLive-split [] sc qs live = live
AreLive-split (p ∷ ps) sc qs live =
    let (this, others) = AreLive-split ps sc qs live.1 in (this, (live.0, others))

module _ (eq : ℕ → ℕ → Bool) (address_of : ℕ → ℕ) (address_at : ℕ → Address) where
  record Accounts (s : Session) (cs is' : List Context) (calls : List Call) : Type 0 where
    pub sound : IsSound s
    pub keyed : IsKeyed address_of s
    pub connecting_live : AreLive cs
    pub initializing_live : AreLive is'
    pub balance :
        (c : ℕ)
        → tally (gain c) calls
          ≡ held c s.connections.items + tally (loss c) calls + (refs c cs + refs c is')
    pub reports : tally told calls ≤ spent s

  goes_on :
      {s s' : Session} {cs cs' is1 is2 : List Context} {calls new : List Call}
      (before after : ℕ → ℕ)
      → ((c : ℕ) → before c ≡ refs c cs + refs c is1)
      → ((c : ℕ) → after c ≡ refs c cs' + refs c is2)
      → AreLive cs'
      → AreLive is2
      → Books address_of before after s s' new
      → Accounts s cs is1 calls
      → Accounts s' cs' is2 (calls ++ new)
  goes_on {s} {s'} {cs} {cs'} {is1} {is2} {calls} {new} before after was becomes live live' books
        accounts =
      record {
        sound = books.sound;
        keyed = books.keyed accounts.keyed;
        connecting_live = live;
        initializing_live = live';
        balance = λ c. omega (
          arith,
          was c,
          becomes c,
          books.balance c,
          accounts.balance c,
          tally-append (gain c) calls new,
          tally-append (loss c) calls new,
        );
        reports = omega (arith, books.reports, accounts.reports, tally-append told calls new);
      }

  connect-Books :
      {s s' : Session} {new : List Call} (before : ℕ → ℕ) (never : ℕ → Bool) (p a : ℕ)
      (more_coming : Bool) (new_connection : ℕ → ℕ)
      → is_existing eq address_of never never address_at new_connection a s.connections.items
        ≡ false
      → connect_address eq address_of never never address_at new_connection p false s a more_coming
        ≡ ok (s', new)
      → IsSound s
      → Books address_of before (λ c. is c (new_connection a) + before c) s s' new
  unfolding connect_address dispatch
  connect-Books {s} {s'} {new} before never p a more_coming new_connection free ran sound =
      let c = new_connection a in
      let made : List Call =
        created (connection c)
        ∷ retain session
        ∷ retain (peer p)
        ∷ retain (connection c)
        ∷ (dispatch_connect p c more_coming ∷ [] ++ (release (connection c) ∷ [])) in
      let same : s ≡ s' = ground (arith, free) in
      let made_are : made ≡ new = ground (arith, free) in
      subst (λ t. Books address_of before (λ k. is k c + before k) s t new) same
        (subst (Books address_of before (λ k. is k c + before k) s s) made_are (record {
          sound = sound;
          keyed = λ keyed. keyed;
          balance = λ k. omega arith;
          reports = omega arith;
        }))

  stays :
      {s s' : Session} {cs is' : List Context} {calls new : List Call}
      → Books address_of (λ c. refs c cs + refs c is') (λ c. refs c cs + refs c is') s s' new
      → Accounts s cs is' calls
      → Accounts s' cs is' (calls ++ new)
  stays books accounts =
      goes_on _ _ (λ c. refl) (λ c. refl) accounts.connecting_live accounts.initializing_live books
        accounts

  connected :
      {s s' : Session} {cs is' : List Context} {calls new : List Call} (never : ℕ → Bool) (p a : ℕ)
      (more_coming : Bool) (new_connection : ℕ → ℕ)
      → 0 < new_connection a
      → is_existing eq address_of never never address_at new_connection a s.connections.items
        ≡ false
      → connect_address eq address_of never never address_at new_connection p false s a more_coming
        ≡ ok (s', new)
      → Accounts s cs is' calls
      → Accounts s' (async_context p (new_connection a) more_coming ∷ cs) is' (calls ++ new)
  connected {cs} {is'} never p a more_coming new_connection live free ran accounts =
      let before : ℕ → ℕ = λ c. refs c cs + refs c is' in
      goes_on before (λ c. is c (new_connection a) + before c) (λ c. refl) (λ c. omega arith)
        (live, accounts.connecting_live) accounts.initializing_live
        (connect-Books before never p a more_coming new_connection free ran accounts.sound) accounts

  connect_ended :
      {s : Session} {is' : List Context} {calls new : List Call} (ps qs : List Context)
      (sc : Context) (okay : Bool)
      → connect_returned s sc okay ≡ ok (false, new)
      → Accounts s (ps ++ sc ∷ qs) is' calls
      → Accounts s (ps ++ qs) is' (calls ++ new)
  connect_ended {s} {is'} {new} ps qs sc okay ran accounts =
      let others : ℕ → ℕ = λ c. refs c (ps ++ qs) + refs c is' in
      goes_on (λ c. is c sc.connection + others c) others
        (λ c. omega (arith, refs-split c ps sc qs)) (λ c. refl)
        (AreLive-split ps sc qs accounts.connecting_live).1 accounts.initializing_live
        (connect_returned-Ends address_of sc others s okay new accounts.sound ran) accounts

  connect_went_on :
      {s : Session} {is' : List Context} {calls new : List Call} (ps qs : List Context)
      (sc : Context) (okay : Bool)
      → connect_returned s sc okay ≡ ok (true, new)
      → Accounts s (ps ++ sc ∷ qs) is' calls
      → Accounts s (ps ++ qs) (sc ∷ is') (calls ++ new)
  connect_went_on {s} {is'} {new} ps qs sc okay ran accounts =
      let before : ℕ → ℕ = λ c. refs c (ps ++ sc ∷ qs) + refs c is' in
      let (live, others_live) = AreLive-split ps sc qs accounts.connecting_live in
      goes_on before before (λ c. refl) (λ c. omega (arith, refs-split c ps sc qs)) others_live
        (live, accounts.initializing_live)
        (connect_returned_goes_on address_of sc before s okay new accounts.sound ran) accounts

  was_initialized :
      {s s' : Session} {cs : List Context} {calls new : List Call} (ps qs : List Context)
      (sc : Context) (okay : Bool)
      → init_returned eq address_of s sc okay ≡ ok (s', new)
      → Accounts s cs (ps ++ sc ∷ qs) calls
      → Accounts s' cs (ps ++ qs) (calls ++ new)
  was_initialized {s} {s'} {cs} {new} ps qs sc okay ran accounts =
      let others : ℕ → ℕ = λ c. refs c cs + refs c (ps ++ qs) in
      let (live, others_live) = AreLive-split ps sc qs accounts.initializing_live in
      goes_on (λ c. is c sc.connection + others c) others
        (λ c. omega (arith, refs-split c ps sc qs)) (λ c. refl) accounts.connecting_live others_live
        (init_returned-Ends eq address_of sc others s s' okay new live accounts.sound ran) accounts

  Run-Accounts :
      {s : Session} {cs is' : List Context} {calls : List Call}
      → Run eq address_of address_at s cs is' calls
      → Accounts s cs is' calls
  unfolding create
  Run-Accounts (starts callbacks peer_at) = record {
    sound = record { counted = refl; pointers = refl; live = tt };
    keyed = record { at_address = tt; once = λ c. omega arith };
    connecting_live = tt;
    initializing_live = tt;
    balance = λ c. refl;
    reports = omega arith;
  }
  Run-Accounts (connects never p a more_coming new_connection live free ran before) =
      connected never p a more_coming new_connection live free ran (Run-Accounts before)
  Run-Accounts (connect_ends ps qs sc okay ran before) =
      connect_ended ps qs sc okay ran (Run-Accounts before)
  Run-Accounts (connect_goes_on ps qs sc okay ran before) =
      connect_went_on ps qs sc okay ran (Run-Accounts before)
  Run-Accounts (initialized ps qs sc okay ran before) =
      was_initialized ps qs sc okay ran (Run-Accounts before)
  Run-Accounts (incoming a p accepts c live ran before) =
      let accounts = Run-Accounts before in
      stays (init_incoming-Books eq address_of _ _ _ a p accepts c _ live accounts.sound ran)
        accounts
  Run-Accounts (is_interrupted chosen c in_range some_held ran before) =
      let accounts = Run-Accounts before in
      stays
        (connection_interrupted-Books eq address_of chosen _ in_range _ _ c _ accounts.sound
          accounts.keyed some_held ran)
        accounts
  Run-Accounts (closes_all chosen first in_range ran before) =
      let accounts = Run-Accounts before in
      stays (interrupt-Books eq address_of chosen _ in_range _ _ first _ accounts.sound ran)
        accounts
  Run-Accounts (stops chosen in_range ran before) =
      let accounts = Run-Accounts before in
      stays (stop-Books eq address_of chosen _ in_range _ _ _ accounts.sound ran) accounts

  -- A session goes through any asynchronous connects to addresses it has no connection to, incoming
  -- connections, closings of all connections and stops, and through interruptions of connections that
  -- it holds, or of any once it was interrupted. Then an interruption is reported to the user once at
  -- most.
  pub reported_once :
      {s : Session} {cs is' : List Context} {calls : List Call}
      → Run eq address_of address_at s cs is' calls
      → tally told calls ≤ 1
  reported_once {s} run = ground (arith, (Run-Accounts run).reports)

  -- A session goes through any asynchronous connects to addresses it has no connection to, incoming
  -- connections, closings of all connections and stops, and through interruptions of connections that
  -- it holds, or of any once it was interrupted. Then the references on a connection that were made
  -- and not given back are those that the session's dictionary and the contexts of pending connects
  -- hold, and the dictionary holds a connection once at most.
  pub references_balanced :
      {s : Session} {cs is' : List Context} {calls : List Call}
      → Run eq address_of address_at s cs is' calls
      → (c : ℕ)
      → (tally (gain c) calls
          ≡ held c s.connections.items + tally (loss c) calls + (refs c cs + refs c is'))
        × (held c s.connections.items ≤ 1)
  references_balanced run c =
      let accounts = Run-Accounts run in (accounts.balance c, accounts.keyed.once c)
