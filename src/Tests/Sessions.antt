-- ===== src/Tests/Sessions.antt =====
-- src/YMSession.c on concrete sessions: one takes a connection and is interrupted, another one knows a peer.
use yammer.Prelude.{
  ℕ, suc, ◌+◌, ◌<◌, ◌≤◌, ◌≡◌, ◌≢◌, refl, inl, Bool, true, false, none, some, List, [], ◌∷◌, ◌++◌,
  ok, arith, if◌then◌else◌, ◌==◌,
}
use yammer.Dictionary.{Item, Dictionary, contains}
use yammer.Dictionary
use yammer.Address.{Address, ipv4}
use yammer.Peer.{Peer}
use yammer.Peer
use yammer.Session.{
  Session, Callbacks, Call, create, created, retain, release, set_callbacks, connected, connection,
  peer, address, session, added, resolved, interrupted, interrupt, stop, connection_interrupted,
  add_connection, drain,
}
use yammer.Session.Drain.{tally}
use yammer.Session.Interrupt.{
  IsSound, gain, loss, closing, held, interrupt_lem, stop_lem, stopped, released, closed,
}
use yammer.Session.Drain.{tally_items}
use yammer.Session.Endings.{emptied}
use yammer.Session.Books.{told}
use yammer.Session.Run.{Run, starts, incoming, is_interrupted}
use yammer.Session.Accounts.{reported_once, references_balanced, refs}
use yammer.Session.Server.{Answers, init_incoming, start_advertising, stop_advertising}
use yammer.Session.Server.Retry.{start_advertising_again, start_advertising_lem, closings}
use yammer.Session.Client.{
  connect_to_peer, service_appeared, service_resolved, service_removed, get_peer_named, at,
}
use yammer.Session.Client.Peers.{connect_to_peer_lem, service_appeared_lem, attempts}

abbrev never : ℕ → ℕ → Bool
never a b = false

abbrev no : ℕ → Bool
no c = false

-- A connection's address is at the pointer a hundred later.
abbrev address_of : ℕ → ℕ
address_of c = 100 + c

abbrev host : Address
host = record {
  type = ipv4;
  sockaddr = record { family = 2; port = 80; address = 127 ∷ 0 ∷ 0 ∷ 1 ∷ []; others = [] };
  length = 16;
  description = ([], 80);
}

abbrev all_set : Callbacks
all_set = record {
  added = true;
  resolve_failed = true;
  resolved = true;
  connect_failed = true;
  should_accept = true;
  initializing = true;
  connected = true;
  interrupted = true;
  new_stream = true;
  stream_closing = true;
}

abbrev unnamed : ℕ → Peer
unnamed p = record { name = 63 ∷ []; addresses = none; port = 0; certificates = none }

abbrev fresh : Session
fresh = record {
  connections = record { items = []; count = 0; ymtype_keys = false; ymtype_values = false };
  known_peers = record { items = []; count = 0; ymtype_keys = false; ymtype_values = false };
  default_connection = 0;
  interrupted = false;
  peer_at = unnamed;
  callbacks = all_set;
  browser = false;
  service = false;
  accept_queue = false;
  accept_exit_flag = false;
  observing = false;
  listen_socket = none;
}

-- The session with connection 7.
abbrev busy : Session
busy = record fresh {
  connections = record {
    items = record { key = 107; value = 7 } ∷ [];
    count = 1;
    ymtype_keys = false;
    ymtype_values = false;
  };
  default_connection = 7;
}

abbrev two : Session
two = record busy {
  connections = record {
    items = record { key = 108; value = 8 } ∷ record { key = 107; value = 7 } ∷ [];
    count = 2;
    ymtype_keys = false;
    ymtype_values = false;
  };
}

busy-IsSound : IsSound busy
busy-IsSound = record { counted = refl; pointers = refl; live = omega arith }

two-IsSound : IsSound two
two-IsSound = record { counted = refl; pointers = refl; live = omega arith }

abbrev first_choice : ℕ → ℕ
first_choice n = 0

first_choice_lt : (m : ℕ) → first_choice (suc m) < suc m
first_choice_lt m = omega arith

abbrev taken : List Call
taken =
    created (connection 7)
    ∷ retain (connection 7)
    ∷ set_callbacks 7
    ∷ connected 7
    ∷ release (address 50)
    ∷ release (peer 60)
    ∷ release (connection 7)
    ∷ release session
    ∷ []

busy_run : Run never address_of (λ a. host) busy [] [] ([] ++ taken)
unfolding create init_incoming add_connection contains Dictionary.add
busy_run =
    incoming {s = fresh} {s' = busy} {cs = []} {is' = []} {calls = []} {new = taken} 50 60 true
      (some 7) (omega arith) refl (starts all_set unnamed)

over_run :
    Run never address_of
      (λ a. host)
      (emptied busy)
      []
      []
      (([] ++ taken) ++ (interrupted ∷ release (connection 7) ∷ []))
unfolding connection_interrupted interrupt drain Dictionary.get_random_key Dictionary.remove
    contains
over_run =
    is_interrupted {s = busy} {s' = emptied busy} {cs = []} {is' = []} {calls = [] ++ taken}
      {new = interrupted ∷ release (connection 7) ∷ []} first_choice 7 first_choice_lt
      (inl (omega arith)) refl busy_run

reported_once_example :
    tally told (([] ++ taken) ++ (interrupted ∷ release (connection 7) ∷ [])) ≤ 1
reported_once_example = reported_once never address_of (λ a. host) over_run

references_balanced_example :
    (tally (gain 7) ([] ++ taken)
      ≡ held 7 busy.connections.items + tally (loss 7) ([] ++ taken) + (refs 7 [] + refs 7 []))
    × (held 7 busy.connections.items ≤ 1)
references_balanced_example = references_balanced never address_of (λ a. host) busy_run 7

interrupt_example :
    (calls : List Call) × (interrupt never first_choice 8 two ≡ ok (true, emptied two, calls))
    × ((c : ℕ)
        → (tally (loss c) calls ≡ (if c == 8 then 0 else held c two.connections.items))
          × (tally (gain c) calls ≡ 0))
    × ((weight : Call → ℕ)
        → tally weight calls ≡ tally_items weight (released 8) two.connections.items)
interrupt_example = interrupt_lem never first_choice 8 two first_choice_lt two-IsSound refl

stop_example :
    (calls : List Call) × (stop never first_choice two ≡ ok (stopped two, calls))
    × ((c : ℕ)
        → (tally (closing c) calls ≡ held c two.connections.items)
          × (tally (loss c) calls ≡ held c two.connections.items)
          × (tally (gain c) calls ≡ 0))
    × ((weight : Call → ℕ) → tally weight calls ≡ tally_items weight closed two.connections.items)
stop_example = stop_lem never first_choice two first_choice_lt two-IsSound

abbrev answers : Answers
answers = record {
  reserved = some 5;
  listens = true;
  creates_service = true;
  starts_service = false;
  observes = true;
}

start_advertising_again_example :
    (start_advertising (start_advertising fresh answers).1 answers
      ≡ (false, (start_advertising fresh answers).1, []))
    × (start_advertising (stop_advertising (start_advertising fresh answers).1 true true).1 answers
        ≡ (false, (stop_advertising (start_advertising fresh answers).1 true true).1, []))
start_advertising_again_example = start_advertising_again fresh answers answers true true refl

start_advertising_example :
    ((start_advertising fresh answers).0 ≡ true)
    × (tally (closings 5) (start_advertising fresh answers).2 ≡ 0)
    × ((start_advertising fresh answers).1.listen_socket ≡ some 5)
start_advertising_example = start_advertising_lem fresh answers 5 refl refl refl (omega arith)

-- The session with peer 60, which has two addresses.
abbrev knowing : Session
knowing = record fresh {
  known_peers = record {
    items = record { key = 60; value = 60 } ∷ [];
    count = 1;
    ymtype_keys = false;
    ymtype_values = false;
  };
  peer_at =
      λ p. record { name = 65 ∷ []; addresses = some (1 ∷ 2 ∷ []); port = 80; certificates = none };
}

connect_to_peer_example :
    connect_to_peer never address_of no no (λ a. host) (λ a. a + 10) knowing 60 false
    ≡ ok (true, knowing, attempts never address_of no no (λ a. host) (λ a. a + 10) 60 (1 ∷ 2 ∷ []))
unfolding contains
connect_to_peer_example =
    connect_to_peer_lem never address_of no no (λ a. host) (λ a. a + 10) knowing 60 (1 ∷ 2 ∷ [])
      refl refl (inl refl, (inl refl, tt))

abbrev appeared : Session
appeared = record fresh {
  known_peers = record {
    items = record { key = 60; value = 60 } ∷ [];
    count = 1;
    ymtype_keys = false;
    ymtype_values = false;
  };
  peer_at =
      at unnamed 60 (record { name = 65 ∷ []; addresses = none; port = 0; certificates = none });
}

service_appeared_example :
    (added 60 ∷ [] ≡ added 60 ∷ [])
    × (get_peer_named appeared (65 ∷ []) ≡ some 60)
    × (s'' : Session) × (service_resolved appeared true (65 ∷ []) (some (1 ∷ [])) 80
        ≡ ok (s'', resolved 60 ∷ []))
    × ((s''.peer_at 60).addresses ≡ some (1 ∷ []))
    × ((s''.peer_at 60).port ≡ 80)
    × ((k : ℕ) → k ≢ 60 → s''.peer_at k ≡ fresh.peer_at k)
    × (s3 : Session) × (service_removed never s'' (65 ∷ []) ≡ ok s3)
    × (s3.known_peers ≡ fresh.known_peers)
unfolding service_appeared Dictionary.add Peer.create
service_appeared_example =
    service_appeared_lem never fresh 60 (65 ∷ []) (1 ∷ []) 80 {s' = appeared} {told = added 60 ∷ []}
      refl tt refl refl
