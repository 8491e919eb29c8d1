-- ===== src/Session/Client/Peers.antt =====
-- src/YMSession.c: which addresses of a peer are connected to, and how a peer comes and goes.
use yammer.Prelude.{
  ℕ, ◌≡◌, ◌≢◌, ◌⊎◌, inl, inr, refl, ◌∙◌, ap, Bool, true, false, not, Option, none, some, List, [],
  ◌∷◌, All, length, arith, ok, >>=-eq-ok, ◌+◌, ==_ne, ==_refl, Bool-cases, if◌then◌else◌,
}
use yammer.Prelude.Bytes.{same_bytes, same_bytes_refl}
use yammer.Dictionary.{Item, Dictionary, is_null, retain_item}
use yammer.Dictionary.Split.{add_shape, remove_head}
use yammer.Dictionary
use yammer.Address.{Address, af_inet, af_inet6, is_equal_including_port}
use yammer.Peer.{Peer, set_addresses, set_port}
use yammer.Peer
use yammer.Session.{
  Session, Call, created, retain, release, dispatch_connect, connection, peer, session, resolved,
  added, through,
}
use yammer.Session.Client.{
  connect_to_peer, connect_loop, connect_address, is_existing, is_some_left, dispatch,
  service_appeared, service_removed, service_resolved, last_named, first_named, get_peer_named, at,
}

-- An address as YMAddressCreate makes it.
abbrev pub HasFamily : Address → Type 0
HasFamily a = (a.sockaddr.family ≡ af_inet) ⊎ (a.sockaddr.family ≡ af_inet6)

is_equal_self : (a : Address) → HasFamily a → is_equal_including_port a a false ≡ true
unfolding is_equal_including_port
is_equal_self a (inl four) = ground (arith, same_bytes_refl a.sockaddr.address)
is_equal_self a (inr six) = ground (arith, same_bytes_refl a.sockaddr.address)

module _ (eq : ℕ → ℕ → Bool) (address_of : ℕ → ℕ) (connects initializes : ℕ → Bool)
    (address_at : ℕ → Address) (new_connection : ℕ → ℕ) where
  is_existing_lem :
      (a : ℕ) (items : List Item)
      → HasFamily (address_at a)
      → is_existing eq address_of connects initializes address_at new_connection a items
        ≡ not (is_null items)
  unfolding is_existing
  is_existing_lem a [] family = refl
  is_existing_lem a (i ∷ is) family = rw (is_equal_self (address_at a) family) refl

  -- A connect for each address, each with whether another one follows.
  abbrev pub attempts : ℕ → List ℕ → List Call
  attempts p [] = []
  attempts p (a ∷ as') =
      created (connection (new_connection a))
      ∷ retain session
      ∷ retain (peer p)
      ∷ retain (connection (new_connection a))
      ∷ dispatch_connect p (new_connection a) (is_some_left as')
      ∷ release (connection (new_connection a))
      ∷ attempts p as'

  connect_loop_lem :
      (p : ℕ) (s : Session) (as' : List ℕ)
      → All (λ a. HasFamily (address_at a)) as'
      → connect_loop eq address_of connects initializes address_at new_connection p false s as'
        ≡ ok (s, if is_null s.connections.items then attempts p as' else [])
  unfolding connect_loop connect_address dispatch
  connect_loop_lem p s [] families = ground arith
  connect_loop_lem p s (a ∷ as') families =
      let existing = is_existing_lem a s.connections.items families.0 in
      elim (Bool-cases (is_null s.connections.items)) [
        | inl free ↦ rw (existing, free) (rw (connect_loop_lem p s as' families.1, free) refl)
        | inr taken ↦ rw (existing, taken) (rw (connect_loop_lem p s as' families.1, taken) refl)
      ]

  -- An asynchronous connect to a known peer starts a connection to each of its addresses, in order, if
  -- the session has no connection, and to none of them if it has any, to whatever address; it returns true
  -- either way and leaves the session as it was.
  pub connect_to_peer_lem :
      (s : Session) (p : ℕ) (addresses : List ℕ)
      → Dictionary.contains eq s.known_peers p ≡ ok true
      → (s.peer_at p).addresses ≡ some addresses
      → All (λ a. HasFamily (address_at a)) addresses
      → connect_to_peer eq address_of connects initializes address_at new_connection s p false
        ≡ ok (true, s, if is_null s.connections.items then attempts p addresses else [])
  unfolding connect_to_peer
  connect_to_peer_lem s p addresses known listed families =
      rw (known, listed, connect_loop_lem p s addresses families) refl

abbrev pub IsUnnamed : (ℕ → Peer) → List ℕ → ℕ → List Item → Type 0
IsUnnamed peers name p =
    All (λ (i : Item). (i.value ≢ p) × (same_bytes (peers i.value).name name ≡ false))

last_named-unnamed :
    (peers peers' : ℕ → Peer) (name : List ℕ) (p : ℕ) (found : Option ℕ) (items : List Item)
    → ((k : ℕ) → k ≢ p → peers' k ≡ peers k)
    → IsUnnamed peers name p items
    → last_named peers' name found items ≡ found
unfolding last_named
last_named-unnamed peers peers' name p found [] same unnamed = refl
last_named-unnamed peers peers' name p found (i ∷ is) same unnamed =
    let misses : same_bytes (peers' i.value).name name ≡ false =
      ap (λ q. same_bytes (Peer.name q) name) (same i.value unnamed.0.0) ∙ unnamed.0.1 in
    rw misses (last_named-unnamed peers peers' name p found is same unnamed.1)

module _ (eq : ℕ → ℕ → Bool) where
  -- The peer of a service that appears under a new name is found by that name, and its addresses and
  -- port are stored when the service is resolved, those of no other peer. When the service is removed,
  -- the peers are those from before it appeared, and nothing is called.
  pub service_appeared_lem :
      (s : Session) (p : ℕ) (name : List ℕ) (addresses : List ℕ) (port : ℕ) {s' : Session}
      {told : List Call}
      → s.known_peers.count ≡ length s.known_peers.items
      → IsUnnamed s.peer_at name p s.known_peers.items
      → s.callbacks.resolved ≡ true
      → service_appeared eq s p name ≡ ok (s', told)
      → (told ≡ added p ∷ [])
        × (get_peer_named s' name ≡ some p)
        × (s'' : Session) × (service_resolved s' true name (some addresses) port
            ≡ ok (s'', resolved p ∷ []))
        × ((s''.peer_at p).addresses ≡ some addresses)
        × ((s''.peer_at p).port ≡ port)
        × ((k : ℕ) → k ≢ p → s''.peer_at k ≡ s.peer_at k)
        × (s3 : Session) × (service_removed eq s'' name ≡ ok s3)
        × (s3.known_peers ≡ s.known_peers)
  unfolding service_appeared service_resolved service_removed get_peer_named last_named first_named
      Peer.create
  service_appeared_lem s p name addresses port {s'} {told} counted unnamed set ran =
      let ((d, effects), adds, ran1) = >>=-eq-ok (Dictionary.add eq s.known_peers p p) _ ran in
      let (told_it, tells, ran2) = >>=-eq-ok (through s.callbacks.added (added p)) _ ran1 in
      let d_is = add_shape eq s.known_peers p p d effects adds in
      let new = Peer.create (some name) none none in
      let d1 : Dictionary = record s.known_peers {
        items = record { key = p; value = p } ∷ s.known_peers.items;
        count = s.known_peers.count + 1;
      } in
      let s1 : Session = record s { known_peers = d1; peer_at = at s.peer_at p new } in
      let same : s' ≡ s1 = cc in
      let told_is : told ≡ added p ∷ [] = ground arith in
      let p1 = set_port (set_addresses (s1.peer_at p) (some addresses)) port in
      let s2 : Session = record s1 { peer_at = at s1.peer_at p p1 } in
      let here : (peers : ℕ → Peer) (q : Peer) → at peers p q p ≡ q =
        λ peers q. rw (==_refl p) refl in
      let named : same_bytes (s1.peer_at p).name name ≡ true =
        ap (λ q. same_bytes (Peer.name q) name) (here s.peer_at new) ∙ same_bytes_refl name in
      let named' : same_bytes (s2.peer_at p).name name ≡ true =
        ap (λ q. same_bytes (Peer.name q) name) (here s1.peer_at p1) ∙ named in
      let others : (k : ℕ) → k ≢ p → s2.peer_at k ≡ s.peer_at k =
        λ k differs. rw (==_ne k p differs) refl in
      let last =
        last_named-unnamed s.peer_at s2.peer_at name p (some p) s.known_peers.items others
          unnamed in
      rw (same, told_is)
        (
          refl,
          rw named refl,
          s2,
          rw (named, set) refl,
          ap Peer.addresses (here s1.peer_at p1),
          ap Peer.port (here s1.peer_at p1),
          others,
          record s2 { known_peers = s.known_peers },
          rw (named', last, remove_head eq s.known_peers p p counted) refl,
          refl,
        )
