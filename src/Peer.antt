-- ===== src/Peer.antt =====
-- src/YMPeer.c: a peer as a session knows it. A name is the bytes of a string, an address and a certificate a
-- pointer. The arrays are the lists that they stand for, none for NULL; the array objects are not followed.
use yammer.Prelude.{ℕ, Option, none, some, List, [], ◌∷◌, ◌++◌}

pub record Peer : Type 0 where
  pub name : List ℕ
  pub addresses : Option (List ℕ)
  pub port : ℕ
  pub certificates : Option (List ℕ)

-- "unnamed-peer"
abbrev pub unnamed_peer : List ℕ
unnamed_peer =
    b'u' ∷ b'n' ∷ b'n' ∷ b'a' ∷ b'm' ∷ b'e' ∷ b'd' ∷ b'-' ∷ b'p' ∷ b'e' ∷ b'e' ∷ b'r' ∷ []

abbrev pub name_or_unnamed : Option (List ℕ) → List ℕ
name_or_unnamed none = unnamed_peer
name_or_unnamed (some name) = name

-- __YMPeerCreate; the port is not set, and the allocation clears it.
unfoldable pub create : Option (List ℕ) → Option (List ℕ) → Option (List ℕ) → Peer
create name addresses certificates = record {
  name = name_or_unnamed name;
  addresses = addresses;
  port = 0;
  certificates = certificates;
}

-- _YMPeerCreateWithAddress
unfoldable pub create_with_address : ℕ → Peer
unfolding create
create_with_address address = create none (some (address ∷ [])) none

-- _YMPeerSetAddresses
abbrev pub set_addresses : Peer → Option (List ℕ) → Peer
set_addresses p addresses = record p { addresses = addresses }

-- _YMPeerSetPort
abbrev pub set_port : Peer → ℕ → Peer
set_port p port = record p { port = port }

abbrev pub listed : Option (List ℕ) → List ℕ
listed none = []
listed (some xs) = xs

-- _YMPeerFree: the addresses and the certificates that are released.
unfoldable pub free : Peer → List ℕ
free p = listed p.addresses ++ listed p.certificates
