-- ===== src/Tests/Records.antt =====
-- src/YMmDNS.c on concrete TXT records and service records.
use yammer.Prelude.{ℕ, ◌≡◌, ◌≢◌, refl, none, some, List, [], ◌∷◌, length, ok, arith}
use yammer.Address.{Sockaddr, Address, ipv6, af_inet6, create}
use yammer.Mdns.{
  KeyPair, ServiceRecord, write_pair, write_pairs, blob_size, txt_blob_create, find_equals,
  read_pair, key_pairs_loop, txt_key_pairs_create, returns_within, append_sockaddr,
}
use yammer.Mdns.RoundTrip.{txt_key_pairs_create-blob}
use yammer.Tests.Addresses.{plain_ntop, host, host_at}

-- a=xy and b=
abbrev pairs : List KeyPair
pairs =
    record { key = b'a' ∷ []; value = b'x' ∷ b'y' ∷ [] }
    ∷ record { key = b'b' ∷ []; value = [] }
    ∷ []

abbrev pairs_blob : List ℕ
pairs_blob = 4 ∷ b'a' ∷ b'=' ∷ b'x' ∷ b'y' ∷ 2 ∷ b'b' ∷ b'=' ∷ []

pairs_written : txt_blob_create pairs ≡ (some pairs_blob, 8)
unfolding txt_blob_create blob_size write_pairs write_pair
pairs_written = refl

pairs_read : txt_key_pairs_create pairs_blob ≡ ok (some pairs)
unfolding txt_key_pairs_create key_pairs_loop find_equals read_pair
pairs_read = refl

txt_key_pairs_create-blob_example :
    (txt_key_pairs_create pairs_blob ≡ ok (some pairs)) × (8 ≡ length pairs_blob)
txt_key_pairs_create-blob_example =
    txt_key_pairs_create-blob pairs
      (((omega arith, omega arith), tt), (((omega arith, omega arith), tt), tt)) pairs_written

abbrev empty_record : ServiceRecord
empty_record = record { port = 80; key_pairs = none; sockaddrs = none }

abbrev host_record : ServiceRecord
host_record = record empty_record { sockaddrs = some (some (host_at 80) ∷ []) }

host_appended : append_sockaddr plain_ntop empty_record host ≡ ok host_record
unfolding append_sockaddr returns_within create
host_appended = refl

abbrev six : ℕ → Sockaddr
six last = record { family = af_inet6; port = 0; address = 254 ∷ 128 ∷ last ∷ []; others = [] }

abbrev six_address : Address
six_address = record { type = ipv6; sockaddr = six 1; length = 28; description = ([], 0) }

abbrev six_record : ServiceRecord
six_record = record empty_record { sockaddrs = some (some six_address ∷ []) }

six_differ : (six 1).address ≢ (six 2).address
six_differ e = ground (arith, e)
