-- ===== src/Address.antt =====
-- src/YMAddress.c: socket addresses of IPv4 and IPv6, as on Linux. What is in a sockaddr besides
-- the family, the port and the address stands in `others`: sin_zero, or the flow info and the scope
-- id. Two sockaddrs of one family hold the same bytes if these four are the same. inet_ntop and
-- inet_pton are parameters; none is their failure.
pub mod Equality
use yammer.Prelude.{
  ℕ, ◌+◌, ◌*◌, ◌/◌, ◌%◌, ◌==◌, Bool, true, false, not, ◌&&◌, ◌||◌, Option, none, some, List, [],
  ◌∷◌, if◌then◌else◌,
}
use yammer.Prelude.Bytes.{same_bytes}

pub record Sockaddr : Type 0 where
  pub family : ℕ
  pub port : ℕ
  pub address : List ℕ
  pub others : List ℕ

abbrev pub af_inet : ℕ
af_inet = 2

abbrev pub af_inet6 : ℕ
af_inet6 = 10

pub data AddressType : Type 0 where
  ipv4 ipv6 : AddressType

-- `description` is the string of the address and the port, which "%s:%u" prints.
pub record Address : Type 0 where
  pub type : AddressType
  pub sockaddr : Sockaddr
  pub length : ℕ
  pub description : List ℕ × ℕ

-- htons on a little-endian machine.
abbrev pub htons : ℕ → ℕ
htons port = port % 256 * 256 + port / 256 % 256

abbrev describe : AddressType → ℕ → Sockaddr → ℕ → Option (List ℕ) → Option Address
describe type length s port none = none
describe type length s port (some ip) = some (record {
  type = type;
  sockaddr = record s { port = port };
  length = length;
  description = (ip, port);
})

module _ (inet_ntop : ℕ → List ℕ → Option (List ℕ)) where
  -- YMAddressCreate
  unfoldable pub create : Sockaddr → ℕ → Option Address
  create s port =
      if s.family == af_inet
      then describe ipv4 16 s port (inet_ntop af_inet s.address)
      else (if s.family == af_inet6
          then describe ipv6 28 s port (inet_ntop af_inet6 s.address)
          else none)

  -- YMAddressCreateLocalHostIPV4: INADDR_LOOPBACK is 0x7f000001 in the byte order of the machine.
  -- `unset` is what the allocated sin_zero holds.
  unfoldable pub create_local_host_ipv4 : List ℕ → ℕ → Option Address
  unfolding create
  create_local_host_ipv4 unset port =
      let new_addr : Sockaddr = record {
        family = af_inet;
        port = htons port;
        address = 1 ∷ 0 ∷ 0 ∷ 127 ∷ [];
        others = unset;
      } in
      create new_addr new_addr.port

  abbrev pub create_parsed : ℕ → Option (List ℕ) → Option Address
  unfolding create
  create_parsed port none = none
  create_parsed port (some in_addr) =
      let sin_addr : Sockaddr = record {
        family = af_inet;
        port = htons port;
        address = in_addr;
        others = 0 ∷ 0 ∷ 0 ∷ 0 ∷ 0 ∷ 0 ∷ 0 ∷ 0 ∷ [];
      } in
      create sin_addr sin_addr.port

  -- YMAddressCreateWithIPStringAndPort
  unfoldable pub create_with_ip_string_and_port :
      (List ℕ → Option (List ℕ)) → List ℕ → ℕ → Option Address
  create_with_ip_string_and_port inet_pton ip_string port = create_parsed port (inet_pton ip_string)

-- memcmp of two sockaddrs of one family.
abbrev pub same_sockaddr : Sockaddr → Sockaddr → Bool
same_sockaddr a b =
    a.family == b.family
    && (a.port == b.port && (same_bytes a.address b.address && same_bytes a.others b.others))

-- YMAddressIsEqualIncludingPort
unfoldable pub is_equal_including_port : Address → Address → Bool → Bool
is_equal_including_port a b including_port =
    if not (a.sockaddr.family == b.sockaddr.family)
    then false
    else (if not (a.sockaddr.family == af_inet) && not (a.sockaddr.family == af_inet6)
        then false
        else (if including_port
            then same_sockaddr a.sockaddr b.sockaddr
            else same_bytes a.sockaddr.address b.sockaddr.address))

-- YMAddressIsEqual
unfoldable pub is_equal : Address → Address → Bool
is_equal a b = is_equal_including_port a b true

abbrev pub get_address_data : Address → Sockaddr
get_address_data a = a.sockaddr

abbrev pub get_length : Address → ℕ
get_length a = a.length

abbrev pub get_description : Address → List ℕ × ℕ
get_description a = a.description

-- YMAddressGetDomain, whose PF_INET and PF_INET6 are AF_INET and AF_INET6.
unfoldable pub get_domain : AddressType → ℕ
get_domain ipv4 = af_inet
get_domain ipv6 = af_inet6

unfoldable pub get_address_family : AddressType → ℕ
get_address_family ipv4 = af_inet
get_address_family ipv6 = af_inet6

-- YMAddressGetDefaultProtocolForAddressFamily: IPPROTO_TCP, or none for -1.
unfoldable pub get_default_protocol : ℕ → Option ℕ
get_default_protocol family = if family == af_inet || family == af_inet6 then some 6 else none
