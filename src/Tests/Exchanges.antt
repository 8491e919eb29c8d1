-- ===== src/Tests/Exchanges.antt =====
-- src/YMConnection.c: a client with an IPv4 address hears of a server with an IPv6 address.
use yammer.Prelude.{◌≡◌, refl, inl, inr, false, [], ◌∷◌, ◌++◌, some, ok, arith}
use yammer.Prelude.Bytes.{to_bytes}
use yammer.Io.Writes.{IsWritten}
use yammer.Io.{Source, Sink}
use yammer.Address.{af_inet, af_inet6}
use yammer.Connection.Exchange.{Local, do_if_exchange, zeros}
use yammer.Connection.Exchange.Both.{IsWellFormed, wire, told_of, do_if_exchange_lem}

-- "en0"
abbrev client : Local
client = record {
  if_name = 101 ∷ 110 ∷ 48 ∷ [];
  if_type = 3;
  address = record { family = af_inet; port = 5050; address = 127 ∷ 0 ∷ 0 ∷ 1 ∷ []; others = [] };
}

-- "lo"
abbrev server : Local
server = record {
  if_name = 108 ∷ 111 ∷ [];
  if_type = 1;
  address = record { family = af_inet6; port = 80; address = zeros 15 ++ (1 ∷ []); others = [] };
}

abbrev link : Source
link = record { bytes = wire server ++ (7 ∷ []); fails = false; grants = 1 ∷ 30 ∷ [] }

abbrev sink : Sink
sink = record { written = []; room = 100; grants = 2 ∷ [] }

client-IsWellFormed : IsWellFormed client
client-IsWellFormed = record {
  name_fits = omega arith;
  name_text = (omega arith, (omega arith, (omega arith, tt)));
  type_fits = omega arith;
  address_fits = inl (refl, refl);
}

server-IsWellFormed : IsWellFormed server
unfolding zeros
server-IsWellFormed = record {
  name_fits = omega arith;
  name_text = (omega arith, (omega arith, tt));
  type_fits = omega arith;
  address_fits = inr (refl, refl);
}

do_if_exchange_example :
    (s' : Source) × (k' : Sink) × (do_if_exchange false client link sink
      ≡ ok (some (told_of server), s', k'))
    × (s'.bytes ≡ 7 ∷ [])
    × IsWritten sink (wire client) k'
unfolding to_bytes zeros
do_if_exchange_example =
    do_if_exchange_lem false client server link sink (7 ∷ []) client-IsWellFormed
      server-IsWellFormed refl (omega arith)
