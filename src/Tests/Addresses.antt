-- ===== src/Tests/Addresses.antt =====
-- src/YMAddress.c on concrete addresses.
use yammer.Prelude.{ℕ, ◌≡◌, refl, Option, some, List, [], ◌∷◌}
use yammer.Address.{Sockaddr, Address, ipv4, af_inet, create, create_local_host_ipv4}

-- An inet_ntop that gives every address back as its string.
abbrev pub plain_ntop : ℕ → List ℕ → Option (List ℕ)
plain_ntop family bytes = some bytes

abbrev pub host : Sockaddr
host = record { family = af_inet; port = 0; address = 10 ∷ 0 ∷ 0 ∷ 1 ∷ []; others = [] }

abbrev pub host_at : ℕ → Address
host_at port = record {
  type = ipv4;
  sockaddr = record host { port = port };
  length = 16;
  description = (10 ∷ 0 ∷ 0 ∷ 1 ∷ [], port);
}

pub host_created : (port : ℕ) → create plain_ntop host port ≡ some (host_at port)
unfolding create
host_created port = refl

-- The address for the local host is 1.0.0.127.
local_host_bytes :
    create_local_host_ipv4 plain_ntop [] 80
    ≡ some (record {
      type = ipv4;
      sockaddr = record {
        family = af_inet;
        port = 20480;
        address = 1 ∷ 0 ∷ 0 ∷ 127 ∷ [];
        others = [];
      };
      length = 16;
      description = (1 ∷ 0 ∷ 0 ∷ 127 ∷ [], 20480);
    })
unfolding create_local_host_ipv4 create
local_host_bytes = refl
