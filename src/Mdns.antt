-- ===== src/Mdns.antt =====
-- src/YMmDNS.c: TXT records and service records. A key pair's key is the bytes of a C string, its
-- value the valueLen bytes that the value points to. What C leaves undefined, a read past the end
-- of a record, an overrun of keyBuf and a copy of a length that wrapped around, is `abort`. The
-- list that the parser fills grows as it needs to, so it is a list.
pub mod Blob
pub mod RoundTrip
pub mod Records
pub mod Browser
use yammer.Prelude.{
  ℕ, zero, suc, ◌+◌, ◌-◌, ◌%◌, ◌==◌, Bool, true, false, not, ◌&&◌, Option, none, some, List, [],
  ◌∷◌, ◌++◌, take, drop, length, leb, ltb, Outcome, ok, abort, ymassert, ◌>>=◌, ◌>>◌, if◌then◌else◌,
}
use yammer.Prelude.Bytes.{same_bytes}
use yammer.Address.{Sockaddr, Address, af_inet, af_inet6}
use yammer.Address

pub record KeyPair : Type 0 where
  pub key : List ℕ
  pub value : List ℕ

-- UINT8_MAX - 1
abbrev pub key_value_len_max : ℕ
key_value_len_max = 254

abbrev pub uint16_max : ℕ
uint16_max = 65535

-- The first loop of _YMmDNSTxtBlobCreate: the size of the blob, or none for an early return.
unfoldable pub blob_size : ℕ → List KeyPair → Option ℕ
blob_size size [] = some size
blob_size size (p ∷ ps) =
    let key_len = length p.key in
    let a_blob_size = (key_len % 256 + length p.value + 2) % 65536 in
    let rest = blob_size (size + a_blob_size) ps in
    if ltb key_value_len_max key_len
    then none
    else (if ltb key_value_len_max (key_len + length p.value)
        then none
        else (if ltb uint16_max (size + a_blob_size) then none else rest))

-- One pair: the length byte, the key, '=' and the value.
unfoldable pub write_pair : KeyPair → List ℕ
write_pair p = (length p.key + 1 + length p.value) % 256 ∷ (p.key ++ b'=' ∷ p.value)

-- The second loop.
unfoldable pub write_pairs : List KeyPair → List ℕ
write_pairs [] = []
write_pairs (p ∷ ps) = write_pair p ++ write_pairs ps

abbrev pub blob_of : List KeyPair → Option ℕ → Option (List ℕ) × ℕ
blob_of ps none = (none, length ps)
blob_of ps (some size) = if size == 0 then (none, 0) else (some (write_pairs ps), size)

-- _YMmDNSTxtBlobCreate: the blob, none for NULL, and what is left in *inSizeOutLength, which held
-- the number of the pairs.
unfoldable pub txt_blob_create : List KeyPair → Option (List ℕ) × ℕ
txt_blob_create ps = blob_of ps (blob_size 0 ps)

-- strstr(s, "="): the index, none for NULL. The C string ends at its NUL.
unfoldable pub find_equals : List ℕ → Outcome (Option ℕ)
find_equals [] = abort
find_equals (c ∷ cs) =
    let rest = find_equals cs in
    if c == 0 then ok none else (if c == b'=' then ok (some 0) else (rest >>= λ i. ok (after i)))
  where
    after : Option ℕ → Option ℕ
    after none = none
    after (some i) = some (suc i)

-- The pair whose length byte is `pair_length`, with its '=' at `key_length` of the walker.
unfoldable pub read_pair : ℕ → ℕ → List ℕ → Outcome KeyPair
read_pair pair_length key_length walker = do
  ymassert (ltb key_length 256)
  ymassert (leb (key_length + 1) pair_length)
  ymassert (leb pair_length (length walker))
  ok (record {
    key = take key_length walker;
    value = take (pair_length - key_length - 1) (drop (key_length + 1) walker);
  })

abbrev pub prepend : KeyPair → Option (List KeyPair) → Option (List KeyPair)
prepend p none = none
prepend p (some ps) = some (p ∷ ps)

-- The loop of _YMmDNSTxtKeyPairsCreate from a pair on; `n` bounds the number of pairs, of which
-- each takes a byte at least.
unfoldable pub key_pairs_loop : ℕ → List ℕ → Outcome (Option (List KeyPair))
key_pairs_loop n [] = ok (some [])
key_pairs_loop zero (b ∷ walker) = abort
key_pairs_loop (suc n) (pair_length ∷ walker) =
    let rest = key_pairs_loop n (drop pair_length walker) in
    find_equals walker >>= next pair_length walker rest
  where
    next : ℕ → List ℕ → Outcome (Option (List KeyPair)) → Option ℕ → Outcome (Option (List KeyPair))
    next pair_length walker rest none = ok none
    next pair_length walker rest (some key_length) = do
      p ← read_pair pair_length key_length walker
      ps ← rest
      ok (prepend p ps)

-- _YMmDNSTxtKeyPairsCreate: none is NULL.
unfoldable pub txt_key_pairs_create : List ℕ → Outcome (Option (List KeyPair))
txt_key_pairs_create txt = if leb (length txt) 1 then ok none else key_pairs_loop (length txt) txt

-- A service record without its name, type and domain, which only the log reads. The pairs and
-- their number are none if the pointer is NULL; `sockaddrs` is the list that the array stands for,
-- none if there is no array. A NULL that YMAddressCreate returned is none in it.
pub record ServiceRecord : Type 0 where
  pub port : ℕ
  pub key_pairs : Option (List KeyPair)
  pub sockaddrs : Option (List (Option Address))

-- _YMmDNSServiceRecordCreate with the three strings given.
unfoldable pub service_record_create : ServiceRecord
service_record_create = record { port = 0; key_pairs = none; sockaddrs = none }

unfoldable pub set_port : ServiceRecord → ℕ → ServiceRecord
set_port r port = record r { port = port }

abbrev pub store_pairs : ServiceRecord → Option (List KeyPair) → ServiceRecord
store_pairs r none = r
store_pairs r (some ps) = record r { key_pairs = some ps }

-- _YMmDNSServiceRecordSetTxtRecord; none is a NULL record.
unfoldable pub set_txt_record : ServiceRecord → Option (List ℕ) → Outcome ServiceRecord
set_txt_record r none = ok (record r { key_pairs = none })
set_txt_record r (some txt) =
    if leb (length txt) 1
    then ok (record r { key_pairs = none })
    else (do ps ← txt_key_pairs_create txt; ok (store_pairs r ps))

-- Whether the loop of _YMmDNSServiceRecordAppendSockaddr returns at an address of the list.
unfoldable pub returns_at : Sockaddr → Sockaddr → Bool
returns_at s a =
    if s.family == a.family
    then (if a.family == af_inet
        then same_bytes a.address s.address
        else (if a.family == af_inet6 then not (same_bytes a.address s.address) else false))
    else false

unfoldable pub returns_within : Sockaddr → List (Option Address) → Outcome Bool
returns_within s [] = ok false
returns_within s (none ∷ as') = abort
returns_within s (some a ∷ as') =
    let rest = returns_within s as' in if returns_at s a.sockaddr then ok true else rest

abbrev pub listed : Option (List (Option Address)) → List (Option Address)
listed none = []
listed (some as') = as'

-- _YMmDNSServiceRecordAppendSockaddr
unfoldable pub append_sockaddr :
    (ℕ → List ℕ → Option (List ℕ)) → ServiceRecord → Sockaddr → Outcome ServiceRecord
append_sockaddr inet_ntop r s = do
  let as' = listed r.sockaddrs
  returned ← returns_within s as'
  ok (record r {
    sockaddrs = some (if returned then as' else as' ++ Address.create inet_ntop s r.port ∷ []);
  })
