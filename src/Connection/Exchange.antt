-- ===== src/Connection/Exchange.antt =====
-- src/YMConnection.c: the exchange of interfaces, in which each end of a new connection tells the other one the name
-- and the type of its interface and its address. A YMIFExchangePrefix is two words of four bytes and a name of 64; on
-- a little-endian machine.
pub mod Both
use yammer.Prelude.{
  ℕ, zero, suc, ◌+◌, ◌-◌, Bool, true, false, not, Option, none, some, List, [], ◌∷◌, ◌++◌, take,
  drop, length, ltb, ◌||◌, Outcome, ok, abort, ymassert, ◌>>=◌, ◌>>◌, ◌==◌, if◌then◌else◌,
}
use yammer.Prelude.Bytes.{to_bytes, from_bytes}
use yammer.Io.{IoResult, success, eof, error, Source, Sink, read_full, write_full}
use yammer.Address.{Sockaddr, af_inet, af_inet6}

-- What an end tells: localIFName, localIFType and the sockaddr of its address.
pub record Local : Type 0 where
  pub if_name : List ℕ
  pub if_type : ℕ
  pub address : Sockaddr

-- What an end is told: apType, remoteAddr, remoteIFName and remoteIFType.
pub record Remote : Type 0 where
  pub ap_type : ℕ
  pub address : List ℕ
  pub if_name : List ℕ
  pub if_type : ℕ

-- YMIFAP_IPV4, YMIFAP_IPV6 and YMIFAP_Unknown, which is -1.
abbrev pub ap_of : ℕ → ℕ
ap_of family = if family == af_inet then 1 else (if family == af_inet6 then 2 else 4294967295)

unfoldable pub zeros : ℕ → List ℕ
zeros zero = []
zeros (suc n) = 0 ∷ zeros n

-- YMIFExNameMax
abbrev pub name_max : ℕ
name_max = 64

-- myPrefix. A name of 64 bytes or more has its NUL written behind the array.
unfoldable pub prefix_bytes : Local → Outcome (List ℕ)
prefix_bytes mine = do
  ymassert (ltb (length mine.if_name) name_max)
  ok (
      to_bytes 4 (ap_of mine.address.family)
      ++ (to_bytes 4 mine.if_type ++ (mine.if_name ++ zeros (name_max - length mine.if_name))))

-- The half of __YMConnectionDoIFExchange that writes.
unfoldable pub tell : Sink → Local → Outcome Sink
unfolding prefix_bytes
tell k mine = do
  prefix ← prefix_bytes mine
  k1 ← write_full k prefix
  let known = mine.address.family == af_inet || (mine.address.family == af_inet6)
  let address = (do
    k2 ← write_full k1 mine.address.address
    write_full k2 (to_bytes 2 mine.address.port))
  if known then address else ok k1

-- A buffer over which the bytes of a read came.
abbrev pub over : List ℕ → List ℕ → List ℕ
over bytes buffer = bytes ++ drop (length bytes) buffer

-- theirPrefix before it is read.
abbrev pub no_prefix : List ℕ
no_prefix = to_bytes 4 4294967295 ++ (to_bytes 4 0 ++ zeros name_max)

-- A YMIOResult as bool: YMIOEOF is 0, and YMIOError -1.
abbrev pub as_bool : IoResult → Bool
as_bool success = true
as_bool eof = false
as_bool error = true

-- YMStringCreateWithCString of the name; one without a NUL is read past its end.
unfoldable pub c_string : List ℕ → Outcome (List ℕ)
c_string [] = abort
c_string (b ∷ bs) = let rest = c_string bs in if b == 0 then ok [] else (rest >>= λ cs. ok (b ∷ cs))

abbrev pub addr_len : ℕ → Option ℕ
addr_len ap_type = if ap_type == 1 then some 6 else (if ap_type == 2 then some 18 else none)

-- What the reading half makes of the address: the result, the prefix, and the address where it was read.
abbrev pub hear_address : List ℕ → Source → Option ℕ → Outcome (Bool × List ℕ × List ℕ × Source)
hear_address prefix s none = ok (false, prefix, [], s)
hear_address prefix s (some len) = do
  (bytes, result, s') ← read_full s len
  ok (as_bool result, prefix, over bytes (zeros len), s')

-- The half that reads.
unfoldable pub hear : Source → Outcome (Bool × List ℕ × List ℕ × Source)
hear s = do
  (bytes, result, s1) ← read_full s 72
  let prefix = over bytes no_prefix
  let rest = hear_address prefix s1 (addr_len (from_bytes (take 4 prefix)))
  if as_bool result then rest else ok (false, prefix, [], s1)

-- The end of the function; what a failed exchange leaves in the fields of the connection is not followed.
abbrev pub note : Bool → List ℕ → List ℕ → Outcome (Option Remote)
note false prefix address = ok none
note true prefix address = do
  name ← c_string (drop 8 prefix)
  ok (
      some (record {
        ap_type = from_bytes (take 4 prefix);
        address = address;
        if_name = name;
        if_type = from_bytes (take 4 (drop 4 prefix));
      }))

-- __YMConnectionDoIFExchange: what the other end told, none if the exchange failed. The server writes first.
unfoldable pub do_if_exchange :
    Bool → Local → Source → Sink → Outcome (Option Remote × Source × Sink)
unfolding tell hear
do_if_exchange true mine s k = do
  k' ← tell k mine
  (okay, prefix, address, s') ← hear s
  remote ← note okay prefix address
  ok (remote, s', k')
do_if_exchange false mine s k = do
  (okay, prefix, address, s') ← hear s
  k' ← if okay then tell k mine else ok k
  remote ← note okay prefix address
  ok (remote, s', k')
