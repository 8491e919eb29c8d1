-- ===== src/Plexer/Link.antt =====
-- src/YMSecurityProvider.c with its pass-through functions: what a plexer reads from and writes to.
-- The file descriptors are the environment: `inbound` is what will still arrive before the end of
-- the input, `grants` is how many bytes each of the next reads finds there, `room` is how many bytes
-- the other side will still take, `outbound` is what was written. A read or a write that moves fewer
-- bytes than it was asked for is a failure, and the bytes that it moved are gone.
use yammer.Prelude.{
  ℕ, ◌-◌, ◌≤◌, ◌<◌, ◌≡◌, sym, ap, ◌∙◌, min, ◌==◌, Bool, true, false, Option, none, some, List, [],
  ◌++◌, take, drop, length, leb, if◌then◌else◌, arith, take-append, drop-append, length-append,
}
use yammer.Io.{granted, later}

pub record Link : Type 0 where
  pub inbound : List ℕ
  pub grants : List ℕ
  pub room : ℕ
  pub outbound : List ℕ

-- YMSecurityProviderRead with YMNoSecurityRead: one read(), and the bytes, if it got as many.
unfoldable pub read : Link → ℕ → Option (List ℕ) × Link
read l n =
    let k = min (granted l.grants n) (length l.inbound) in
    let left : Link = record l { inbound = drop k l.inbound; grants = later l.grants } in
    if k == n then (some (take n l.inbound), left) else (none, left)

-- YMSecurityProviderWrite with YMNoSecurityWrite.
unfoldable pub write : Link → List ℕ → Bool × Link
write l bytes =
    if leb (length bytes) l.room
    then (true, record l { outbound = l.outbound ++ bytes; room = l.room - length bytes })
    else (false, record l { outbound = l.outbound ++ take l.room bytes; room = 0 })

-- YMSecurityProviderClose with YMNoSecurityClose, which leaves the descriptors as they are.
unfoldable pub close : Link → Bool × Link
close l = (true, l)

-- Where each read finds what it asks for, what was written with room for it is read whole, and what
-- follows it stays.
pub read_written :
    (l : Link) (bytes rest : List ℕ) (n : ℕ)
    → l.grants ≡ []
    → l.inbound ≡ bytes ++ rest
    → length bytes ≡ n
    → read l n ≡ (some bytes, record l { inbound = rest })
unfolding read
read_written l bytes rest n whole e h =
    let same : later l.grants ≡ l.grants = ap later whole ∙ sym whole in
    let all : granted l.grants n ≡ n = ap (λ gs. granted gs n) whole in
    let k : min (granted l.grants n) (length l.inbound) ≡ length bytes =
      omega (arith, all, h, ap length e, length-append bytes rest) in
    rw (k, same) (ground (arith, h, take-append bytes rest, drop-append bytes rest, e))

-- A read that finds fewer bytes than it asks for fails, and they are gone.
pub read_short :
    (l : Link) (n : ℕ)
    → min (granted l.grants n) (length l.inbound) < n
    → read l n ≡ (
      none,
      record l {
        inbound = drop (min (granted l.grants n) (length l.inbound)) l.inbound;
        grants = later l.grants;
      },
    )
unfolding read
read_short l n short = ground arith

pub write_room :
    (l : Link) (bytes : List ℕ)
    → length bytes ≤ l.room
    → write l bytes
      ≡ (true, record l { outbound = l.outbound ++ bytes; room = l.room - length bytes })
unfolding write
write_room l bytes h = ground arith
