-- ===== src/Plexer/Handshake.antt =====
-- src/YMPlexer.c: the opening exchange of a master and a slave that are joined to one another.
use yammer.Prelude.{
  ℕ, ◌-◌, ◌<◌, ◌≤◌, ◌≡◌, refl, ap, sym, Bool, true, false, List, [], ◌∷◌, ◌++◌, length,
  length-append, arith, if◌then◌else◌, Option, none, some,
}
use mathlib.Core.List.{append-nil, append_assoc}
use yammer.Prelude.Bytes.{to_bytes, from_bytes, length-to_bytes, from_bytes-to_bytes, Fits-32}
use yammer.Plexer.Link.{Link, read_written, write_room}
use yammer.Plexer.Messages.{
  Initializer, encode_initializer, decode_initializer, encode_ack, decode_ack, built_in_version,
  stream_id_max, master_hello, slave_hello, word32, initializer_size, ack_size,
}
use yammer.Plexer.State.{Plexer}
use yammer.Plexer.Start.{on_read, on_write, with_link, start, init_as_master, init_as_slave}

-- What a master sends after the greetings.
abbrev pub initializer : Initializer
initializer = record {
  protocol_version = built_in_version;
  master_stream_id_max = stream_id_max;
  even_stream_ids = 1;
}

length-initializer :
    (padding tail : List ℕ)
    → length padding ≡ 4
    → length tail ≡ 7
    → length (encode_initializer padding tail initializer) ≡ initializer_size
unfolding encode_initializer
length-initializer padding tail h k = omega (
  arith,
  length-append (to_bytes 4 1) (padding ++ (to_bytes 8 stream_id_max ++ (1 ∷ tail))),
  length-append padding (to_bytes 8 stream_id_max ++ (1 ∷ tail)),
  length-append (to_bytes 8 stream_id_max) (1 ∷ tail),
  length-to_bytes 4 1,
  length-to_bytes 8 stream_id_max,
)

decode-initializer :
    (padding tail : List ℕ)
    → length padding ≡ 4
    → decode_initializer (encode_initializer padding tail initializer) ≡ initializer
unfolding decode_initializer encode_initializer to_bytes from_bytes
decode-initializer (a ∷ b ∷ c ∷ d ∷ []) tail h = refl
decode-initializer [] tail h = absurd (omega arith)
decode-initializer (a ∷ []) tail h = absurd (omega arith)
decode-initializer (a ∷ b ∷ []) tail h = absurd (omega arith)
decode-initializer (a ∷ b ∷ c ∷ []) tail h = absurd (omega arith)
decode-initializer (a ∷ b ∷ c ∷ d ∷ e ∷ xs) tail h = absurd (omega arith)

decode-ack : (v : ℕ) → v < word32 → decode_ack (encode_ack v) ≡ v
unfolding decode_ack encode_ack to_bytes
decode-ack v h = unfold to_bytes in from_bytes-to_bytes 4 v (Fits-32 v h)

length-ack : (v : ℕ) → length (encode_ack v) ≡ ack_size
unfolding encode_ack
length-ack v = length-to_bytes 4 v

-- A plexer that has started on a link.
abbrev pub started : Plexer → Bool → Link → Plexer
started p even l = record p {
  link = l;
  active = true;
  my_streams_even = even;
  local_stream_id_last = (if even then stream_id_max - 1 else stream_id_max);
}

abbrev pub after_exchange : Link → List ℕ → ℕ → List ℕ → Link
after_exchange l rest n written = record {
  inbound = rest;
  grants = l.grants;
  room = l.room - n;
  outbound = l.outbound ++ written;
}

start_master :
    (padding tail rest : List ℕ) (p : Plexer)
    → length padding ≡ 4
    → length tail ≡ 7
    → p.active ≡ false
    → p.master ≡ true
    → p.link.grants ≡ []
    → p.link.inbound ≡ slave_hello ++ (encode_ack built_in_version ++ rest)
    → 54 ≤ p.link.room
    → start padding tail p ≡ (
      started p true (
          after_exchange p.link rest 54
            (master_hello ++ encode_initializer padding tail initializer)),
      true,
    )
unfolding start init_as_master
start_master padding tail rest p h k a m whole e room =
    let sent = encode_initializer padding tail initializer in
    let ack = encode_ack built_in_version in
    let size : length sent ≡ 24 = length-initializer padding tail h k in
    let greeted : Link = record p.link {
      room = p.link.room - 30;
      outbound = p.link.outbound ++ master_hello;
    } in
    let answered : Link = record greeted { inbound = ack ++ rest } in
    let told : Link = record answered {
      room = answered.room - length sent;
      outbound = answered.outbound ++ sent;
    } in
    rw
      (
        a,
        m,
        write_room p.link master_hello (omega arith),
        read_written greeted slave_hello (ack ++ rest) 36 whole e refl,
        write_room answered sent (omega (arith, size)),
        read_written told ack rest ack_size whole refl (length-ack built_in_version),
        decode-ack built_in_version (omega arith),
      )
      (ground (arith, size, append_assoc p.link.outbound master_hello sent))

start_slave :
    (padding tail sent rest : List ℕ) (p : Plexer)
    → p.active ≡ false
    → p.master ≡ false
    → length sent ≡ initializer_size
    → decode_initializer sent ≡ initializer
    → p.link.grants ≡ []
    → p.link.inbound ≡ master_hello ++ (sent ++ rest)
    → 40 ≤ p.link.room
    → start padding tail p ≡ (
      started p false (after_exchange p.link rest 40 (slave_hello ++ encode_ack built_in_version)),
      true,
    )
unfolding start init_as_slave
start_slave padding tail sent rest p a m size content whole e room =
    let ack = encode_ack built_in_version in
    let greeted : Link = record p.link { inbound = sent ++ rest } in
    let answered : Link = record greeted {
      room = p.link.room - 36;
      outbound = p.link.outbound ++ slave_hello;
    } in
    let told : Link = record answered { inbound = rest } in
    rw
      (
        a,
        m,
        read_written p.link master_hello (sent ++ rest) 30 whole e refl,
        write_room greeted slave_hello (omega arith),
        read_written answered sent rest initializer_size whole refl size,
        content,
        write_room told ack (omega (arith, length-ack built_in_version)),
      )
      (ground (arith, length-ack built_in_version, append_assoc p.link.outbound slave_hello ack))

-- An inactive master and an inactive slave, of which each has to read exactly what the other writes
-- and room to write its own 54 or 40 bytes, both start, where each read() finds all that it asks for:
-- a short one fails. Each writes what the other reads, the master gets the even stream ids and the
-- slave the odd ones.
pub start_pair :
    (padding tail : List ℕ) (m s : Plexer)
    → length padding ≡ 4
    → length tail ≡ 7
    → (m.active ≡ false) × (m.master ≡ true) × (s.active ≡ false) × (s.master ≡ false)
    → (54 ≤ m.link.room) × (40 ≤ s.link.room)
    → (m.link.grants ≡ []) × (s.link.grants ≡ [])
    → m.link.inbound ≡ slave_hello ++ encode_ack built_in_version
    → s.link.inbound ≡ master_hello ++ encode_initializer padding tail initializer
    → (m' : Plexer) × (s' : Plexer) × (start padding tail m ≡ (m', true))
      × (start padding tail s ≡ (s', true))
      × (m'.link.outbound ≡ m.link.outbound ++ s.link.inbound)
      × (s'.link.outbound ≡ s.link.outbound ++ m.link.inbound)
      × (m'.active ≡ true)
      × (s'.active ≡ true)
      × (m'.my_streams_even ≡ true)
      × (s'.my_streams_even ≡ false)
      × (m'.local_stream_id_last ≡ stream_id_max - 1)
      × (s'.local_stream_id_last ≡ stream_id_max)
start_pair padding tail m s h k (ma, mm, sa, sm) (mr, sr) (mg, sg) me se =
    let sent = encode_initializer padding tail initializer in
    (
      started m true (after_exchange m.link [] 54 (master_hello ++ sent)),
      started s false (after_exchange s.link [] 40 (slave_hello ++ encode_ack built_in_version)),
      start_master padding tail [] m h k ma mm mg (rw append-nil me) mr,
      start_slave padding tail sent [] s sa sm (length-initializer padding tail h k)
          (decode-initializer padding tail h) sg (rw append-nil se) sr,
      ap (◌++◌ m.link.outbound) (sym se),
      ap (◌++◌ s.link.outbound) (sym me),
      refl,
      refl,
      refl,
      refl,
      refl,
      refl,
    )

-- The exchange itself does not touch the flag.
record IsIdle (r : Plexer × Bool) : Type 0 where
  off : r.0.active ≡ false

idle : (p : Plexer) (b : Bool) → p.active ≡ false → IsIdle (p, b)
idle p b a = record { off = a }

on_read-IsIdle :
    (p : Plexer) (r : Option (List ℕ) × Link) (k : Plexer → List ℕ → Plexer × Bool)
    → p.active ≡ false
    → ((l : Link) (bytes : List ℕ) → IsIdle (k (with_link p l) bytes))
    → IsIdle (on_read p r k)
on_read-IsIdle p (none, l) k a next = record { off = a }
on_read-IsIdle p (some bytes, l) k a next = next l bytes

on_write-IsIdle :
    (p : Plexer) (r : Bool × Link) (k : Plexer → Plexer × Bool)
    → p.active ≡ false
    → ((l : Link) → IsIdle (k (with_link p l)))
    → IsIdle (on_write p r k)
on_write-IsIdle p (false, l) k a next = record { off = a }
on_write-IsIdle p (true, l) k a next = next l

if-IsIdle : (b : Bool) (x y : Plexer × Bool) → IsIdle x → IsIdle y → IsIdle (if b then x else y)
if-IsIdle true x y h k = h
if-IsIdle false x y h k = k

init_as_master-IsIdle :
    (padding tail : List ℕ) (p : Plexer) → p.active ≡ false → IsIdle (init_as_master padding tail p)
unfolding init_as_master
init_as_master-IsIdle padding tail p a =
    search (on_read-IsIdle, on_write-IsIdle, if-IsIdle, idle) depth 9

init_as_slave-IsIdle : (p : Plexer) → p.active ≡ false → IsIdle (init_as_slave p)
unfolding init_as_slave
init_as_slave-IsIdle p a = search (on_read-IsIdle, on_write-IsIdle, if-IsIdle, idle) depth 9

-- A plexer that was not active is active after `start` exactly if `start` answers true.
start-active :
    (padding tail : List ℕ) (p : Plexer)
    → p.active ≡ false
    → (start padding tail p).0.active ≡ (start padding tail p).1
unfolding start
start-active padding tail p a =
    ground (arith, init_as_master-IsIdle padding tail p a, init_as_slave-IsIdle p a)

-- An inactive master with room to write refuses a slave that greets it and then acknowledges with a
-- protocol version newer than the master's own, where each read() finds all that it asks for.
start_refuses_newer_slave :
    (padding tail rest : List ℕ) (version : ℕ) (p : Plexer)
    → length padding ≡ 4
    → length tail ≡ 7
    → p.active ≡ false
    → p.master ≡ true
    → p.link.grants ≡ []
    → p.link.inbound ≡ slave_hello ++ (encode_ack version ++ rest)
    → 54 ≤ p.link.room
    → built_in_version < version
    → version < word32
    → ((start padding tail p).1 ≡ false) × ((start padding tail p).0.active ≡ false)
unfolding start init_as_master
start_refuses_newer_slave padding tail rest version p h k a m whole e room newer fits =
    let sent = encode_initializer padding tail initializer in
    let ack = encode_ack version in
    let size : length sent ≡ 24 = length-initializer padding tail h k in
    let greeted : Link = record p.link {
      room = p.link.room - 30;
      outbound = p.link.outbound ++ master_hello;
    } in
    let answered : Link = record greeted { inbound = ack ++ rest } in
    let told : Link = record answered {
      room = answered.room - length sent;
      outbound = answered.outbound ++ sent;
    } in
    rw
      (
        a,
        m,
        write_room p.link master_hello (omega arith),
        read_written greeted slave_hello (ack ++ rest) 36 whole e refl,
        write_room answered sent (omega (arith, size)),
        read_written told ack rest ack_size whole refl (length-ack version),
        decode-ack version fits,
      )
      (ground arith)
