-- ===== src/Plexer/Start.antt =====
-- src/YMPlexer.c: YMPlexerStart and the two sides of the opening exchange.
use yammer.Prelude.{
  ℕ, ◌-◌, ◌==◌, leb, Bool, true, false, not, Option, none, some, List, length, if◌then◌else◌,
}
use yammer.Prelude.Bytes.{same_bytes}
use yammer.Plexer.Link.{Link, read, write}
use yammer.Plexer.Messages.{
  built_in_version, stream_id_max, master_hello, slave_hello, Initializer, initializer_size,
  encode_initializer, decode_initializer, ack_size, encode_ack, decode_ack,
}
use yammer.Plexer.State.{Plexer}

abbrev pub with_link : Plexer → Link → Plexer
with_link p l = record p { link = l }

-- What follows if the bytes were read; a failed read ends the exchange.
abbrev pub on_read :
    Plexer → Option (List ℕ) × Link → (Plexer → List ℕ → Plexer × Bool) → Plexer × Bool
on_read p (none, l) k = (with_link p l, false)
on_read p (some bytes, l) k = k (with_link p l) bytes

-- What follows if the bytes were written.
abbrev pub on_write : Plexer → Bool × Link → (Plexer → Plexer × Bool) → Plexer × Bool
on_write p (false, l) k = (with_link p l, false)
on_write p (true, l) k = k (with_link p l)

-- Which ids a side takes, and the last of them, after which the numbering starts over.
abbrev pub take_ids : Plexer → Bool → Plexer
take_ids p even = record p {
  my_streams_even = even;
  local_stream_id_last = (if even then stream_id_max - 1 else stream_id_max);
}

-- __YMPlexerInitAsMaster. `padding` and `tail` are the padding bytes of the initializer.
unfoldable pub init_as_master : List ℕ → List ℕ → Plexer → Plexer × Bool
init_as_master padding tail p = on_write p (write p.link master_hello) (λ p.
    on_read p (read p.link (length slave_hello)) (λ p hello.
      if not (same_bytes slave_hello hello)
      then (p, false)
      else (let q = take_ids p true in
          let initializer : Initializer = record {
            protocol_version = built_in_version;
            master_stream_id_max = stream_id_max;
            even_stream_ids = 1;
          } in
          on_write q (write q.link (encode_initializer padding tail initializer)) (λ q.
            on_read q (read q.link ack_size)
              (λ q ack. (q, leb (decode_ack ack) built_in_version))))))

-- __YMPlexerInitAsSlave
unfoldable pub init_as_slave : Plexer → Plexer × Bool
init_as_slave p = on_read p (read p.link (length master_hello)) (λ p hello.
    if not (same_bytes master_hello hello)
    then (p, false)
    else on_write p (write p.link slave_hello) (λ p.
      on_read p (read p.link initializer_size) (λ p bytes.
        let i = decode_initializer bytes in
        let q = take_ids p (i.even_stream_ids == 0) in
        on_write q (write q.link (encode_ack built_in_version))
          (λ q. (q, leb i.protocol_version built_in_version)))))

abbrev pub activate : Plexer × Bool → Plexer × Bool
activate (p, false) = (p, false)
activate (p, true) = (record p { active = true }, true)

-- YMPlexerStart
unfoldable pub start : List ℕ → List ℕ → Plexer → Plexer × Bool
start padding tail p =
    if p.active
    then (p, false)
    else activate (if p.master then init_as_master padding tail p else init_as_slave p)
