-- ===== src/Tests/Transfers.antt =====
-- src/YMUtilities.c, src/YMCompression.c and src/YMStream.c on concrete files: reads and writes that are cut
-- up, a block that becomes shorter and blocks that do not, transfers with a bound and without.
use yammer.Prelude.{
  ℕ, zero, suc, ◌<◌, ◌≤◌, ◌≡◌, refl, ap, sym, ◌⊎◌, inl, inr, true, false, List, [], ◌∷◌, ◌++◌, drop,
  length, Option, none, some, ok, abort, arith, if◌then◌else◌, Bool-cases,
}
use yammer.Prelude.Bytes.{same_bytes, same_bytes-eq, to_bytes}
use yammer.Io.{
  Source, Sink, success, eof, read_full, write_full, read_file, read_loop, write_loop, write_file,
}
use yammer.Io.Full.{IsRest, ending, read_full_lem}
use yammer.Io.Writes.{IsWritten, write_full_lem}
use yammer.Compression.{
  lz4_write, lz4_write_block, write_underlying, pack, Compression, lz4, read, write,
}
use yammer.Compression.Frames.{HasRead, Written}
use yammer.Compression.RoundTrip.{write_lem}
use yammer.Compression.Reads.{read-frame}
use yammer.Stream.{
  write_prefix, write_down, from_file_loop, write_chunk, write_end, Stream, Transfer,
  read_from_file, write_to_file, word_bytes,
}
use yammer.Stream.Chunks.{frames, messages}
use yammer.Stream.Sending.{IsSent, CanSend, IsCompressor}
use yammer.Stream.FromFile.{read_from_file_lem}
use yammer.Stream.Receiving.{IsReceived, TurnsBack}
use yammer.Stream.ToFile.{write_to_file_lem, round_trip}

-- A file that gives one byte, then two, then all that are asked for.
abbrev trickle : List ℕ → Source
trickle bytes = record { bytes = bytes; fails = false; grants = 1 ∷ 2 ∷ [] }

abbrev roomy : Sink
roomy = record { written = 5 ∷ []; room = 1000; grants = 3 ∷ 0 ∷ [] }

read_full_example :
    (s' : Source) × (read_full (trickle (1 ∷ 2 ∷ 3 ∷ 4 ∷ 5 ∷ [])) 4
      ≡ ok (1 ∷ 2 ∷ 3 ∷ 4 ∷ [], ending (trickle (1 ∷ 2 ∷ 3 ∷ 4 ∷ 5 ∷ [])) 4, s'))
    × IsRest (trickle (1 ∷ 2 ∷ 3 ∷ 4 ∷ 5 ∷ [])) 4 s'
read_full_example = read_full_lem (trickle (1 ∷ 2 ∷ 3 ∷ 4 ∷ 5 ∷ [])) 4 (omega arith)

abbrev five : List ℕ
five = 1 ∷ 2 ∷ 3 ∷ 4 ∷ 5 ∷ []

write_full_example :
    ((length five ≤ roomy.room)
      × ((k' : Sink) × (write_full roomy five ≡ ok k') × IsWritten roomy five k'))
    ⊎ ((roomy.room < length five) × (write_full roomy five ≡ abort))
write_full_example = write_full_lem roomy five (omega arith)

-- A compressor that knows one block, and keeps what else there is behind a 0.
abbrev sevens : List ℕ
sevens = 7 ∷ 7 ∷ 7 ∷ 7 ∷ []

abbrev pack_sevens : List ℕ → List ℕ
pack_sevens b = if same_bytes b sevens then 1 ∷ [] else 0 ∷ b

abbrev unpack_sevens : List ℕ → ℕ → Option (List ℕ)
unpack_sevens [] n = none
unpack_sevens (zero ∷ b) n = some b
unpack_sevens (suc k ∷ b) n = some sevens

pack_sevens-IsCompressor : IsCompressor pack_sevens
pack_sevens-IsCompressor b = ground arith

unpack_sevens-TurnsBack : TurnsBack pack_sevens unpack_sevens
unpack_sevens-TurnsBack b small = elim (Bool-cases (same_bytes b sevens)) [
  | inl known ↦ simp known (ap some (sym (same_bytes-eq b sevens known)))
  | inr other ↦ simp other
]

abbrev writer : Compression
writer = record {
  algorithm = lz4;
  compressing = true;
  source = trickle [];
  sink = roomy;
  in_bytes = 0;
  out_bytes = 0;
}

abbrev reader : List ℕ → Compression
reader bytes = record {
  algorithm = lz4;
  compressing = false;
  source = trickle bytes;
  sink = roomy;
  in_bytes = 0;
  out_bytes = 0;
}

write_example : Written pack_sevens 0 writer sevens
unfolding to_bytes
write_example =
    write_lem pack_sevens 0 writer sevens refl (omega arith) (omega arith) (omega arith)
      (omega arith)

read_example :
    (c' : Compression) × (read unpack_sevens (reader (1 ∷ 0 ∷ 1 ∷ 0 ∷ 1 ∷ 9 ∷ [])) (length sevens)
      ≡ ok (sevens, success, c'))
    × HasRead (reader (1 ∷ 0 ∷ 1 ∷ 0 ∷ 1 ∷ 9 ∷ [])) (9 ∷ []) c'
unfolding to_bytes
read_example =
    read-frame pack_sevens 0 unpack_sevens (reader (1 ∷ 0 ∷ 1 ∷ 0 ∷ 1 ∷ 9 ∷ [])) sevens (9 ∷ [])
      refl (omega arith) (omega arith) (omega arith) refl refl

abbrev sender : Stream
sender = record { down_compression = writer; up_compression = reader [] }

abbrev receiver : List ℕ → Stream
receiver bytes = record { down_compression = writer; up_compression = reader bytes }

sender-CanSend : CanSend lz4 (length (frames pack_sevens 0 lz4 (messages (some 4) sevens))) sender
unfolding to_bytes word_bytes
sender-CanSend = record { algorithm = refl; writing = refl; room = omega arith }

-- Four bytes of a file that has five.
read_from_file_example :
    (t : Transfer Source) × (read_from_file pack_sevens 0 sender
        (trickle (7 ∷ 7 ∷ 7 ∷ 7 ∷ 9 ∷ []))
        (some 4)
      ≡ ok t)
    × (t.result ≡ success)
    × (t.off ≡ 4)
    × (t.file.bytes ≡ 9 ∷ [])
    × IsSent sender (frames pack_sevens 0 lz4 (messages (some 4) sevens)) t.stream
read_from_file_example =
    read_from_file_lem pack_sevens 0 pack_sevens-IsCompressor lz4 sender
      (trickle (7 ∷ 7 ∷ 7 ∷ 7 ∷ 9 ∷ [])) (some 4) sevens (9 ∷ []) (omega arith, refl, refl)
      sender-CanSend

write_to_file_example :
    (t : Transfer Sink) × (write_to_file unpack_sevens
        (receiver (frames pack_sevens 0 lz4 (messages none sevens) ++ (9 ∷ [])))
        roomy
        (some 4)
      ≡ ok t)
    × (t.result ≡ eof)
    × IsReceived roomy sevens lz4 (9 ∷ []) t
write_to_file_example =
    write_to_file_lem pack_sevens 0 pack_sevens-IsCompressor unpack_sevens unpack_sevens-TurnsBack
      lz4 (receiver (frames pack_sevens 0 lz4 (messages none sevens) ++ (9 ∷ []))) roomy none
      (some 4) sevens (9 ∷ []) tt refl (omega arith)
      (record { algorithm = refl; reading = refl; coming = refl })

-- What the transfer of read_from_file_example comes to.
abbrev sent : Transfer Source
sent = record {
  result = success;
  off = 4;
  file = record { bytes = 9 ∷ []; fails = false; grants = [] };
  stream = record {
    down_compression = record {
      algorithm = lz4;
      compressing = true;
      source = trickle [];
      sink = record {
        written =
            5 ∷ 0 ∷ 0 ∷ 8 ∷ 0 ∷ 254 ∷ 255 ∷ 255 ∷ 255 ∷ 255 ∷ 255 ∷ 255 ∷ 255 ∷ 0 ∷ 0 ∷ 8 ∷ 0 ∷ 4
            ∷ 0 ∷ 0 ∷ 0 ∷ 0 ∷ 0 ∷ 0 ∷ 0 ∷ 1 ∷ 0 ∷ 1 ∷ 0 ∷ 1 ∷ [];
        room = 971;
        grants = [];
      };
      in_bytes = 20;
      out_bytes = 17;
    };
    up_compression = reader [];
  };
}

sent_run : read_from_file pack_sevens 0 sender (trickle (7 ∷ 7 ∷ 7 ∷ 7 ∷ 9 ∷ [])) (some 4) ≡ ok sent
unfolding read_from_file write_prefix write_down write lz4_write lz4_write_block write_underlying
    write_full write_loop write_file pack to_bytes word_bytes from_file_loop read_full read_loop
    read_file write_chunk write_end
sent_run = refl

round_trip_example :
    (t : Transfer Sink) × (write_to_file unpack_sevens
        (receiver (drop 1 sent.stream.down_compression.sink.written ++ (9 ∷ [])))
        roomy
        none
      ≡ ok t)
    × IsReceived roomy sevens lz4 (9 ∷ []) t
round_trip_example =
    round_trip pack_sevens 0 pack_sevens-IsCompressor unpack_sevens unpack_sevens-TurnsBack lz4
      sender (receiver (drop 1 sent.stream.down_compression.sink.written ++ (9 ∷ [])))
      (trickle (7 ∷ 7 ∷ 7 ∷ 7 ∷ 9 ∷ [])) roomy (some 4) sevens (9 ∷ []) (9 ∷ []) sent
      (omega arith, refl, refl) (omega arith, refl, omega arith) sender-CanSend sent_run
      (record { algorithm = refl; reading = refl; coming = refl }) (omega arith)
