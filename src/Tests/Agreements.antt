-- ===== src/Tests/Agreements.antt =====
-- src/YMConnection.c on concrete streams: a request for LZ4, a refusal that is not noticed, and a sample
-- of 16384 bytes.
use yammer.Prelude.{
  ℕ, ◌≡◌, refl, inr, Bool, true, false, List, [], ◌∷◌, ◌++◌, Option, none, some, ok, arith, length,
  drop, ◌/◌,
}
use yammer.Prelude.Bytes.{to_bytes, from_bytes}
use yammer.Io.Writes.{IsWritten}
use yammer.Io.{Source, Sink, read_full, read_loop, read_file}
use yammer.Compression.{Compression, no_compression, read, no_compression_read, read_underlying}
use yammer.Compression.Frames.{frame}
use yammer.Stream.{Stream, read_up}
use yammer.Stream.Sending.{IsCompressor}
use yammer.Stream.Receiving.{CanReceive, TurnsBack}
use yammer.Connection.{init_bytes, stream_okay, initialize_incoming, outgoing_response}
use yammer.Connection.Exchange.{zeros}
use yammer.Connection.Exchange.Both.{length-zeros}
use yammer.Connection.Sample.{do_sample}
use yammer.Connection.Sample.Halves.{do_sample_lem}
use yammer.Connection.Agreement.{
  algorithm_of, initialize_incoming_accepts, outgoing_response_accepts,
}

abbrev source : List ℕ → Source
source bytes = record { bytes = bytes; fails = false; grants = 1 ∷ [] }

abbrev sink : Sink
sink = record { written = 5 ∷ []; room = 100; grants = [] }

abbrev fresh : Bool → List ℕ → ℕ → Compression
fresh compressing bytes count = record {
  algorithm = no_compression;
  compressing = compressing;
  source = source bytes;
  sink = sink;
  in_bytes = count;
  out_bytes = count;
}

abbrev stream : List ℕ → Stream
stream bytes = record { down_compression = fresh true [] 0; up_compression = fresh false bytes 0 }

-- A compressor that never makes a block shorter.
abbrev mark : List ℕ → List ℕ
mark b = 1 ∷ b

abbrev unmark : List ℕ → ℕ → Option (List ℕ)
unmark [] n = none
unmark (x ∷ xs) n = some xs

mark-IsCompressor : IsCompressor mark
mark-IsCompressor b = omega arith

unmark-TurnsBack : TurnsBack mark unmark
unmark-TurnsBack b small = refl

initialize_incoming_accepts_example :
    (s' : Stream) × (initialize_incoming mark 0 unmark (stream (1 ∷ 0 ∷ 144 ∷ 1 ∷ 77 ∷ []))
      ≡ ok (true, s'))
    × CanReceive (algorithm_of 400) (77 ∷ []) s'
    × (s'.down_compression.algorithm ≡ algorithm_of 400)
    × (s'.down_compression.sink.written
        ≡ (5 ∷ []) ++ frame mark 0 (algorithm_of 400) (to_bytes 2 stream_okay))
unfolding init_bytes to_bytes
initialize_incoming_accepts_example =
    initialize_incoming_accepts mark 0 mark-IsCompressor unmark unmark-TurnsBack
      (stream (1 ∷ 0 ∷ 144 ∷ 1 ∷ 77 ∷ [])) 400 (77 ∷ []) (inr refl)
      (record { algorithm = refl; reading = refl; coming = refl }) (omega arith)

-- The other end does not know the version.
abbrev refused : Bool × Stream
refused = (
  true,
  record {
    down_compression = fresh true [] 0;
    up_compression = record {
      algorithm = no_compression;
      compressing = false;
      source = record { bytes = []; fails = false; grants = [] };
      sink = sink;
      in_bytes = 2;
      out_bytes = 2;
    };
  },
)

refused_run : outgoing_response unmark (stream (2 ∷ 0 ∷ [])) ≡ ok refused
unfolding outgoing_response read_up read no_compression_read read_underlying read_full read_loop
    read_file from_bytes
refused_run = refl

outgoing_response_accepts_example : refused.0 ≡ true
outgoing_response_accepts_example =
    outgoing_response_accepts unmark (stream (2 ∷ 0 ∷ [])) refused.1 refused.0 refused_run

-- A server that samples 16384 bytes on a socket that takes 10000.
abbrev sampled : Source
sampled = record { bytes = zeros 8192; fails = false; grants = 100 ∷ [] }

abbrev roomy : Sink
roomy = record { written = []; room = 10000; grants = 5000 ∷ [] }

abbrev counted : ℕ → ℕ
counted calls = calls

do_sample_example :
    (bytes : List ℕ) × (s' : Source) × (k' : Sink) × (do_sample counted 7000 8193 16384 true sampled
        roomy
      ≡ some (7000, s', k'))
    × (length bytes ≡ 16384 / 2)
    × IsWritten roomy bytes k'
    × (s'.bytes ≡ drop (16384 / 2) (zeros 8192))
do_sample_example =
    do_sample_lem counted 7000 8192 16384 true sampled roomy refl (omega arith)
      (omega (arith, length-zeros 8192)) (omega arith)
