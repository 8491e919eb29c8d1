-- ===== src/Stream.antt =====
-- src/YMStream.c, private/YMStreamPriv.h: what a user reads from and writes to a stream, and how a
-- whole file goes over it. A stream writes down through one compression and reads up through
-- another. The two directions of __YMStreamForward are two functions.
pub mod Chunks
pub mod Sending
pub mod Bounded
pub mod Unbounded
pub mod FromFile
pub mod Receiving
pub mod ReceiveBounded
pub mod ReceiveUnbounded
pub mod ToFile
use yammer.Prelude.{
  ℕ, zero, suc, ◌+◌, ◌-◌, ◌%◌, ◌<◌, ◌≤◌, min, Bool, true, false, not, ◌&&◌, ◌||◌, List, [], ◌∷◌,
  ◌++◌, length, Option, none, some, Outcome, ok, abort, ymassert, ◌>>=◌, ◌>>◌, if◌then◌else◌, ltb,
  leb, ◌==◌, uint16_max, word64, half64,
}
use yammer.Prelude.Bytes.{to_bytes, from_bytes}
use yammer.Io.{
  IoResult, success, eof, error, is_success, is_eof, is_error, Source, Sink, read_full, write_full,
}
use yammer.Compression
use yammer.Compression.{Compression, WriteResult}

pub record Stream : Type 0 where
  pub down_compression : Compression
  pub up_compression : Compression

-- _YMStreamCreate, for the input of one pipe and the output of another.
unfoldable pub create : Sink → Source → Stream
create downstream upstream = record {
  down_compression =
      Compression.create 0 (record { bytes = []; fails = false; grants = [] }) downstream true;
  up_compression =
      Compression.create 0 upstream (record { written = []; room = 0; grants = [] }) false;
}

-- _YMStreamSetCompression: new compressions over the same pipes. Their YMCompressionInit gives true.
unfoldable pub set_compression : Stream → ℕ → Stream
set_compression s type_id =
    let down = s.down_compression in
    let up = s.up_compression in
    record {
      down_compression = Compression.create type_id down.source down.sink true;
      up_compression = Compression.create type_id up.source up.sink false;
    }

-- YMStreamGetPerformance
unfoldable pub get_performance : Stream → (ℕ × ℕ) × (ℕ × ℕ)
get_performance s =
    (Compression.get_performance s.down_compression, Compression.get_performance s.up_compression)

-- The commands, as the bit patterns of an int64_t.
abbrev pub forward_file_bounded : ℕ
forward_file_bounded = 18446744073709551614

abbrev pub forward_file_unbounded : ℕ
forward_file_unbounded = 18446744073709551613

abbrev pub forward_file_end : ℕ
forward_file_end = 18446744073709551612

-- command > 0
abbrev pub is_positive : ℕ → Bool
is_positive command = not (command == 0) && ltb command half64

-- sizeof(_YMStreamCommand) and sizeof(_YMStreamBoundType)
abbrev pub size_of_command : ℕ
size_of_command = 8

-- A uint64_t or int64_t as the eight bytes that go over the stream.
unfoldable pub word_bytes : ℕ → List ℕ
word_bytes x = to_bytes 8 x

abbrev pub buffer_size : ℕ
buffer_size = 16384

abbrev pub is_written : WriteResult → Bool
is_written none = false
is_written (some lengths) = true

-- `remaining` is `none` where a transfer is unbounded.
abbrev pub is_bounded : Option ℕ → Bool
is_bounded none = false
is_bounded (some remaining) = true

-- aDesiredLength, for a buffer of `size` bytes.
abbrev pub desired : ℕ → Option ℕ → ℕ
desired size none = size
desired size (some remaining) = min remaining size

abbrev pub not_exceeded : Option ℕ → ℕ → Bool
not_exceeded none n = true
not_exceeded (some remaining) n = leb n remaining

abbrev pub left : Option ℕ → ℕ → Option ℕ
left none n = none
left (some remaining) n = some (remaining - n)

abbrev pub is_done : Option ℕ → Bool
is_done none = false
is_done (some remaining) = remaining == 0

-- aResult after a round: what it wrote was written with success.
abbrev pub round_result : List ℕ → IoResult → IoResult
round_result [] result = result
round_result (b ∷ bs) result = success

-- What a transfer came to: aResult and off, the file, the stream.
pub record Transfer (File : Type 0) : Type 0 where
  pub result : IoResult
  pub off : ℕ
  pub file : File
  pub stream : Stream

abbrev pub forwarded_before : {File : Type 0} → ℕ → Transfer File → Transfer File
forwarded_before n t = record t { off = n + t.off }

-- The end of a round whose chunk has been written: `here` if it is the last one, `next` if not.
abbrev pub end_round :
    {File : Type 0}
    → IoResult
    → Option ℕ
    → ℕ
    → Transfer File
    → Outcome (Transfer File)
    → Outcome (Transfer File)
end_round result after n here next = do
  t ← if is_eof result || is_done after then ok here else next
  ok (forwarded_before n t)

-- inBytes != NULL and off != *inBytes fail an assertion.
abbrev pub same_bound : Option ℕ → ℕ → Bool
same_bound none off = true
same_bound (some n) off = off == n

module _ (compress : List ℕ → List ℕ) (pad : ℕ) where
  -- YMStreamWriteDown. Its loop ends after one round, which counts all of the buffer as written.
  unfoldable pub write_down : Stream → List ℕ → Outcome Stream
  write_down s b = do
    (result, down) ← Compression.write compress pad s.down_compression b
    ymassert (is_written result)
    ok (record s { down_compression = down })

  -- A chunk that the file gave goes into the stream, after its length if the transfer is unbounded.
  unfoldable pub write_chunk : Bool → Stream → List ℕ → Outcome Stream
  write_chunk bounded s [] = ok s
  write_chunk true s (b ∷ bs) = write_down s (b ∷ bs)
  write_chunk false s (b ∷ bs) = do
    s' ← write_down s (word_bytes (length (b ∷ bs)))
    write_down s' (b ∷ bs)

  -- The rounds of __YMStreamForward from a file to the stream.
  unfoldable pub from_file_loop : ℕ → ℕ → Option ℕ → Stream → Source → Outcome (Transfer Source)
  from_file_loop zero size remaining s file = abort
  from_file_loop (suc n) size remaining s file = do
    (chunk, result, file') ← read_full file (desired size remaining)
    ymassert (is_success result && (length chunk == desired size remaining) || is_eof result)
    s' ← write_chunk (is_bounded remaining) s chunk
    ymassert (not_exceeded remaining (length chunk))
    let after = left remaining (length chunk)
    let next = from_file_loop n size after s' file'
    let here : Transfer Source = record {
      result = round_result chunk result;
      off = 0;
      file = file';
      stream = s';
    }
    end_round result after (length chunk) here next

  -- A command, and the bound of a transfer that has one.
  unfoldable pub write_prefix : Stream → Option ℕ → Outcome Stream
  write_prefix s none = write_down s (word_bytes forward_file_unbounded)
  write_prefix s (some n) = do
    s' ← write_down s (word_bytes forward_file_bounded)
    write_down s' (word_bytes n)

  unfoldable pub write_end : Option ℕ → Transfer Source → Outcome (Transfer Source)
  write_end (some n) t = ok t
  write_end none t = do
    s ← write_down t.stream (word_bytes forward_file_end)
    ok (record t { result = success; stream = s })

  -- YMStreamReadFromFile, which is __YMStreamForward from a file to the stream. Every round but the
  -- last takes a byte of the file, so that it has the rounds that it needs.
  unfoldable pub read_from_file : Stream → Source → Option ℕ → Outcome (Transfer Source)
  read_from_file s file in_bytes = do
    s' ← write_prefix s in_bytes
    t ← from_file_loop (suc (length file.bytes)) buffer_size in_bytes s' file
    t' ← write_end in_bytes t
    ymassert (same_bound in_bytes t'.off)
    ok t'

-- A chunk that the stream gave goes into the file.
abbrev pub write_raw : Sink → List ℕ → Outcome Sink
write_raw file [] = ok file
write_raw file (b ∷ bs) = write_full file (b ∷ bs)

module _ (decompress : List ℕ → ℕ → Option (List ℕ)) where
  -- YMStreamReadUp. A round that is not the last has read all that was asked for, so that the loop ends
  -- after the first.
  unfoldable pub read_up : Stream → ℕ → Outcome (List ℕ × IoResult × Stream)
  read_up s l = do
    (bytes, result, up) ← Compression.read decompress s.up_compression l
    ymassert (not (is_error result))
    ymassert (is_eof result || length bytes == l)
    ok (bytes, result, record s { up_compression = up })

  -- A command or a bound, which has to be there in full.
  unfoldable pub read_word : Stream → Outcome (ℕ × Stream)
  read_word s = do
    (bytes, result, s') ← read_up s size_of_command
    ymassert (is_success result && (length bytes == size_of_command))
    ok (from_bytes bytes, s')

  unfoldable pub read_chunk : Stream → ℕ → Outcome (List ℕ × IoResult × Stream)
  read_chunk s l = do
    (chunk, result, s') ← read_up s l
    ymassert (length chunk == l || is_eof result)
    ok (chunk, result, s')

  -- The chunk that a command announces. What is longer than the buffer of `size` bytes is written past
  -- its end, which stands here as `abort`.
  unfoldable pub read_announced : ℕ → ℕ → Stream → Outcome (List ℕ × IoResult × Stream)
  read_announced size command s =
      let announced = do
        ymassert (is_positive command)
        ymassert (leb command uint16_max)
        ymassert (leb command size)
        read_chunk s command
      in if command == forward_file_end then ok ([], eof, s) else announced

  unfoldable pub receive : ℕ → Option ℕ → Stream → Outcome (List ℕ × IoResult × Stream)
  receive size (some remaining) s = read_chunk s (min remaining size)
  receive size none s = do (command, s') ← read_word s; read_announced size command s'

  -- The rounds of __YMStreamForward from the stream to a file.
  unfoldable pub to_file_loop : ℕ → ℕ → Option ℕ → Stream → Sink → Outcome (Transfer Sink)
  to_file_loop zero size remaining s file = abort
  to_file_loop (suc n) size remaining s file = do
    (chunk, result, s') ← receive size remaining s
    file' ← write_raw file chunk
    ymassert (not_exceeded remaining (length chunk))
    let after = left remaining (length chunk)
    let next = to_file_loop n size after s' file'
    let here : Transfer Sink = record {
      result = round_result chunk result;
      off = 0;
      file = file';
      stream = s';
    }
    end_round result after (length chunk) here next

  unfoldable pub read_bound : ℕ → Stream → Outcome (Option ℕ × Stream)
  read_bound command s =
      let bounded = do (n, s') ← read_word s; ok (some n, s')
      in let unbounded = do ymassert (command == forward_file_unbounded); ok (none, s)
        in if command == forward_file_bounded then bounded else unbounded

  -- YMStreamWriteToFile, which is __YMStreamForward from the stream to a file. Every round but the last
  -- takes a byte of the stream.
  unfoldable pub write_to_file : Stream → Sink → Option ℕ → Outcome (Transfer Sink)
  write_to_file s file in_bytes = do
    (command, s1) ← read_word s
    (remaining, s2) ← read_bound command s1
    t ← to_file_loop (suc (length s2.up_compression.source.bytes)) buffer_size remaining s2 file
    ymassert (same_bound in_bytes t.off)
    ok t
