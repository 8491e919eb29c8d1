-- ===== src/Io.antt =====
-- src/YMUtilities.c: YMReadFull and YMWriteFull, over the read and write of the operating system. A
-- file that is read is a `Source`: the bytes that will come, whether an error or the end of the file
-- follows them, and how many bytes each read is granted, since a read may return fewer bytes than
-- it is asked for. A file that is written is a `Sink`, with the room before its writes fail. A read
-- or a write is granted one byte at least, and all that it asks for when `grants` is used up.
pub mod Full
pub mod Writes
use yammer.Prelude.{
  ℕ, zero, suc, ◌-◌, min, ◌==◌, Bool, true, false, not, List, [], ◌∷◌, ◌++◌, take, drop, length,
  Outcome, ok, abort, ymassert, ◌>>=◌, ◌>>◌, if◌then◌else◌,
}

-- YMIOResult
pub data IoResult : Type 0 where
  success eof error : IoResult

abbrev pub is_success : IoResult → Bool
is_success success = true
is_success eof = false
is_success error = false

abbrev pub is_eof : IoResult → Bool
is_eof success = false
is_eof eof = true
is_eof error = false

abbrev pub is_error : IoResult → Bool
is_error success = false
is_error eof = false
is_error error = true

pub record Source : Type 0 where
  pub bytes : List ℕ
  pub fails : Bool
  pub grants : List ℕ

pub record Sink : Type 0 where
  pub written : List ℕ
  pub room : ℕ
  pub grants : List ℕ

-- How many of `count` bytes the next call is granted.
abbrev pub granted : List ℕ → ℕ → ℕ
granted [] count = count
granted (g ∷ gs) count = if g == 0 then 1 else min g count

abbrev pub later : List ℕ → List ℕ
later [] = []
later (g ∷ gs) = gs

-- What read() returned: bytes, 0 or -1.
pub data ReadResult : Type 0 where
  got : List ℕ → ReadResult
  at_end failed : ReadResult

abbrev pub read_bytes : List ℕ → Bool → ℕ → ReadResult
read_bytes [] false n = at_end
read_bytes [] true n = failed
read_bytes (b ∷ bs) fails n = got (take n (b ∷ bs))

-- YM_READ_FILE
unfoldable pub read_file : Source → ℕ → ReadResult × Source
read_file s count =
    let n = min (granted s.grants count) (length s.bytes) in
    (read_bytes s.bytes s.fails n, record s { bytes = drop n s.bytes; grants = later s.grants })

abbrev pub prepend : List ℕ → List ℕ × IoResult × Source → List ℕ × IoResult × Source
prepend chunk (rest, result, s) = (chunk ++ rest, result, s)

-- What a round of the loop does with the result of its read; `rest` are the further rounds.
abbrev pub after_read :
    ReadResult → Source → (ℕ → List ℕ × IoResult × Source) → List ℕ × IoResult × Source
after_read at_end s rest = ([], eof, s)
after_read failed s rest = ([], error, s)
after_read (got chunk) s rest = prepend chunk (rest (length chunk))

-- The loop of YMReadFull with `count` bytes to go. A round reads one byte at least.
unfoldable pub read_loop : ℕ → Source → ℕ → List ℕ × IoResult × Source
read_loop zero s count = ([], success, s)
read_loop (suc n) s count =
    let (result, s') = read_file s count in
    let rest = after_read result s' (λ k. read_loop n s' (count - k)) in
    if count == 0 then ([], success, s) else rest

-- YMReadFull, into a buffer that is not NULL.
unfoldable pub read_full : Source → ℕ → Outcome (List ℕ × IoResult × Source)
read_full s count = do ymassert (not (count == 0)); ok (read_loop count s count)

-- YM_WRITE_FILE: how many bytes are written, 0 for a failure as well, since both stop the process.
unfoldable pub write_file : Sink → List ℕ → ℕ × Sink
write_file k bytes =
    let n = min (granted k.grants (length bytes)) k.room in
    (
      n,
      record k { written = k.written ++ take n bytes; room = k.room - n; grants = later k.grants },
    )

-- The loop of YMWriteFull.
unfoldable pub write_loop : ℕ → Sink → List ℕ → Outcome Sink
write_loop n k [] = ok k
write_loop zero k (b ∷ bs) = abort
write_loop (suc n) k (b ∷ bs) =
    let (result, k') = write_file k (b ∷ bs) in
    let rest = write_loop n k' (drop result (b ∷ bs)) in if result == 0 then abort else rest

-- YMWriteFull: it writes all bytes with success, or stops the process.
unfoldable pub write_full : Sink → List ℕ → Outcome Sink
write_full k bytes = do ymassert (not (length bytes == 0)); write_loop (length bytes) k bytes
