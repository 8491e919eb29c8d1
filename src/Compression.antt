-- ===== src/Compression.antt =====
-- src/YMCompression.c: reading and writing a file through an
-- algorithm. What YM_IMPLEMENTED guards is not compiled, so that two algorithms are left: none, and
-- LZ4, whose every write becomes a header and a block. LZ4_compress_default and LZ4_decompress_safe are
-- parameters: `compress` gives no byte where it fails, `decompress` a block and the capacity to `none`.
-- `pad` is the byte of the header that no field covers.
pub mod Frames
pub mod RoundTrip
pub mod Reads
use yammer.Prelude.{
  ℕ, ◌+◌, ◌%◌, Bool, true, false, not, ◌||◌, List, [], ◌∷◌, ◌++◌, length, Option, none, some,
  Outcome, ok, abort, ymassert, ◌>>=◌, ◌>>◌, if◌then◌else◌, ltb, leb, ◌==◌, uint16_max, word64,
}
use yammer.Prelude.Bytes.{to_bytes, from_bytes}
use yammer.Io.{IoResult, success, is_success, is_error, Source, Sink, read_full, write_full}

-- The functions that a type stands for.
pub data Algorithm : Type 0 where
  no_compression lz4 : Algorithm

-- `source` is what reading the file gives, `sink` what writing it does.
pub record Compression : Type 0 where
  pub algorithm : Algorithm
  pub compressing : Bool
  pub source : Source
  pub sink : Sink
  pub in_bytes : ℕ
  pub out_bytes : ℕ

-- YMCompressionLZ4 is 400.
unfoldable pub create : ℕ → Source → Sink → Bool → Compression
create type_id source sink compressing = record {
  algorithm = if type_id == 400 then lz4 else no_compression;
  compressing = compressing;
  source = source;
  sink = sink;
  in_bytes = 0;
  out_bytes = 0;
}

unfoldable pub read_underlying : Compression → ℕ → Outcome (List ℕ × IoResult × Compression)
read_underlying c l = do
  ymassert (not c.compressing)
  (bytes, result, s) ← read_full c.source l
  ymassert (leb (length bytes) uint16_max)
  ymassert (not (is_error result))
  ok (bytes, result, record c { source = s })

-- YMWriteFull writes all of `bytes` or stops the process, so that the result is success.
unfoldable pub write_underlying : Compression → List ℕ → Outcome Compression
write_underlying c bytes = do
  ymassert c.compressing
  k ← write_full c.sink bytes
  ymassert (leb (length bytes) uint16_max)
  ok (record c { sink = k })

abbrev pub count_bytes : Compression → ℕ → ℕ → Compression
count_bytes c i o = record c {
  in_bytes = (c.in_bytes + i) % word64;
  out_bytes = (c.out_bytes + o) % word64;
}

-- YMNoCompressionRead
unfoldable pub no_compression_read : Compression → ℕ → Outcome (List ℕ × IoResult × Compression)
no_compression_read c l = read_underlying (count_bytes c l l) l

-- What a write puts in `*o` and `*oh`, `none` for YMIOError, which sets neither.
abbrev pub WriteResult : Type 0
WriteResult = Option (ℕ × ℕ)

-- YMNoCompressionWrite
unfoldable pub no_compression_write : Compression → List ℕ → Outcome (WriteResult × Compression)
no_compression_write c b = do
  c' ← write_underlying (count_bytes c (length b) (length b)) b
  ok (some (length b, 0), c')

-- __ym_lz4_packed: `compressed`, a byte of padding, `size`.
pub record Packed : Type 0 where
  pub compressed : ℕ
  pub size : ℕ

abbrev pub size_of_packed : ℕ
size_of_packed = 4

-- bufSize of YMLZ4Read: sizeof(__ym_lz4_packed) + UINT16_MAX.
abbrev pub buf_size : ℕ
buf_size = 65539

unfoldable pub pack : ℕ → Packed → List ℕ
pack pad p = p.compressed ∷ pad ∷ to_bytes 2 p.size

unfoldable pub unpack : List ℕ → Option Packed
unpack (flag ∷ pad ∷ lo ∷ hi ∷ []) =
    some (record { compressed = flag; size = from_bytes (lo ∷ hi ∷ []) })
unpack bytes = none

-- What a header that is not read in full has in `compressed`: 0 stands for a byte that nothing set.
abbrev pub first_byte : List ℕ → ℕ
first_byte [] = 0
first_byte (b ∷ bs) = b

-- The end of YMLZ4Read. `*o` counts the bytes that are returned.
abbrev pub catch_return :
    Compression → ℕ → List ℕ → IoResult → Outcome (List ℕ × IoResult × Compression)
catch_return c flag bytes result = ok (bytes, result, count_bytes c flag (length bytes))

-- What LZ4_decompress_safe gave. A size that is negative is a large size_t, so that a block that does
-- not decompress fails the assertion as one that is too long does.
abbrev pub after_decompress :
    Compression → ℕ → ℕ → Option (List ℕ) → Outcome (List ℕ × IoResult × Compression)
after_decompress c flag l none = abort
after_decompress c flag l (some bytes) = do
  ymassert (leb (length bytes) l)
  catch_return c flag bytes success

module _ (decompress : List ℕ → ℕ → Option (List ℕ)) where
  unfoldable pub lz4_decompressed :
      Compression → ℕ → ℕ → List ℕ → Outcome (List ℕ × IoResult × Compression)
  lz4_decompressed c flag l block = after_decompress c flag l (decompress block buf_size)

  -- A block that is not compressed is read into `b`; more than its `l` bytes do not fit. Where the
  -- block is not of `l` bytes, `*o` is 0 and the result is the one of the read.
  unfoldable pub lz4_read_block :
      Compression → ℕ → Packed → Outcome (List ℕ × IoResult × Compression)
  lz4_read_block c l p =
      let raw = do
        ymassert (leb p.size l)
        (bytes, result, c') ← read_underlying c p.size
        let short = not (is_success result) || not (length bytes == l)
        catch_return c' p.compressed (if short then [] else bytes) result
      in let block = do
        (bytes, result, c') ← read_underlying c p.size
        let failed = catch_return c' p.compressed [] result
        if is_success result then lz4_decompressed c' p.compressed l bytes else failed
        in if p.compressed == 0 then raw else block

  -- YMLZ4Read
  unfoldable pub lz4_read : Compression → ℕ → Outcome (List ℕ × IoResult × Compression)
  lz4_read c l = do
    ymassert (not c.compressing)
    ymassert (leb l uint16_max)
    (header, result, c') ← read_underlying c size_of_packed
    elim (unpack header) [
      | none ↦ catch_return c' (first_byte header) [] result
      | some p ↦ lz4_read_block c' l p
    ]

  -- YMCompressionRead
  unfoldable pub read : Compression → ℕ → Outcome (List ℕ × IoResult × Compression)
  read c l = do
    ymassert (not c.compressing)
    elim c.algorithm [ no_compression ↦ no_compression_read c l | lz4 ↦ lz4_read c l ]

module _ (compress : List ℕ → List ℕ) (pad : ℕ) where
  unfoldable pub lz4_write_block :
      Compression → List ℕ → List ℕ → Outcome (WriteResult × Compression)
  lz4_write_block c b packed = do
    let smaller = ltb (length packed) (length b)
    let block = if smaller then packed else b
    let p : Packed = record { compressed = if smaller then 1 else 0; size = length block % 65536 }
    c1 ← write_underlying c (pack pad p)
    c2 ← write_underlying c1 block
    ok (some (length block, size_of_packed), count_bytes c2 (length b) (length block))

  -- YMLZ4Write
  unfoldable pub lz4_write : Compression → List ℕ → Outcome (WriteResult × Compression)
  lz4_write c b = do
    ymassert c.compressing
    ymassert (leb (length b) uint16_max)
    let written = lz4_write_block c b (compress b)
    if length (compress b) == 0 then ok (none, c) else written

  -- YMCompressionWrite
  unfoldable pub write : Compression → List ℕ → Outcome (WriteResult × Compression)
  write c b = do
    ymassert c.compressing
    elim c.algorithm [ no_compression ↦ no_compression_write c b | lz4 ↦ lz4_write c b ]

-- YMCompressionGetPerformance
unfoldable pub get_performance : Compression → ℕ × ℕ
get_performance c = (c.in_bytes, c.out_bytes)
