-- ===== src/Compression/Frames.antt =====
-- src/YMCompression.c: what a write puts into the file, and that a read of it gives the bytes back.
use yammer.Prelude.{
  ℕ, ◌+◌, ◌-◌, ◌%◌, ◌<◌, ◌≤◌, ◌≡◌, refl, ap, ◌∙◌, ltb, le→leb, true, false, List, ◌∷◌, ◌++◌, take,
  drop, length, take-append, drop-append, length-append, some, ok, arith, if◌then◌else◌, uint16_max,
}
use mathlib.Core.List.{append_assoc}
use yammer.Prelude.Bytes.{to_bytes, length-to_bytes}
use yammer.Io.{Source, success, read_full}
use yammer.Io.Full.{read_full_lem, same_source, ending-fits}
use yammer.Io.Writes.{write_full-fits}
use yammer.Compression.{
  Algorithm, no_compression, lz4, Compression, read_underlying, write_underlying, count_bytes,
  no_compression_write, pack, lz4_write_block, write,
}

-- What a reader keeps: its counts aside, all but the bytes that it took.
pub record HasRead (c : Compression) (rest : List ℕ) (c' : Compression) : Type 0 where
  pub rest_left : c'.source.bytes ≡ rest
  pub same_end : c'.source.fails ≡ c.source.fails
  pub same_algorithm : c'.algorithm ≡ c.algorithm
  pub still_reading : c'.compressing ≡ c.compressing

-- What a writer keeps: its counts aside, all but the bytes that it put out.
pub record HasWritten (c : Compression) (bytes : List ℕ) (c' : Compression) : Type 0 where
  pub written : c'.sink.written ≡ c.sink.written ++ bytes
  pub room_left : c'.sink.room ≡ c.sink.room - length bytes
  pub same_algorithm : c'.algorithm ≡ c.algorithm
  pub still_writing : c'.compressing ≡ c.compressing

-- A read of no more bytes than there are.
pub read_full-front :
    (s : Source) (front rest : List ℕ)
    → 0 < length front
    → s.bytes ≡ front ++ rest
    → (s' : Source) × (read_full s (length front) ≡ ok (front, success, s'))
      × (s'.bytes ≡ rest)
      × (s'.fails ≡ s.fails)
read_full-front s front rest h e =
    let (s', ran, left) = read_full_lem s (length front) h in
    let long : length front ≤ length s.bytes =
      omega (arith, ap length e, length-append front rest) in
    (
      s',
      ran
          ∙ ap ok (
              same_source s' (ap (take (length front)) e ∙ take-append front rest)
                (ending-fits s (length front) long)),
      left.bytes_left ∙ ap (drop (length front)) e ∙ drop-append front rest,
      left.same_end,
    )

pub read_underlying-front :
    (c : Compression) (front rest : List ℕ)
    → 0 < length front
    → length front ≤ uint16_max
    → c.compressing ≡ false
    → c.source.bytes ≡ front ++ rest
    → (c' : Compression) × (read_underlying c (length front) ≡ ok (front, success, c'))
      × HasRead c rest c'
unfolding read_underlying
read_underlying-front c front rest h small reads e =
    let (s', ran, left, same) = read_full-front c.source front rest h e in
    (
      record c { source = s' },
      simp (reads, ran, le→leb (length front) uint16_max small),
      record { rest_left = left; same_end = same; same_algorithm = refl; still_reading = refl },
    )

write_underlying_lem :
    (c : Compression) (bytes : List ℕ)
    → 0 < length bytes
    → length bytes ≤ uint16_max
    → length bytes ≤ c.sink.room
    → c.compressing ≡ true
    → (c' : Compression) × (write_underlying c bytes ≡ ok c') × HasWritten c bytes c'
unfolding write_underlying
write_underlying_lem c bytes h small fits writes =
    let (k, ran, done) = write_full-fits c.sink bytes h fits in
    (
      record c { sink = k },
      simp (writes, ran, le→leb (length bytes) uint16_max small),
      record {
        written = done.all_written;
        room_left = done.room_left;
        same_algorithm = refl;
        still_writing = refl;
      },
    )

two_writes :
    (c : Compression) (front back : List ℕ)
    → 0 < length front
    → length front ≤ uint16_max
    → 0 < length back
    → length back ≤ uint16_max
    → length front + length back ≤ c.sink.room
    → c.compressing ≡ true
    → (c1 : Compression) × (c2 : Compression) × (write_underlying c front ≡ ok c1)
      × (write_underlying c1 back ≡ ok c2)
      × HasWritten c (front ++ back) c2
two_writes c front back h small h' small' fits writes =
    let (c1, ran, w) = write_underlying_lem c front h small (omega arith) writes in
    let room : length back ≤ c1.sink.room = omega (arith, w.room_left) in
    let (c2, ran', w') = write_underlying_lem c1 back h' small' room (w.still_writing ∙ writes) in
    (
      c1,
      c2,
      ran,
      ran',
      record {
        written =
            w'.written ∙ ap (λ k. k ++ back) w.written ∙ append_assoc c.sink.written front back;
        room_left = omega (arith, w'.room_left, w.room_left, length-append front back);
        same_algorithm = w'.same_algorithm ∙ w.same_algorithm;
        still_writing = w'.still_writing ∙ w.still_writing;
      },
    )

module _ (compress : List ℕ → List ℕ) (pad : ℕ) where
  abbrev pub header : ℕ → List ℕ → List ℕ
  header flag block = flag ∷ pad ∷ to_bytes 2 (length block)

  -- What stands for `b` in the file.
  abbrev pub frame : Algorithm → List ℕ → List ℕ
  frame no_compression b = b
  frame lz4 b =
      let packed = compress b in
      if ltb (length packed) (length b) then header 1 packed ++ packed else header 0 b ++ b

  abbrev pub Written : Compression → List ℕ → Type 0
  Written c b =
      (o : ℕ) × (oh : ℕ) × (c' : Compression) × (write compress pad c b ≡ ok (some (o, oh), c'))
      × (o + oh ≡ length (frame c.algorithm b))
      × HasWritten c (frame c.algorithm b) c'

  pub length-header : (flag : ℕ) (block : List ℕ) → length (header flag block) ≡ 4
  length-header flag block = omega (arith, length-to_bytes 2 (length block))

  pub pack-header :
      (flag : ℕ) (block : List ℕ)
      → length block ≤ uint16_max
      → pack pad (record { compressed = flag; size = length block % 65536 }) ≡ header flag block
  unfolding pack
  pack-header flag block small = ap (λ k. flag ∷ pad ∷ to_bytes 2 k) (omega arith)

  pub write-no_compression :
      (c : Compression) (b : List ℕ)
      → 0 < length b
      → length b ≤ uint16_max
      → length b ≤ c.sink.room
      → c.compressing ≡ true
      → (c' : Compression) × (no_compression_write c b ≡ ok (some (length b, 0), c'))
        × HasWritten c b c'
  unfolding no_compression_write
  write-no_compression c b h small fits writes =
      let (c', ran, w) =
        write_underlying_lem (count_bytes c (length b) (length b)) b h small fits writes in
      (
        c',
        simp ran,
        record {
          written = w.written;
          room_left = w.room_left;
          same_algorithm = w.same_algorithm;
          still_writing = w.still_writing;
        },
      )

  -- A block that is written with its header.
  pub write_block_lem :
      (c : Compression) (b packed block : List ℕ) (flag : ℕ)
      → (if ltb (length packed) (length b) then packed else b) ≡ block
      → (if ltb (length packed) (length b) then 1 else 0) ≡ flag
      → 0 < length block
      → length block ≤ uint16_max
      → 4 + length block ≤ c.sink.room
      → c.compressing ≡ true
      → (c' : Compression) × (lz4_write_block compress pad c b packed
          ≡ ok (some (length block, 4), c'))
        × HasWritten c (header flag block ++ block) c'
  unfolding lz4_write_block
  write_block_lem c b packed block flag e f h small fits writes =
      let size = length-header flag block in
      let (c1, c2, ran, ran', w) =
        two_writes c (header flag block) block (omega (arith, size)) (omega (arith, size)) h small
          (omega (arith, size)) writes in
      (
        count_bytes c2 (length b) (length block),
        simp (e, f, pack-header flag block small, ran, ran'),
        record {
          written = w.written;
          room_left = w.room_left;
          same_algorithm = w.same_algorithm;
          still_writing = w.still_writing;
        },
      )
