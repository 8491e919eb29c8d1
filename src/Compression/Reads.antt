-- ===== src/Compression/Reads.antt =====
-- src/YMCompression.c: a read of a frame gives the bytes that the frame stands for.
use yammer.Prelude.{
  ℕ, ◌<◌, ◌≤◌, ◌≡◌, refl, ap, ◌∙◌, sym, ==_refl, ltb, le→leb, false, not, List, [], ◌++◌, length,
  Option, none, some, Outcome, ok, arith, inl, inr, Bool-cases, ymassert, ◌>>◌, uint16_max,
}
use mathlib.Core.List.{append_assoc}
use yammer.Prelude.Bytes.{to_bytes, from_bytes}
use yammer.Io.{IoResult, success}
use yammer.Compression.{
  Algorithm, no_compression, lz4, Compression, read_underlying, count_bytes, no_compression_read,
  unpack, lz4_decompressed, lz4_read_block, lz4_read, read, size_of_packed, catch_return,
  after_decompress, first_byte, buf_size,
}
use yammer.Compression.Frames.{HasRead, frame, header, length-header, read_underlying-front}
use yammer.Compression.RoundTrip.{Algorithm-cases}

-- Counting changes no more than the counts.
HasRead-count :
    (c c' : Compression) (rest : List ℕ) (i o : ℕ)
    → HasRead c rest c'
    → HasRead c rest (count_bytes c' i o)
HasRead-count c c' rest i o r = record {
  rest_left = r.rest_left;
  same_end = r.same_end;
  same_algorithm = r.same_algorithm;
  still_reading = r.still_reading;
}

module _ (compress : List ℕ → List ℕ) (pad : ℕ) (decompress : List ℕ → ℕ → Option (List ℕ)) where
  abbrev ReadsBack : Compression → List ℕ → List ℕ → Type 0
  ReadsBack c b rest =
      (c' : Compression) × (read decompress c (length b) ≡ ok (b, success, c')) × HasRead c rest c'

  unpack-header :
      (flag : ℕ) (block : List ℕ)
      → length block ≤ uint16_max
      → unpack (header compress pad flag block)
        ≡ some (record { compressed = flag; size = length block })
  unfolding unpack to_bytes from_bytes
  unpack-header flag block small =
      ap (λ k. some (record { compressed = flag; size = k })) (omega arith)

  read_step :
      (c : Compression) (l : ℕ) (a : Algorithm)
      → c.algorithm ≡ a
      → c.compressing ≡ false
      → read decompress c l
        ≡ elim a [ no_compression ↦ no_compression_read c l | lz4 ↦ lz4_read decompress c l ]
  unfolding read
  read_step c l a e reads =
      let by : Algorithm → Outcome (List ℕ × IoResult × Compression) =
        λ k. elim k [ no_compression ↦ no_compression_read c l | lz4 ↦ lz4_read decompress c l ] in
      ap (λ flag. ymassert (not flag) >> by c.algorithm) reads ∙ ap by e

  read-raw :
      (c : Compression) (b rest : List ℕ)
      → c.algorithm ≡ no_compression
      → c.compressing ≡ false
      → 0 < length b
      → length b ≤ uint16_max
      → c.source.bytes ≡ b ++ rest
      → ReadsBack c b rest
  unfolding no_compression_read
  read-raw c b rest raw reads h small e =
      let counted = count_bytes c (length b) (length b) in
      let (c', ran, r) = read_underlying-front counted b rest h small reads e in
      (
        c',
        read_step c (length b) no_compression raw reads ∙ ran,
        record {
          rest_left = r.rest_left;
          same_end = r.same_end;
          same_algorithm = r.same_algorithm;
          still_reading = r.still_reading;
        },
      )

  abbrev ReadsBlock : Compression → List ℕ → List ℕ → ℕ → List ℕ → Type 0
  ReadsBlock c b block flag rest =
      (c' : Compression) × (lz4_read_block decompress c (length b)
          (record { compressed = flag; size = length block })
        ≡ ok (b, success, c'))
      × HasRead c rest c'

  -- What follows the header of a block that is not compressed.
  read_block-raw :
      (b rest : List ℕ)
      → 0 < length b
      → length b ≤ uint16_max
      → (c : Compression) → c.compressing ≡ false
      → c.source.bytes ≡ b ++ rest
      → ReadsBlock c b b 0 rest
  unfolding lz4_read_block
  read_block-raw b rest h small c reads e =
      let (c', ran, r) = read_underlying-front c b rest h small reads e in
      (
        count_bytes c' 0 (length b),
        simp (le→leb (length b) (length b) (omega arith), ran, ==_refl (length b)),
        HasRead-count c c' rest 0 (length b) r,
      )

  decompressed_lem :
      (c : Compression) (b block : List ℕ)
      → decompress block buf_size ≡ some b
      → lz4_decompressed decompress c 1 (length b) block ≡ catch_return c 1 b success
  unfolding lz4_decompressed
  decompressed_lem c b block back =
      ap (after_decompress c 1 (length b)) back
      ∙ ap (λ t. ymassert t >> catch_return c 1 b success)
          (le→leb (length b) (length b) (omega arith))

  -- What follows the header of a compressed block.
  read_block-packed :
      (b block rest : List ℕ)
      → decompress block buf_size ≡ some b
      → 0 < length block
      → length block ≤ uint16_max
      → (c : Compression) → c.compressing ≡ false
      → c.source.bytes ≡ block ++ rest
      → ReadsBlock c b block 1 rest
  unfolding lz4_read_block lz4_decompressed
  read_block-packed b block rest back h small c reads e =
      let (c', ran, r) = read_underlying-front c block rest h small reads e in
      (
        count_bytes c' 1 (length b),
        simp ran (decompressed_lem c' b block back),
        HasRead-count c c' rest 1 (length b) r,
      )

  header_known :
      (c : Compression) (l flag : ℕ) (block : List ℕ)
      → length block ≤ uint16_max
      → (elim (unpack (header compress pad flag block)) [
        | none ↦ catch_return c (first_byte (header compress pad flag block)) [] success
        | some p ↦ lz4_read_block decompress c l p
      ])
        ≡ lz4_read_block decompress c l (record { compressed = flag; size = length block })
  header_known c l flag block small = simp (unpack-header flag block small)

  read-block :
      (c : Compression) (b block rest : List ℕ) (flag : ℕ)
      → ((c1 : Compression)
          → c1.compressing ≡ false
          → c1.source.bytes ≡ block ++ rest
          → ReadsBlock c1 b block flag rest)
      → c.algorithm ≡ lz4
      → c.compressing ≡ false
      → length b ≤ uint16_max
      → length block ≤ uint16_max
      → c.source.bytes ≡ (header compress pad flag block ++ block) ++ rest
      → ReadsBack c b rest
  unfolding lz4_read
  read-block c b block rest flag reads_block packs reads upto small e =
      let front : List ℕ = header compress pad flag block in
      let size : length front ≡ 4 = length-header compress pad flag block in
      let (c1, ran1, r1) =
        read_underlying-front c front (block ++ rest) (omega (arith, size)) (omega (arith, size))
          reads (e ∙ append_assoc front block rest) in
      let (c2, ran2, r2) = reads_block c1 (r1.still_reading ∙ reads) r1.rest_left in
      let ran1' : read_underlying c size_of_packed ≡ ok (front, success, c1) =
        ap (read_underlying c) (sym size) ∙ ran1 in
      (
        c2,
        read_step c (length b) lz4 packs reads
            ∙ simp (reads, le→leb (length b) uint16_max upto, ran1')
                (header_known c1 (length b) flag block small ∙ ran2),
        record {
          rest_left = r2.rest_left;
          same_end = r2.same_end ∙ r1.same_end;
          same_algorithm = r2.same_algorithm ∙ r1.same_algorithm;
          still_reading = r2.still_reading ∙ r1.still_reading;
        },
      )

  -- A read of as many bytes as were written, from a file that goes on with the frame of those bytes, gives the
  -- bytes with success and leaves what follows the frame, for 1 to 65535 bytes and a `compress` that gives a
  -- byte or more and whose block `decompress` turns back.
  pub read-frame :
      (c : Compression) (b rest : List ℕ)
      → c.compressing ≡ false
      → 0 < length b
      → length b ≤ uint16_max
      → 0 < length (compress b)
      → decompress (compress b) buf_size ≡ some b
      → c.source.bytes ≡ frame compress pad c.algorithm b ++ rest
      → (c' : Compression) × (read decompress c (length b) ≡ ok (b, success, c'))
        × HasRead c rest c'
  read-frame c b rest reads h small full back e = elim (Algorithm-cases c.algorithm) [
    | inl raw ↦
        read-raw c b rest raw reads h small (e ∙ ap (λ a. frame compress pad a b ++ rest) raw)
    | inr packs ↦ elim (Bool-cases (ltb (length (compress b)) (length b))) [
      | inl shorter ↦
          let f : c.source.bytes ≡ (header compress pad 1 (compress b) ++ compress b) ++ rest =
            e ∙ ap (λ a. frame compress pad a b ++ rest) packs ∙ rw shorter refl in
          let upto : length (compress b) ≤ uint16_max = ground (arith, shorter) in
          read-block c b (compress b) rest 1 (read_block-packed b (compress b) rest back full upto)
            packs reads small upto f
      | inr longer ↦
          let f : c.source.bytes ≡ (header compress pad 0 b ++ b) ++ rest =
            e ∙ ap (λ a. frame compress pad a b ++ rest) packs ∙ rw longer refl in
          read-block c b b rest 0 (read_block-raw b rest h small) packs reads small small f
    ]
  ]
