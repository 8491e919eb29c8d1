-- ===== src/Compression/RoundTrip.antt =====
-- src/YMCompression.c: a read gives the bytes that the write of them put into the file.
use yammer.Prelude.{
  ℕ, ◌+◌, ◌<◌, ◌≤◌, ◌≡◌, refl, ap, ◌∙◌, sym, subst, ==_ne, ltb, le→leb, true, List, ◌++◌, length,
  length-append, some, ok, arith, inl, inr, Bool-cases, if◌then◌else◌, ◌⊎◌, uint16_max,
}
use yammer.Compression.{Algorithm, no_compression, lz4, Compression, lz4_write, write}
use yammer.Compression.Frames.{
  HasWritten, Written, frame, header, length-header, write-no_compression, write_block_lem,
}

pub Algorithm-cases : (a : Algorithm) → (a ≡ no_compression) ⊎ (a ≡ lz4)
Algorithm-cases no_compression = inl refl
Algorithm-cases lz4 = inr refl

module _ (compress : List ℕ → List ℕ) (pad : ℕ) where
  Written-frame :
      (c : Compression) (b bytes : List ℕ)
      → frame compress pad c.algorithm b ≡ bytes
      → (o oh : ℕ) → o + oh ≡ length bytes
      → (c' : Compression) × (write compress pad c b ≡ ok (some (o, oh), c'))
        × HasWritten c bytes c'
      → Written compress pad c b
  Written-frame c b bytes e o oh size (c', ran, w) =
      (o, oh, c', ran, size ∙ ap length (sym e), subst (λ k. HasWritten c k c') (sym e) w)

  write-raw :
      (c : Compression) (b : List ℕ)
      → c.algorithm ≡ no_compression
      → c.compressing ≡ true
      → 0 < length b
      → length b ≤ uint16_max
      → length (frame compress pad c.algorithm b) ≤ c.sink.room
      → Written compress pad c b
  unfolding write
  write-raw c b raw writes h small fits =
      let e : frame compress pad c.algorithm b ≡ b = ap (λ a. frame compress pad a b) raw in
      let (c', ran, w) =
        write-no_compression compress pad c b h small (omega (arith, ap length e)) writes in
      Written-frame c b b e (length b) 0 (omega arith) (c', simp (writes, raw, ran), w)

  -- One block under its header, whichever of the two it is.
  write-block :
      (c : Compression) (b block : List ℕ) (flag : ℕ)
      → (if ltb (length (compress b)) (length b) then compress b else b) ≡ block
      → (if ltb (length (compress b)) (length b) then 1 else 0) ≡ flag
      → frame compress pad c.algorithm b ≡ header compress pad flag block ++ block
      → 0 < length block
      → length block ≤ uint16_max
      → c.algorithm ≡ lz4
      → c.compressing ≡ true
      → length b ≤ uint16_max
      → 0 < length (compress b)
      → length (frame compress pad c.algorithm b) ≤ c.sink.room
      → Written compress pad c b
  unfolding write lz4_write
  write-block c b block flag e e' f h small packs writes upto full fits =
      let bytes : List ℕ = header compress pad flag block ++ block in
      let size : length bytes ≡ 4 + length block =
        length-append (header compress pad flag block) block
        ∙ ap (λ k. k + length block) (length-header compress pad flag block) in
      let room : 4 + length block ≤ c.sink.room = omega (arith, size, ap length f) in
      let (c', ran, w) =
        write_block_lem compress pad c b (compress b) block flag e e' h small room writes in
      Written-frame c b bytes f (length block) 4 (omega (arith, size)) (
        c',
        simp
            (
              writes,
              packs,
              le→leb (length b) uint16_max upto,
              ==_ne (length (compress b)) 0 (λ z. absurd (omega arith)),
            )
            ran,
        w,
      )

  -- A write of 1 to 65535 bytes to a file with room for their frame writes that frame: under LZ4, where
  -- `compress` gives a byte or more, a header and the compressed block if it is the shorter one, a
  -- header and the bytes themselves if not; else the bytes. It returns success, and the bytes and
  -- the overhead that it reports add up to the length of the frame.
  pub write_lem :
      (c : Compression) (b : List ℕ)
      → c.compressing ≡ true
      → 0 < length b
      → length b ≤ uint16_max
      → 0 < length (compress b)
      → length (frame compress pad c.algorithm b) ≤ c.sink.room
      → Written compress pad c b
  write_lem c b writes h small full fits = elim (Algorithm-cases c.algorithm) [
    | inl raw ↦ write-raw c b raw writes h small fits
    | inr packs ↦ elim (Bool-cases (ltb (length (compress b)) (length b))) [
      | inl shorter ↦
          let f = ap (λ a. frame compress pad a b) packs ∙ rw shorter refl in
          write-block c b (compress b) 1 (rw shorter refl) (rw shorter refl) f full
            (ground (arith, shorter)) packs writes small full fits
      | inr longer ↦
          let f = ap (λ a. frame compress pad a b) packs ∙ rw longer refl in
          write-block c b b 0 (rw longer refl) (rw longer refl) f h small packs writes small full
            fits
    ]
  ]
