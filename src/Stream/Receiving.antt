-- ===== src/Stream/Receiving.antt =====
-- src/YMStream.c: what a transfer reads up from the stream.
use yammer.Prelude.{
  ℕ, suc, ◌-◌, ◌<◌, ◌≤◌, ◌≡◌, refl, ap, ◌∙◌, sym, subst, ◌==◌, ==_refl, true, false, List, ◌++◌,
  length, Option, some, ok, arith, ymassert, >>=-ok, uint16_max, word64,
}
use yammer.Prelude.Bytes.{length-to_bytes, from_bytes-to_bytes, Fits-64}
use yammer.Io.{Sink, IoResult, success}
use yammer.Compression.{Algorithm, buf_size}
use yammer.Compression.Frames.{frame}
use yammer.Compression.Reads.{read-frame}
use yammer.Stream.{
  Stream, not_exceeded, end_round, round_result, Transfer, read_up, read_word, read_chunk, receive,
  write_raw, to_file_loop, word_bytes, left,
}
use yammer.Stream.Sending.{IsCompressor}

-- A stream that `bytes` still come up, with an algorithm.
pub record CanReceive (a : Algorithm) (bytes : List ℕ) (s : Stream) : Type 0 where
  pub algorithm : s.up_compression.algorithm ≡ a
  pub reading : s.up_compression.compressing ≡ false
  pub coming : s.up_compression.source.bytes ≡ bytes

pub CanReceive-eq :
    {a : Algorithm} {b c : List ℕ} {s : Stream} → b ≡ c → CanReceive a b s → CanReceive a c s
CanReceive-eq {a} {s} e ready = subst (λ l. CanReceive a l s) e ready

-- What came of a transfer to a file: the bytes it wrote, and what still comes up.
pub record IsReceived (file : Sink) (bytes : List ℕ) (a : Algorithm) (rest : List ℕ)
    (t : Transfer Sink) : Type 0 where
  pub written : t.file.written ≡ file.written ++ bytes
  pub room_left : t.file.room ≡ file.room - length bytes
  pub off_is : t.off ≡ length bytes
  pub can_receive : CanReceive a rest t.stream

-- `decompress` turns back what `compress` made of a write.
abbrev pub TurnsBack : (List ℕ → List ℕ) → (List ℕ → ℕ → Option (List ℕ)) → Type 0
TurnsBack compress decompress =
    (b : List ℕ) → length b ≤ uint16_max → decompress (compress b) buf_size ≡ some b

module _ (compress : List ℕ → List ℕ) (pad : ℕ) (some_block : IsCompressor compress)
    (decompress : List ℕ → ℕ → Option (List ℕ)) (back : TurnsBack compress decompress)
    (a : Algorithm) where
  abbrev frame_of : List ℕ → List ℕ
  frame_of b = frame compress pad a b

  pub read_up_lem :
      (s : Stream) (b rest : List ℕ)
      → 0 < length b
      → length b ≤ uint16_max
      → CanReceive a (frame_of b ++ rest) s
      → (s' : Stream) × (read_up decompress s (length b) ≡ ok (b, success, s'))
        × CanReceive a rest s'
  unfolding read_up
  read_up_lem s b rest h small ready =
      let c = s.up_compression in
      let e = ready.coming ∙ ap (λ k. frame compress pad k b ++ rest) (sym ready.algorithm) in
      let (c', ran, r) =
        read-frame compress pad decompress c b rest ready.reading h small (some_block b)
          (back b small) e in
      (
        record s { up_compression = c' },
        simp (ran, ==_refl (length b)),
        record {
          algorithm = r.same_algorithm ∙ ready.algorithm;
          reading = r.still_reading ∙ ready.reading;
          coming = r.rest_left;
        },
      )

  pub read_word_lem :
      (s : Stream) (x : ℕ) (rest : List ℕ)
      → x < word64
      → CanReceive a (frame_of (word_bytes x) ++ rest) s
      → (s' : Stream) × (read_word decompress s ≡ ok (x, s')) × CanReceive a rest s'
  unfolding read_word word_bytes
  read_word_lem s x rest small ready =
      let size : length (word_bytes x) ≡ 8 = length-to_bytes 8 x in
      let (s', ran, ready') =
        read_up_lem s (word_bytes x) rest (omega (arith, size)) (omega (arith, size)) ready in
      let full : (length (word_bytes x) == 8) ≡ true = ground (arith, size) in
      (
        s',
        >>=-ok _ _ (ap (read_up decompress s) (sym size) ∙ ran) (
            >>=-ok _ _ (ap ymassert full)
              (ap (λ k. ok (k, s')) (from_bytes-to_bytes 8 x (Fits-64 x small)))),
        ready',
      )

  pub read_chunk_lem :
      (s : Stream) (b rest : List ℕ)
      → 0 < length b
      → length b ≤ uint16_max
      → CanReceive a (frame_of b ++ rest) s
      → (s' : Stream) × (read_chunk decompress s (length b) ≡ ok (b, success, s'))
        × CanReceive a rest s'
  unfolding read_chunk
  read_chunk_lem s b rest h small ready =
      let (s', ran, ready') = read_up_lem s b rest h small ready in
      (s', >>=-ok _ _ ran (simp (==_refl (length b))), ready')

  -- A round of the loop, when what it reads and its write are known.
  pub to_file_round :
      (n size : ℕ) (remaining : Option ℕ) (s s' : Stream) (file file' : Sink) (chunk : List ℕ)
      (result : IoResult)
      → receive decompress size remaining s ≡ ok (chunk, result, s')
      → write_raw file chunk ≡ ok file'
      → not_exceeded remaining (length chunk) ≡ true
      → to_file_loop decompress (suc n) size remaining s file
        ≡ end_round result
            (left remaining (length chunk))
            (length chunk)
            (record { result = round_result chunk result; off = 0; file = file'; stream = s' })
            (to_file_loop decompress n size (left remaining (length chunk)) s' file')
  unfolding to_file_loop
  to_file_round n size remaining s s' file file' chunk result got wrote within =
      >>=-ok _ _ got (>>=-ok _ _ wrote (>>=-ok _ _ (ap ymassert within) refl))
