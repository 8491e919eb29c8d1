-- ===== src/Stream/ToFile.antt =====
-- src/YMStream.c: a transfer to a file writes what a transfer from a file has sent.
use yammer.Prelude.{
  ℕ, zero, suc, ◌<◌, ◌≤◌, ◌≡◌, refl, ap, ◌∙◌, sym, true, List, [], ◌∷◌, ◌++◌, take, drop,
  drop-append, length, length-append, Option, none, some, ok, arith, ymassert, ◌>>◌, >>=-ok, word64,
}
use mathlib.Core.List.{append_assoc, append-nil}
use yammer.Prelude.Bytes.{length-to_bytes}
use yammer.Io.{Source, Sink, IoResult, success, eof}
use yammer.Compression.{Algorithm, no_compression, lz4}
use yammer.Compression.Frames.{frame}
use yammer.Stream.{
  Stream, Transfer, to_file_loop, read_bound, write_to_file, word_bytes, buffer_size,
  forward_file_end, forward_file_unbounded, forward_file_bounded,
}
use yammer.Stream.Sending.{IsCompressor}
use yammer.Stream.Chunks.{chunks_within, announced, messages, frames, frames-append}
use yammer.Stream.Receiving.{CanReceive, CanReceive-eq, IsReceived, TurnsBack, read_word_lem}
use yammer.Stream.{read_from_file, same_bound}
use yammer.Stream.Sending.{CanSend}
use yammer.Stream.FromFile.{Holds, read_from_file_lem}
use yammer.Stream.ReceiveBounded.{to_file_loop-bounded}
use yammer.Stream.ReceiveUnbounded.{to_file_loop-unbounded}

-- A bound that goes over the stream is the length of what follows, a byte or more.
abbrev pub Bounds : Option ℕ → List ℕ → Type 0
Bounds none content = Unit {0}
Bounds (some n) content = (0 < n) × (n ≡ length content) × (n < word64)

-- What a transfer to a file returns when it wrote everything.
abbrev pub end_result : Option ℕ → IoResult
end_result none = eof
end_result (some n) = success

module _ (compress : List ℕ → List ℕ) (pad : ℕ) (some_block : IsCompressor compress)
    (decompress : List ℕ → ℕ → Option (List ℕ)) (back : TurnsBack compress decompress)
    (a : Algorithm) where
  abbrev frame_of : List ℕ → List ℕ
  frame_of b = frame compress pad a b

  abbrev frames_of : List (List ℕ) → List ℕ
  frames_of ms = frames compress pad a ms

  frame-some : (b : List ℕ) → 0 < length b → 0 < length (frame_of b)
  frame-some b h = frame_some_by a
    where
      frame_some_by : (k : Algorithm) → 0 < length (frame compress pad k b)
      frame_some_by no_compression = h
      frame_some_by lz4 = ground arith

  count-chunks :
      (m k : ℕ) (ys : List ℕ)
      → length (chunks_within m (suc k) ys) ≤ length (frames_of (chunks_within m (suc k) ys))
  count-chunks zero k ys = omega arith
  count-chunks (suc m) k [] = omega arith
  count-chunks (suc m) k (y ∷ ys) =
      let others = chunks_within m (suc k) (drop k ys) in
      omega (
        arith,
        count-chunks m k (drop k ys),
        frame-some (y ∷ take k ys) (omega arith),
        length-append (frame_of (y ∷ take k ys)) (frames_of others),
      )

  count-announced : (cs : List (List ℕ)) → length cs ≤ length (frames_of (announced cs))
  unfolding word_bytes
  count-announced [] = omega arith
  count-announced (c ∷ cs) =
      let word = word_bytes (length c) in
      let size : length word ≡ 8 = length-to_bytes 8 (length c) in
      omega (
        arith,
        count-announced cs,
        frame-some word (omega (arith, size)),
        length-append (frame_of word) (frame_of c ++ frames_of (announced cs)),
        length-append (frame_of c) (frames_of (announced cs)),
      )

  -- Where the messages of `content`, of 1 byte or more with a bound and of any without, are what comes up a
  -- stream next, a transfer to a file with room for `content`, given no bound or its length, writes `content` to
  -- the end of the file, counts its bytes and leaves on the stream what follows the messages. It returns
  -- success for a bounded transfer, and the end of the file for an unbounded one.
  pub write_to_file_lem :
      (s : Stream) (file : Sink) (in_bytes given : Option ℕ) (content rest : List ℕ)
      → Bounds in_bytes content
      → same_bound given (length content) ≡ true
      → length content ≤ file.room
      → CanReceive a (frames_of (messages in_bytes content) ++ rest) s
      → (t : Transfer Sink) × (write_to_file decompress s file given ≡ ok t)
        × (t.result ≡ end_result in_bytes)
        × IsReceived file content a rest t
  unfolding write_to_file read_bound
  write_to_file_lem s file (some n) given content rest (pos, is_size, small) same room ready =
      let cs = frames_of (chunks_within (length content) buffer_size content) in
      let front = frame_of (word_bytes forward_file_bounded) in
      let bound = frame_of (word_bytes n) in
      let assoc : (front ++ (bound ++ cs)) ++ rest ≡ front ++ (bound ++ (cs ++ rest)) =
        append_assoc front (bound ++ cs) rest ∙ ap (λ l. front ++ l) (append_assoc bound cs rest) in
      let (s1, word, ready1) =
        read_word_lem compress pad some_block decompress back a s forward_file_bounded
          (bound ++ (cs ++ rest)) (omega arith) (CanReceive-eq assoc ready) in
      let (s2, word', ready2) =
        read_word_lem compress pad some_block decompress back a s1 n (cs ++ rest) small ready1 in
      let rounds = suc (length s2.up_compression.source.bytes) in
      let (t, ran, result, r) =
        to_file_loop-bounded compress pad some_block decompress back a rounds (length content) 16383
          content rest s2 file (omega arith) (omega arith) (omega arith)
          (omega (
            arith,
            ap length ready2.coming,
            length-append cs rest,
            count-chunks (length content) 16383 content,
          ))
          room ready2 in
      let loop = to_file_loop decompress rounds buffer_size in
      (
        t,
        >>=-ok _ _ word (
            >>=-ok _ _ (>>=-ok _ _ word' refl) (
              >>=-ok _ _ (ap (λ k. loop (some k) s2 file) is_size ∙ ran) (
                ap (λ k. ymassert (same_bound given k) >> ok t) r.off_is
                ∙ ap (λ b. ymassert b >> ok t) same))),
        result,
        r,
      )
  write_to_file_lem s file none given content rest bound same room ready =
      let chunks = chunks_within (length content) buffer_size content in
      let cs = frames_of (announced chunks) in
      let ending : List ℕ = word_bytes forward_file_end in
      let front = frame_of (word_bytes forward_file_unbounded) in
      let split : frames_of (announced chunks ++ (ending ∷ [])) ≡ cs ++ (frame_of ending ++ []) =
        frames-append compress pad a (announced chunks) (ending ∷ []) in
      let assoc : (front ++ frames_of (announced chunks ++ (ending ∷ []))) ++ rest
          ≡ front ++ (cs ++ (frame_of ending ++ rest)) =
        ap (λ l. (front ++ l) ++ rest) split
        ∙ ap (λ l. (front ++ (cs ++ l)) ++ rest) (append-nil (frame_of ending))
        ∙ append_assoc front (cs ++ frame_of ending) rest
        ∙ ap (λ l. front ++ l) (append_assoc cs (frame_of ending) rest) in
      let (s1, word, ready1) =
        read_word_lem compress pad some_block decompress back a s forward_file_unbounded
          (cs ++ (frame_of ending ++ rest)) (omega arith) (CanReceive-eq assoc ready) in
      let rounds = suc (length s1.up_compression.source.bytes) in
      let (t, ran, result, r) =
        to_file_loop-unbounded compress pad some_block decompress back a rounds (length content)
          16383 content rest s1 file (omega arith) (omega arith)
          (omega (
            arith,
            ap length ready1.coming,
            length-append cs (frame_of ending ++ rest),
            count-announced chunks,
          ))
          room ready1 in
      (
        t,
        >>=-ok _ _ word (
            >>=-ok _ _ ran (
              ap (λ k. ymassert (same_bound given k) >> ok t) r.off_is
              ∙ ap (λ b. ymassert b >> ok t) same)),
        result,
        r,
      )

  -- What a transfer from a file sends, a transfer to a file gives back: if a file with a byte or more for
  -- the bound, or any file without a bound, went into a stream that has room for its messages, and what
  -- that stream put down comes up another one, then a transfer of the other stream to a file with room writes
  -- the same bytes to its end and leaves on the stream what followed. A bound is below 2^64.
  pub round_trip :
      (s r : Stream) (file : Source) (sink : Sink) (in_bytes : Option ℕ)
      (content file_left rest : List ℕ) (sent : Transfer Source)
      → Holds in_bytes file content file_left
      → Bounds in_bytes content
      → CanSend a (length (frames_of (messages in_bytes content))) s
      → read_from_file compress pad s file in_bytes ≡ ok sent
      → CanReceive a
          (drop (length s.down_compression.sink.written) sent.stream.down_compression.sink.written
            ++ rest)
          r
      → length content ≤ sink.room
      → (t : Transfer Sink) × (write_to_file decompress r sink none ≡ ok t)
        × IsReceived sink content a rest t
  round_trip s r file sink in_bytes content file_left rest sent holds bounds ready ran comes room =
      let (t0, ran0, result, off, left_is, is_sent) =
        read_from_file_lem compress pad some_block a s file in_bytes content file_left holds
          ready in
      let same : t0 ≡ sent = cc in
      let old = s.down_compression.sink.written in
      let coming : drop (length old) sent.stream.down_compression.sink.written
          ≡ frames_of (messages in_bytes content) =
        ap (λ t. drop (length old) t.stream.down_compression.sink.written) (sym same)
        ∙ ap (drop (length old)) is_sent.written
        ∙ drop-append old (frames_of (messages in_bytes content)) in
      let (t, got, ends, is_received) =
        write_to_file_lem r sink in_bytes none content rest bounds refl room
          (CanReceive-eq (ap (λ l. l ++ rest) coming) comes) in
      (t, got, is_received)
