-- ===== src/Stream/ReceiveUnbounded.antt =====
-- src/YMStream.c: the rounds of a transfer to a file that ends with a command.
use yammer.Prelude.{
  ℕ, zero, suc, ◌<◌, ◌≤◌, ◌≡◌, refl, ap, ◌∙◌, sym, ◌==◌, ltb, le→leb, true, false, not, List, [],
  ◌∷◌, ◌++◌, take, drop, length, length-drop, length-take, Option, none, ok, arith, ◌&&◌, >>=-ok,
  uint16_max, half64,
}
use mathlib.Core.List.{append_assoc, append-nil}
use yammer.Io.{Sink, success, eof}
use yammer.Io.Writes.{take-drop, write_full-fits}
use yammer.Compression.{Algorithm}
use yammer.Compression.Frames.{frame}
use yammer.Stream.{
  Stream, Transfer, read_announced, receive, to_file_loop, word_bytes, forwarded_before,
  forward_file_end,
}
use yammer.Stream.Sending.{IsCompressor}
use yammer.Stream.Chunks.{chunks_within, announced, frames, chunks_none}
use yammer.Stream.Receiving.{
  CanReceive, CanReceive-eq, IsReceived, TurnsBack, read_word_lem, read_chunk_lem, to_file_round,
}

module _ (compress : List ℕ → List ℕ) (pad : ℕ) (some_block : IsCompressor compress)
    (decompress : List ℕ → ℕ → Option (List ℕ)) (back : TurnsBack compress decompress)
    (a : Algorithm) where
  abbrev frame_of : List ℕ → List ℕ
  frame_of b = frame compress pad a b

  abbrev frames_of : List (List ℕ) → List ℕ
  frames_of ms = frames compress pad a ms

  -- A command gives the length of the next chunk.
  receive_announced :
      (k c : ℕ) (cs rest : List ℕ) (s : Stream)
      → suc k ≤ uint16_max
      → suc (length cs) ≤ suc k
      → CanReceive a (frame_of (word_bytes (suc (length cs))) ++ (frame_of (c ∷ cs) ++ rest)) s
      → (s' : Stream) × (receive decompress (suc k) none s ≡ ok (c ∷ cs, success, s'))
        × CanReceive a rest s'
  unfolding receive read_announced
  receive_announced k c cs rest s small fits ready =
      let (s1, word, ready1) =
        read_word_lem compress pad some_block decompress back a s (suc (length cs))
          (frame_of (c ∷ cs) ++ rest) (omega arith) ready in
      let (s2, chunk, ready2) =
        read_chunk_lem compress pad some_block decompress back a s1 (c ∷ cs) rest (omega arith)
          (omega arith) ready1 in
      let not_end : (suc (length cs) == forward_file_end) ≡ false = ground arith in
      let positive : (not (suc (length cs) == 0) && ltb (suc (length cs)) half64) ≡ true =
        ground arith in
      (
        s2,
        >>=-ok _ _ word (
            simp
              (
                not_end,
                positive,
                le→leb (suc (length cs)) uint16_max (omega arith),
                le→leb (suc (length cs)) (suc k) fits,
              )
              chunk),
        ready2,
      )

  -- The command at the end.
  receive_end :
      (size : ℕ) (rest : List ℕ) (s : Stream)
      → CanReceive a (frame_of (word_bytes forward_file_end) ++ rest) s
      → (s' : Stream) × (receive decompress size none s ≡ ok ([], eof, s')) × CanReceive a rest s'
  unfolding receive read_announced
  receive_end size rest s ready =
      let (s', word, ready') =
        read_word_lem compress pad some_block decompress back a s forward_file_end rest
          (omega arith) ready in
      (s', >>=-ok _ _ word refl, ready')

  last_round :
      (n size : ℕ) (rest : List ℕ) (s : Stream) (file : Sink)
      → CanReceive a (frame_of (word_bytes forward_file_end) ++ rest) s
      → (t : Transfer Sink) × (to_file_loop decompress (suc n) size none s file ≡ ok t)
        × (t.result ≡ eof)
        × IsReceived file [] a rest t
  last_round n size rest s file ready =
      let (s', got, ready') = receive_end size rest s ready in
      (
        record { result = eof; off = 0; file = file; stream = s' },
        to_file_round compress pad some_block decompress back a n size none s s' file file [] eof
            got refl refl,
        refl,
        record {
          written = sym (append-nil file.written);
          room_left = omega arith;
          off_is = refl;
          can_receive = ready';
        },
      )

  pub to_file_loop-unbounded :
      (n m k : ℕ) (ys rest : List ℕ) (s : Stream) (file : Sink)
      → suc k ≤ uint16_max
      → length ys ≤ m
      → length (chunks_within m (suc k) ys) < n
      → length ys ≤ file.room
      → CanReceive a
          (frames_of (announced (chunks_within m (suc k) ys))
            ++ (frame_of (word_bytes forward_file_end) ++ rest))
          s
      → (t : Transfer Sink) × (to_file_loop decompress n (suc k) none s file ≡ ok t)
        × (t.result ≡ eof)
        × IsReceived file ys a rest t
  to_file_loop-unbounded zero m k ys rest s file small h h' room ready = absurd (omega arith)
  to_file_loop-unbounded (suc n) m k [] rest s file small h h' room ready =
      let none_sent : frames_of (announced (chunks_within m (suc k) [])) ≡ [] =
        ap (λ l. frames_of (announced l)) (chunks_none m (suc k)) in
      last_round n (suc k) rest s file (
        CanReceive-eq (ap (λ l. l ++ (frame_of (word_bytes forward_file_end) ++ rest)) none_sent)
          ready)
  to_file_loop-unbounded (suc n) zero k (y ∷ ys) rest s file small h h' room ready =
      absurd (omega arith)
  to_file_loop-unbounded (suc n) (suc m) k (y ∷ ys) rest s file small h h' room ready =
      let front : List ℕ = y ∷ take k ys in
      let remains = drop k ys in
      let others = frames_of (announced (chunks_within m (suc k) remains)) in
      let word = frame_of (word_bytes (suc (length (take k ys)))) in
      let ending = frame_of (word_bytes forward_file_end) ++ rest in
      let size = length-take k ys in
      let size' = length-drop k ys in
      let assoc : (word ++ (frame_of front ++ others)) ++ ending
          ≡ word ++ (frame_of front ++ (others ++ ending)) =
        append_assoc word (frame_of front ++ others) ending
        ∙ ap (λ l. word ++ l) (append_assoc (frame_of front) others ending) in
      let (s', got, ready') =
        receive_announced k y (take k ys) (others ++ ending) s small (omega (arith, size))
          (CanReceive-eq assoc ready) in
      let (file', wrote, w) = write_full-fits file front (omega arith) (omega (arith, size)) in
      let (t, ran, result, f) =
        to_file_loop-unbounded n m k remains rest s' file' small (omega (arith, size'))
          (omega arith) (omega (arith, size, size', w.room_left)) ready' in
      (
        forwarded_before (length front) t,
        to_file_round compress pad some_block decompress back a n (suc k) none s s' file file' front
              success got wrote refl
            ∙ simp ran,
        result,
        record {
          written =
              f.written
              ∙ ap (λ l. l ++ remains) w.all_written
              ∙ append_assoc file.written front remains
              ∙ ap (λ l. file.written ++ (y ∷ l)) (take-drop k ys);
          room_left = omega (arith, f.room_left, w.room_left, size, size');
          off_is = omega (arith, f.off_is, size, size');
          can_receive = f.can_receive;
        },
      )
