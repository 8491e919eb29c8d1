-- ===== src/Stream/ReceiveBounded.antt =====
-- src/YMStream.c: the rounds of a transfer of a given number of bytes to a file.
use yammer.Prelude.{
  ℕ, zero, suc, ◌+◌, ◌-◌, min, ◌<◌, ◌≤◌, ◌≡◌, refl, ap, ◌∙◌, sym, ◌==◌, ==→eq, List, [], ◌∷◌, ◌++◌,
  take, drop, length, length-drop, length-take, Option, some, ok, arith, inl, inr, Bool-cases,
  uint16_max,
}
use mathlib.Core.List.{append_assoc, append-nil}
use yammer.Io.{Sink, success}
use yammer.Io.Writes.{take-drop, write_full-fits}
use yammer.Compression.{Algorithm}
use yammer.Compression.Frames.{frame}
use yammer.Stream.{Stream, end_round, Transfer, read_chunk, receive, to_file_loop, forwarded_before}
use yammer.Stream.Sending.{IsCompressor}
use yammer.Stream.Chunks.{chunks_within, frames, length-zero, chunks_none}
use yammer.Stream.Receiving.{
  CanReceive, CanReceive-eq, IsReceived, TurnsBack, read_chunk_lem, to_file_round,
}

module _ (compress : List ℕ → List ℕ) (pad : ℕ) (some_block : IsCompressor compress)
    (decompress : List ℕ → ℕ → Option (List ℕ)) (back : TurnsBack compress decompress)
    (a : Algorithm) where
  abbrev frame_of : List ℕ → List ℕ
  frame_of b = frame compress pad a b

  abbrev frames_of : List (List ℕ) → List ℕ
  frames_of ms = frames compress pad a ms

  -- One chunk, up to the question whether it is the last one.
  receive_chunk :
      (n k y : ℕ) (ys rest : List ℕ) (s : Stream) (file : Sink)
      → suc k ≤ uint16_max
      → suc (length (take k ys)) ≤ file.room
      → CanReceive a (frame_of (y ∷ take k ys) ++ rest) s
      → (s' : Stream) × (file' : Sink) × CanReceive a rest s'
        × (file'.written ≡ file.written ++ (y ∷ take k ys))
        × (file'.room ≡ file.room - suc (length (take k ys)))
        × (to_file_loop decompress (suc n) (suc k) (some (suc (length ys))) s file
            ≡ end_round success
                (some (length (drop k ys)))
                (suc (length (take k ys)))
                (record { result = success; off = 0; file = file'; stream = s' })
                (to_file_loop decompress n (suc k) (some (length (drop k ys))) s' file'))
  unfolding receive
  receive_chunk n k y ys rest s file small room ready =
      let front : List ℕ = y ∷ take k ys in
      let size : length front ≡ min (suc (length ys)) (suc k) = omega (arith, length-take k ys) in
      let after : suc (length ys) - length front ≡ length (drop k ys) =
        omega (arith, length-take k ys, length-drop k ys) in
      let (s', got, ready') =
        read_chunk_lem compress pad some_block decompress back a s front rest (omega arith)
          (omega (arith, size)) ready in
      let (file', wrote, w) = write_full-fits file front (omega arith) room in
      (
        s',
        file',
        ready',
        w.all_written,
        w.room_left,
        to_file_round compress pad some_block decompress back a n (suc k) (some (suc (length ys))) s
              s' file file' front success (ap (read_chunk decompress s) (sym size) ∙ got) wrote
              (ground (arith, size))
            ∙ ap
                (λ r.
                  end_round success (some r) (suc (length (take k ys)))
                    (record { result = success; off = 0; file = file'; stream = s' })
                    (to_file_loop decompress n (suc k) (some r) s' file'))
                after,
      )

  pub to_file_loop-bounded :
      (n m k : ℕ) (ys rest : List ℕ) (s : Stream) (file : Sink)
      → suc k ≤ uint16_max
      → 0 < length ys
      → length ys ≤ m
      → length (chunks_within m (suc k) ys) ≤ n
      → length ys ≤ file.room
      → CanReceive a (frames_of (chunks_within m (suc k) ys) ++ rest) s
      → (t : Transfer Sink) × (to_file_loop decompress n (suc k) (some (length ys)) s file ≡ ok t)
        × (t.result ≡ success)
        × IsReceived file ys a rest t
  to_file_loop-bounded n zero k ys rest s file small pos h h' room ready = absurd (omega arith)
  to_file_loop-bounded n (suc m) k [] rest s file small pos h h' room ready = absurd (omega arith)
  to_file_loop-bounded zero (suc m) k (y ∷ ys) rest s file small pos h h' room ready =
      absurd (omega arith)
  to_file_loop-bounded (suc n) (suc m) k (y ∷ ys) rest s file small pos h h' room ready =
      let front : List ℕ = y ∷ take k ys in
      let remains = drop k ys in
      let others = frames_of (chunks_within m (suc k) remains) in
      let size = length-take k ys in
      let size' = length-drop k ys in
      let (s', file', ready', wrote, room', round) =
        receive_chunk n k y ys (others ++ rest) s file small (omega (arith, size))
          (CanReceive-eq (append_assoc (frame_of front) others rest) ready) in
      elim (Bool-cases (length remains == 0)) [
        | inl last ↦
            let none_left = length-zero remains (==→eq (length remains) 0 last) in
            let no_more : others ≡ [] =
              ap (λ l. frames_of (chunks_within m (suc k) l)) none_left
              ∙ ap frames_of (chunks_none m (suc k)) in
            let all : front ≡ y ∷ ys = ap (◌∷◌ y) (
              sym (append-nil (take k ys))
              ∙ ap (λ l. take k ys ++ l) (sym none_left)
              ∙ take-drop k ys) in
            (
              record { result = success; off = length front + 0; file = file'; stream = s' },
              round ∙ simp last,
              refl,
              record {
                written = wrote ∙ ap (λ l. file.written ++ l) all;
                room_left = room' ∙ ap (λ l. file.room - length l) all;
                off_is = omega (arith, ap length all);
                can_receive = CanReceive-eq (ap (λ l. l ++ rest) no_more) ready';
              },
            )
        | inr more ↦
            let (t, ran, result, f) =
              to_file_loop-bounded n m k remains rest s' file' small (ground (arith, more))
                (omega (arith, size')) (omega arith) (omega (arith, size, size', room')) ready' in
            (
              forwarded_before (length front) t,
              round ∙ simp (more, ran),
              result,
              record {
                written =
                    f.written
                    ∙ ap (λ l. l ++ remains) wrote
                    ∙ append_assoc file.written front remains
                    ∙ ap (λ l. file.written ++ (y ∷ l)) (take-drop k ys);
                room_left = omega (arith, f.room_left, room', size, size');
                off_is = omega (arith, f.off_is, size, size');
                can_receive = f.can_receive;
              },
            )
      ]
