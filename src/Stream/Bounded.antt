-- ===== src/Stream/Bounded.antt =====
-- src/YMStream.c: the rounds of a transfer of a given number of bytes from a file.
use yammer.Prelude.{
  ℕ, zero, suc, ◌+◌, ◌-◌, min, ◌<◌, ◌≤◌, ◌≡◌, refl, ap, ◌∙◌, sym, subst, ◌==◌, ==→eq, List, [], ◌∷◌,
  ◌++◌, take, drop, length, length-drop, length-take, some, ok, arith, inl, inr, Bool-cases,
  uint16_max,
}
use mathlib.Core.List.{append_assoc}
use yammer.Io.{Source, success, read_full}
use yammer.Io.Writes.{take-drop}
use yammer.Compression.{Algorithm}
use yammer.Compression.Frames.{frame, read_full-front}
use yammer.Stream.{Stream, end_round, Transfer, write_chunk, from_file_loop, forwarded_before}
use yammer.Stream.Chunks.{chunks_within, frames, length-zero, chunks_none}
use yammer.Stream.Sending.{
  IsSent, CanSend, IsForwarded, IsCompressor, sent_none, sent_both, write_down_lem, from_file_round,
  CanSend-eq,
}

module _ (compress : List ℕ → List ℕ) (pad : ℕ) (some_block : IsCompressor compress)
    (a : Algorithm) where
  abbrev frame_of : List ℕ → List ℕ
  frame_of b = frame compress pad a b

  abbrev frames_of : List (List ℕ) → List ℕ
  frames_of ms = frames compress pad a ms

  -- One chunk of a bounded transfer, up to the question whether it is the last one.
  send_chunk :
      (n k y : ℕ) (ys zs rest : List ℕ) (s : Stream) (file : Source)
      → suc k ≤ uint16_max
      → file.bytes ≡ (y ∷ ys) ++ zs
      → CanSend a (length (frame_of (y ∷ take k ys) ++ rest)) s
      → (s' : Stream) × (file' : Source) × (file'.bytes ≡ drop k ys ++ zs)
        × IsSent s (frame_of (y ∷ take k ys)) s'
        × CanSend a (length rest) s'
        × (from_file_loop compress pad (suc n) (suc k) (some (suc (length ys))) s file
            ≡ end_round success
                (some (length (drop k ys)))
                (suc (length (take k ys)))
                (record { result = success; off = 0; file = file'; stream = s' })
                (from_file_loop compress pad n (suc k) (some (length (drop k ys))) s' file'))
  unfolding write_chunk
  send_chunk n k y ys zs rest s file small e ready =
      let front : List ℕ = y ∷ take k ys in
      let back = drop k ys in
      let e' : file.bytes ≡ front ++ (back ++ zs) =
        e ∙ ap (λ l. (y ∷ l) ++ zs) (sym (take-drop k ys)) ∙ append_assoc front back zs in
      let size : length front ≡ min (suc (length ys)) (suc k) = omega (arith, length-take k ys) in
      let after : suc (length ys) - length front ≡ length back =
        omega (arith, length-take k ys, length-drop k ys) in
      let (file', read, left_is, same_end) =
        read_full-front file front (back ++ zs) (omega arith) e' in
      let (s', wrote, sent, ready') =
        write_down_lem compress pad some_block a s front rest (omega arith) (omega (arith, size))
          ready in
      (
        s',
        file',
        left_is,
        sent,
        ready',
        from_file_round compress pad some_block a n (suc k) (some (suc (length ys))) s s' file file'
              front success (ap (read_full file) (sym size) ∙ read) (ground (arith, size)) wrote
              (ground (arith, size))
            ∙ ap
                (λ r.
                  end_round success (some r) (suc (length (take k ys)))
                    (record { result = success; off = 0; file = file'; stream = s' })
                    (from_file_loop compress pad n (suc k) (some r) s' file'))
                after,
      )

  pub from_file_loop-bounded :
      (n m k : ℕ) (ys zs rest : List ℕ) (s : Stream) (file : Source)
      → suc k ≤ uint16_max
      → 0 < length ys
      → length ys ≤ n
      → length ys ≤ m
      → file.bytes ≡ ys ++ zs
      → CanSend a (length (frames_of (chunks_within m (suc k) ys) ++ rest)) s
      → (t : Transfer Source) × (from_file_loop compress pad n (suc k) (some (length ys)) s file
          ≡ ok t)
        × (t.result ≡ success)
        × IsForwarded s (frames_of (chunks_within m (suc k) ys)) (length ys) zs a (length rest) t
  from_file_loop-bounded zero m k ys zs rest s file small pos h h' e ready = absurd (omega arith)
  from_file_loop-bounded (suc n) zero k ys zs rest s file small pos h h' e ready =
      absurd (omega arith)
  from_file_loop-bounded (suc n) (suc m) k [] zs rest s file small pos h h' e ready =
      absurd (omega arith)
  from_file_loop-bounded (suc n) (suc m) k (y ∷ ys) zs rest s file small pos h h' e ready =
      let front : List ℕ = y ∷ take k ys in
      let back = drop k ys in
      let others = frames_of (chunks_within m (suc k) back) in
      let (s', file', left_is, sent, ready', round) =
        send_chunk n k y ys zs (others ++ rest) s file small e (
          CanSend-eq compress pad some_block a
            (ap length (append_assoc (frame_of front) others rest)) ready) in
      let size = length-take k ys in
      let size' = length-drop k ys in
      elim (Bool-cases (length back == 0)) [
        | inl last ↦
            let none_left = length-zero back (==→eq (length back) 0 last) in
            let no_more : others ≡ [] =
              ap (λ l. frames_of (chunks_within m (suc k) l)) none_left
              ∙ ap frames_of (chunks_none m (suc k)) in
            (
              record { result = success; off = length front + 0; file = file'; stream = s' },
              round ∙ simp last,
              refl,
              record {
                is_sent = sent_both sent (subst (λ l. IsSent s' l s') (sym no_more) (sent_none s'));
                off_is = omega (arith, size, size', ap length none_left);
                left_is = left_is ∙ ap (λ l. l ++ zs) none_left;
                can_send =
                    CanSend-eq compress pad some_block a (ap (λ l. length (l ++ rest)) no_more)
                      ready';
              },
            )
        | inr more ↦
            let (t, ran, result, f) =
              from_file_loop-bounded n m k back zs rest s' file' small (ground (arith, more))
                (omega (arith, size')) (omega (arith, size')) left_is ready' in
            (
              forwarded_before (length front) t,
              round ∙ simp (more, ran),
              result,
              record {
                is_sent = sent_both sent f.is_sent;
                off_is = omega (arith, f.off_is, size, size');
                left_is = f.left_is;
                can_send = f.can_send;
              },
            )
      ]
