-- ===== src/Stream/Unbounded.antt =====
-- src/YMStream.c: the rounds of a transfer of a file to its end.
use yammer.Prelude.{
  ℕ, zero, suc, ◌+◌, ◌<◌, ◌≤◌, ◌≡◌, refl, ap, ◌∙◌, sym, subst, leb, false, List, [], ◌∷◌, ◌++◌,
  take, drop, length, length-drop, length-take, none, ok, arith, inl, inr, Bool-cases,
  if◌then◌else◌, >>=-ok, uint16_max,
}
use mathlib.Core.List.{append_assoc, append-nil}
use yammer.Prelude.Bytes.{length-to_bytes}
use yammer.Io.{Source, IoResult, success, eof, error, read_full}
use yammer.Io.Full.{read_full_lem, ending, same_source}
use yammer.Compression.{Algorithm}
use yammer.Compression.Frames.{frame}
use yammer.Stream.{
  Stream, end_round, Transfer, write_chunk, from_file_loop, word_bytes, forwarded_before,
}
use yammer.Stream.Chunks.{chunks_within, announced, frames, length-zero, chunks_none}
use yammer.Stream.Sending.{
  IsSent, CanSend, IsForwarded, IsCompressor, sent_none, sent_both, write_down_lem, from_file_round,
  CanSend-eq,
}

module _ (compress : List ℕ → List ℕ) (pad : ℕ) (some_block : IsCompressor compress)
    (a : Algorithm) where
  abbrev frame_of : List ℕ → List ℕ
  frame_of b = frame compress pad a b

  abbrev frames_of : List (List ℕ) → List ℕ
  frames_of ms = frames compress pad a ms

  pub read_some :
      (file : Source) (ys : List ℕ) (k : ℕ)
      → file.bytes ≡ ys
      → file.fails ≡ false
      → (file' : Source) × (read_full file (suc k)
          ≡ ok (take (suc k) ys, if leb (suc k) (length ys) then success else eof, file'))
        × (file'.bytes ≡ drop (suc k) ys)
        × (file'.fails ≡ false)
  read_some file ys k e ends =
      let (file', ran, rest) = read_full_lem file (suc k) (omega arith) in
      let result : ending file (suc k) ≡ (if leb (suc k) (length ys) then success else eof) =
        ap (λ l. if leb (suc k) (length l) then success else (if file.fails then error else eof)) e
        ∙ ap (λ f. if leb (suc k) (length ys) then success else (if f then error else eof)) ends in
      (
        file',
        ran ∙ ap ok (same_source file' (ap (take (suc k)) e) result),
        rest.bytes_left ∙ ap (drop (suc k)) e,
        rest.same_end ∙ ends,
      )

  -- A chunk goes down after its length.
  write_announced :
      (s : Stream) (c : ℕ) (cs rest : List ℕ)
      → suc (length cs) ≤ uint16_max
      → CanSend a
          (length (frame_of (word_bytes (suc (length cs))) ++ (frame_of (c ∷ cs) ++ rest)))
          s
      → (s' : Stream) × (write_chunk compress pad false s (c ∷ cs) ≡ ok s')
        × IsSent s (frame_of (word_bytes (suc (length cs))) ++ frame_of (c ∷ cs)) s'
        × CanSend a (length rest) s'
  unfolding write_chunk word_bytes
  write_announced s c cs rest small ready =
      let word : List ℕ = word_bytes (suc (length cs)) in
      let size = length-to_bytes 8 (suc (length cs)) in
      let (s1, wrote, sent, ready1) =
        write_down_lem compress pad some_block a s word (frame_of (c ∷ cs) ++ rest)
          (omega (arith, size)) (omega (arith, size)) ready in
      let (s2, wrote', sent', ready2) =
        write_down_lem compress pad some_block a s1 (c ∷ cs) rest (omega arith) small ready1 in
      (s2, >>=-ok _ _ wrote wrote', sent_both sent sent', ready2)

  -- The round at the end of the file, which finds no byte.
  last_round :
      (n k : ℕ) (rest : List ℕ) (s : Stream) (file : Source)
      → file.bytes ≡ []
      → file.fails ≡ false
      → CanSend a (length rest) s
      → (t : Transfer Source) × (from_file_loop compress pad (suc n) (suc k) none s file ≡ ok t)
        × IsForwarded s [] 0 [] a (length rest) t
  unfolding write_chunk
  last_round n k rest s file e ends ready =
      let (file', read, left_is, fails) = read_some file [] k e ends in
      let short : leb (suc k) 0 ≡ false = ground arith in
      (
        record { result = eof; off = 0; file = file'; stream = s },
        from_file_round compress pad some_block a n (suc k) none s s file file' [] eof
            (read ∙ ap (λ b. ok ([], if b then success else eof, file')) short) refl refl refl,
        record { is_sent = sent_none s; off_is = refl; left_is = left_is; can_send = ready },
      )

  abbrev read_result : ℕ → List ℕ → IoResult
  read_result k ys = if leb (suc k) (length ys) then success else eof

  -- One chunk, up to the question whether it is the last one.
  send_announced :
      (n k y : ℕ) (ys rest : List ℕ) (s : Stream) (file : Source)
      → suc k ≤ uint16_max
      → file.bytes ≡ y ∷ ys
      → file.fails ≡ false
      → CanSend a
          (length (
            frame_of (word_bytes (suc (length (take k ys)))) ++ (frame_of (y ∷ take k ys) ++ rest)))
          s
      → (s' : Stream) × (file' : Source) × (file'.bytes ≡ drop k ys)
        × (file'.fails ≡ false)
        × IsSent s (frame_of (word_bytes (suc (length (take k ys)))) ++ frame_of (y ∷ take k ys)) s'
        × CanSend a (length rest) s'
        × (from_file_loop compress pad (suc n) (suc k) none s file
            ≡ end_round
                (read_result k (y ∷ ys))
                none
                (suc (length (take k ys)))
                (record { result = success; off = 0; file = file'; stream = s' })
                (from_file_loop compress pad n (suc k) none s' file'))
  send_announced n k y ys rest s file small e ends ready =
      let (file', read, left_is, fails) = read_some file (y ∷ ys) k e ends in
      let size = length-take k ys in
      let (s', wrote, sent, ready') =
        write_announced s y (take k ys) rest (omega (arith, size)) ready in
      (
        s',
        file',
        left_is,
        fails,
        sent,
        ready',
        from_file_round compress pad some_block a n (suc k) none s s' file file' (y ∷ take k ys)
            (read_result k (y ∷ ys)) read (ground (arith, size)) wrote refl,
      )

  pub from_file_loop-unbounded :
      (n m k : ℕ) (ys rest : List ℕ) (s : Stream) (file : Source)
      → suc k ≤ uint16_max
      → length ys < n
      → length ys ≤ m
      → file.bytes ≡ ys
      → file.fails ≡ false
      → CanSend a (length (frames_of (announced (chunks_within m (suc k) ys)) ++ rest)) s
      → (t : Transfer Source) × (from_file_loop compress pad n (suc k) none s file ≡ ok t)
        × IsForwarded s
            (frames_of (announced (chunks_within m (suc k) ys)))
            (length ys)
            []
            a
            (length rest)
            t
  from_file_loop-unbounded zero m k ys rest s file small h h' e ends ready = absurd (omega arith)
  from_file_loop-unbounded (suc n) m k [] rest s file small h h' e ends ready =
      let none_sent : frames_of (announced (chunks_within m (suc k) [])) ≡ [] =
        ap (λ l. frames_of (announced l)) (chunks_none m (suc k)) in
      let (t, ran, f) =
        last_round n k rest s file e ends
          (CanSend-eq compress pad some_block a (ap (λ l. length (l ++ rest)) none_sent) ready) in
      (t, ran, subst (λ l. IsForwarded s l 0 [] a (length rest) t) (sym none_sent) f)
  from_file_loop-unbounded (suc n) zero k (y ∷ ys) rest s file small h h' e ends ready =
      absurd (omega arith)
  from_file_loop-unbounded (suc n) (suc m) k (y ∷ ys) rest s file small h h' e ends ready =
      let back = drop k ys in
      let others = frames_of (announced (chunks_within m (suc k) back)) in
      let word = frame_of (word_bytes (suc (length (take k ys)))) in
      let front = frame_of (y ∷ take k ys) in
      let assoc : (word ++ (front ++ others)) ++ rest ≡ word ++ (front ++ (others ++ rest)) =
        append_assoc word (front ++ others) rest
        ∙ ap (λ l. word ++ l) (append_assoc front others rest) in
      let (s', file', left_is, fails, sent, ready', round) =
        send_announced n k y ys (others ++ rest) s file small e ends
          (CanSend-eq compress pad some_block a (ap length assoc) ready) in
      let size = length-take k ys in
      let size' = length-drop k ys in
      elim (Bool-cases (leb (suc k) (length (y ∷ ys)))) [
        | inl more ↦
            let (t, ran, f) =
              from_file_loop-unbounded n m k back rest s' file' small (omega (arith, size'))
                (omega (arith, size')) left_is fails ready' in
            (
              forwarded_before (suc (length (take k ys))) t,
              round ∙ simp (more, ran),
              record {
                is_sent =
                    subst (λ l. IsSent s l t.stream) (append_assoc word front others)
                      (sent_both sent f.is_sent);
                off_is = ground (arith, f.off_is, size, size', more);
                left_is = f.left_is;
                can_send = f.can_send;
              },
            )
        | inr last ↦
            let none_left = length-zero back (ground (arith, size', last)) in
            let no_more : others ≡ [] =
              ap (λ l. frames_of (announced (chunks_within m (suc k) l))) none_left
              ∙ ap (λ l. frames_of (announced l)) (chunks_none m (suc k)) in
            (
              record {
                result = success;
                off = suc (length (take k ys)) + 0;
                file = file';
                stream = s';
              },
              round ∙ simp last,
              record {
                is_sent =
                    subst (λ l. IsSent s (word ++ (front ++ l)) s') (sym no_more)
                      (subst (λ l. IsSent s (word ++ l) s') (sym (append-nil front)) sent);
                off_is = ground (arith, size, last);
                left_is = left_is ∙ none_left;
                can_send =
                    CanSend-eq compress pad some_block a (ap (λ l. length (l ++ rest)) no_more)
                      ready';
              },
            )
      ]
