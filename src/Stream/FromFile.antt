-- ===== src/Stream/FromFile.antt =====
-- src/YMStream.c: a transfer from a file sends the messages of the file.
use yammer.Prelude.{
  ℕ, suc, ◌<◌, ◌≡◌, refl, ap, ◌∙◌, sym, subst, ◌==◌, true, false, List, [], ◌∷◌, ◌++◌, length,
  length-append, Option, none, some, ok, arith, ymassert, ◌>>◌, >>=-ok,
}
use mathlib.Core.List.{append-nil}
use yammer.Prelude.Bytes.{length-to_bytes}
use yammer.Io.{Source, success}
use yammer.Compression.{Algorithm}
use yammer.Compression.Frames.{frame}
use yammer.Stream.{
  Stream, Transfer, write_down, from_file_loop, write_prefix, write_end, read_from_file, word_bytes,
  buffer_size, forward_file_end, forward_file_unbounded, forward_file_bounded,
}
use yammer.Stream.Chunks.{chunks_within, announced, messages, frames, frames-append}
use yammer.Stream.Sending.{
  IsSent, CanSend, IsCompressor, sent_none, sent_both, write_down_lem, CanSend-eq,
}
use yammer.Stream.Bounded.{from_file_loop-bounded}
use yammer.Stream.Unbounded.{from_file_loop-unbounded}

-- A file that a transfer of `content` can read: with a bound it has so many bytes and others may follow,
-- without one it ends after them.
abbrev pub Holds : Option ℕ → Source → List ℕ → List ℕ → Type 0
Holds (some n) file content file_left =
    (0 < n) × (n ≡ length content) × (file.bytes ≡ content ++ file_left)
Holds none file content file_left = (file.bytes ≡ content) × (file.fails ≡ false) × (file_left ≡ [])

module _ (compress : List ℕ → List ℕ) (pad : ℕ) (some_block : IsCompressor compress)
    (a : Algorithm) where
  abbrev frame_of : List ℕ → List ℕ
  frame_of b = frame compress pad a b

  abbrev frames_of : List (List ℕ) → List ℕ
  frames_of ms = frames compress pad a ms

  write_word :
      (s : Stream) (x : ℕ) (rest : List ℕ)
      → CanSend a (length (frame_of (word_bytes x) ++ rest)) s
      → (s' : Stream) × (write_down compress pad s (word_bytes x) ≡ ok s')
        × IsSent s (frame_of (word_bytes x)) s'
        × CanSend a (length rest) s'
  unfolding word_bytes
  write_word s x rest ready =
      let size = length-to_bytes 8 x in
      write_down_lem compress pad some_block a s (word_bytes x) rest (omega (arith, size))
        (omega (arith, size)) ready

  -- The stream has room for the messages. A transfer with a bound, of 1 byte or more, from a file that
  -- has as many bytes as the bound, and a transfer without a bound, from a file whose reads do not fail,
  -- end with success: they send the messages of the bytes that they were to send, count those bytes,
  -- and leave the rest of the file.
  pub read_from_file_lem :
      (s : Stream) (file : Source) (in_bytes : Option ℕ) (content file_left : List ℕ)
      → Holds in_bytes file content file_left
      → CanSend a (length (frames_of (messages in_bytes content))) s
      → (t : Transfer Source) × (read_from_file compress pad s file in_bytes ≡ ok t)
        × (t.result ≡ success)
        × (t.off ≡ length content)
        × (t.file.bytes ≡ file_left)
        × IsSent s (frames_of (messages in_bytes content)) t.stream
  unfolding read_from_file write_prefix write_end
  read_from_file_lem s file (some n) content file_left (pos, is_size, e) ready =
      let cs = frames_of (chunks_within (length content) buffer_size content) in
      let (s1, wrote, sent, ready1) =
        write_word s forward_file_bounded (frame_of (word_bytes n) ++ cs) ready in
      let (s2, wrote', sent', ready2) = write_word s1 n cs ready1 in
      let (t, ran, result, f) =
        from_file_loop-bounded compress pad some_block a (suc (length file.bytes)) (length content)
          16383 content file_left [] s2 file (omega arith) (omega arith)
          (omega (arith, ap length e, length-append content file_left)) (omega arith) e
          (CanSend-eq compress pad some_block a (ap length (sym (append-nil cs))) ready2) in
      let same : (t.off == n) ≡ true = ground (arith, f.off_is, is_size) in
      let loop = from_file_loop compress pad (suc (length file.bytes)) buffer_size in
      (
        t,
        >>=-ok _ _ (>>=-ok _ _ wrote wrote') (
            >>=-ok _ _ (ap (λ r. loop (some r) s2 file) is_size ∙ ran)
              (ap (λ b. ymassert b >> ok t) same)),
        result,
        f.off_is,
        f.left_is,
        sent_both sent (sent_both sent' f.is_sent),
      )
  read_from_file_lem s file none content file_left (e, ends, all) ready =
      let body : List (List ℕ) = announced (chunks_within (length content) buffer_size content) in
      let ending : List ℕ = word_bytes forward_file_end in
      let split : frames_of (body ++ (ending ∷ [])) ≡ frames_of body ++ (frame_of ending ++ []) =
        frames-append compress pad a body (ending ∷ []) in
      let front = frame_of (word_bytes forward_file_unbounded) in
      let (s1, wrote, sent, ready1) =
        write_word s forward_file_unbounded (frames_of body ++ (frame_of ending ++ []))
          (CanSend-eq compress pad some_block a (ap (λ l. length (front ++ l)) split) ready) in
      let (t, ran, f) =
        from_file_loop-unbounded compress pad some_block a (suc (length file.bytes))
          (length content) 16383 content (frame_of ending ++ []) s1 file (omega arith)
          (omega (arith, ap length e)) (omega arith) e ends ready1 in
      let (s2, wrote', sent', ready2) = write_word t.stream forward_file_end [] f.can_send in
      let sent'' : IsSent t.stream (frame_of ending ++ []) s2 = sent_both sent' (sent_none s2) in
      (
        record t { result = success; stream = s2 },
        >>=-ok _ _ wrote (>>=-ok _ _ ran (>>=-ok _ _ (>>=-ok _ _ wrote' refl) refl)),
        refl,
        f.off_is,
        f.left_is ∙ sym all,
        subst (λ l. IsSent s (front ++ l) s2) (sym split)
            (sent_both sent (sent_both f.is_sent sent'')),
      )
