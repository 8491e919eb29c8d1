-- ===== src/Stream/Sending.antt =====
-- src/YMStream.c: a transfer from a file puts the messages of the file into the stream.
use yammer.Prelude.{
  ℕ, suc, ◌<◌, ◌≤◌, ◌≡◌, refl, ap, ◌∙◌, sym, subst, ◌==◌, true, List, [], ◌++◌, length,
  length-append, Option, ok, arith, ◌&&◌, ◌||◌, ymassert, >>=-ok, uint16_max,
}
use mathlib.Core.List.{append_assoc, append-nil}
use yammer.Io.{Source, IoResult, is_success, is_eof, read_full}
use yammer.Compression.{Algorithm}
use yammer.Compression.Frames.{frame}
use yammer.Compression.RoundTrip.{write_lem}
use yammer.Stream.{
  Stream, desired, is_bounded, not_exceeded, end_round, round_result, Transfer, write_down,
  write_chunk, from_file_loop, left,
}
use yammer.Stream.Chunks.{frames}

-- What was sent went down; what comes up is as it was.
pub record IsSent (s : Stream) (bytes : List ℕ) (s' : Stream) : Type 0 where
  pub written : s'.down_compression.sink.written ≡ s.down_compression.sink.written ++ bytes
  pub same_up : s'.up_compression ≡ s.up_compression

-- A stream that can send so many bytes with an algorithm.
pub record CanSend (a : Algorithm) (n : ℕ) (s : Stream) : Type 0 where
  pub algorithm : s.down_compression.algorithm ≡ a
  pub writing : s.down_compression.compressing ≡ true
  pub room : n ≤ s.down_compression.sink.room

pub sent_none : (s : Stream) → IsSent s [] s
sent_none s = record { written = sym (append-nil s.down_compression.sink.written); same_up = refl }

pub sent_both :
    {s s1 s2 : Stream} {front back : List ℕ}
    → IsSent s front s1
    → IsSent s1 back s2
    → IsSent s (front ++ back) s2
sent_both {s} {s1} {s2} {front} {back} f g = record {
  written =
      g.written
      ∙ ap (λ k. k ++ back) f.written
      ∙ append_assoc s.down_compression.sink.written front back;
  same_up = g.same_up ∙ f.same_up;
}

-- The rest of a transfer: what went down, how many bytes, what is left of the file, and that so much
-- more can be sent.
pub record IsForwarded (s : Stream) (sent : List ℕ) (off : ℕ) (file_left : List ℕ) (a : Algorithm)
    (more : ℕ) (t : Transfer Source) : Type 0 where
  pub is_sent : IsSent s sent t.stream
  pub off_is : t.off ≡ off
  pub left_is : t.file.bytes ≡ file_left
  pub can_send : CanSend a more t.stream

abbrev pub IsCompressor : (List ℕ → List ℕ) → Type 0
IsCompressor compress = (b : List ℕ) → 0 < length (compress b)

module _ (compress : List ℕ → List ℕ) (pad : ℕ) (some_block : IsCompressor compress)
    (a : Algorithm) where
  abbrev frame_of : List ℕ → List ℕ
  frame_of b = frame compress pad a b

  abbrev frames_of : List (List ℕ) → List ℕ
  frames_of ms = frames compress pad a ms

  pub write_down_lem :
      (s : Stream) (b rest : List ℕ)
      → 0 < length b
      → length b ≤ uint16_max
      → CanSend a (length (frame_of b ++ rest)) s
      → (s' : Stream) × (write_down compress pad s b ≡ ok s')
        × IsSent s (frame_of b) s'
        × CanSend a (length rest) s'
  unfolding write_down
  write_down_lem s b rest h small ready =
      let c = s.down_compression in
      let sum = length-append (frame_of b) rest in
      let e : frame compress pad c.algorithm b ≡ frame_of b =
        ap (λ k. frame compress pad k b) ready.algorithm in
      let (o, oh, c', ran, size, w) =
        write_lem compress pad c b ready.writing h small (some_block b)
          (omega (arith, sum, ap length e, ready.room)) in
      (
        record s { down_compression = c' },
        simp ran,
        record { written = w.written ∙ ap (λ k. c.sink.written ++ k) e; same_up = refl },
        record {
          algorithm = w.same_algorithm ∙ ready.algorithm;
          writing = w.still_writing ∙ ready.writing;
          room = omega (arith, w.room_left, sum, ap length e, ready.room);
        },
      )

  -- A round of the loop, when its read and its write are known.
  pub from_file_round :
      (n size : ℕ) (remaining : Option ℕ) (s s' : Stream) (file file' : Source) (chunk : List ℕ)
      (result : IoResult)
      → read_full file (desired size remaining) ≡ ok (chunk, result, file')
      → (is_success result && (length chunk == desired size remaining) || is_eof result) ≡ true
      → write_chunk compress pad (is_bounded remaining) s chunk ≡ ok s'
      → not_exceeded remaining (length chunk) ≡ true
      → from_file_loop compress pad (suc n) size remaining s file
        ≡ end_round result
            (left remaining (length chunk))
            (length chunk)
            (record { result = round_result chunk result; off = 0; file = file'; stream = s' })
            (from_file_loop compress pad n size (left remaining (length chunk)) s' file')
  unfolding from_file_loop
  from_file_round n size remaining s s' file file' chunk result read enough wrote within =
      >>=-ok _ _ read
        (>>=-ok _ _ (ap ymassert enough) (>>=-ok _ _ wrote (>>=-ok _ _ (ap ymassert within) refl)))

  pub CanSend-eq : {n n' : ℕ} {s : Stream} → n ≡ n' → CanSend a n s → CanSend a n' s
  CanSend-eq {s} e ready = subst (λ k. CanSend a k s) e ready
