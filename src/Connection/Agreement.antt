-- ===== src/Connection/Agreement.antt =====
-- src/YMConnection.c: the end that is asked for a stream takes over the compression, and the end that asks
-- does not see a refusal.
use yammer.Prelude.{
  ℕ, ◌≤◌, ◌≡◌, refl, ap, ◌∙◌, sym, ◌⊎◌, inl, inr, subst, not, ◌||◌, ymassert, Bool, true, List, [],
  ◌++◌, length, Option, ok, >>=-ok, >>=-eq-ok, if◌then◌else◌, ◌==◌, arith,
}
use yammer.Prelude.Bytes.{to_bytes, from_bytes, length-to_bytes}
use mathlib.Core.List.{append-nil}
use yammer.Compression
use yammer.Io.{IoResult, success, eof, error, is_error, is_eof}
use yammer.Compression.{Algorithm, no_compression, lz4, create}
use yammer.Compression.Frames.{frame}
use yammer.Stream.{Stream, read_up, set_compression}
use yammer.Stream.Sending.{IsCompressor, CanSend, write_down_lem}
use yammer.Stream.Receiving.{TurnsBack, CanReceive, read_up_lem}
use yammer.Connection.{
  init_bytes, parse_init, builtin_version, stream_okay, respond, after_response, outgoing_response,
  send_response, initialize_incoming,
}

-- The algorithm that a type stands for.
abbrev pub algorithm_of : ℕ → Algorithm
algorithm_of type_id = if type_id == 400 then lz4 else no_compression

after_response-true : (result : IoResult) (message : ℕ) → after_response true result message ≡ true
after_response-true success message = ground arith
after_response-true eof message = refl
after_response-true error message = refl

module _ (decompress : List ℕ → ℕ → Option (List ℕ)) where
  -- Whatever response comes up, also one that refuses the version or the compression, the end that made
  -- the stream takes it as initialized, if its read does not stop the process.
  pub outgoing_response_accepts :
      (s s' : Stream) (okay : Bool) → outgoing_response decompress s ≡ ok (okay, s') → okay ≡ true
  unfolding outgoing_response
  outgoing_response_accepts s s' okay ran =
      let ((bytes, result, s1), got, rest) = >>=-eq-ok (read_up decompress s 2) _ ran in
      let same : after_response true result (from_bytes bytes) ≡ okay = cc in
      sym same ∙ after_response-true result (from_bytes bytes)

module _ (compress : List ℕ → List ℕ) (pad : ℕ) (some_block : IsCompressor compress)
    (decompress : List ℕ → ℕ → Option (List ℕ)) (back : TurnsBack compress decompress) where
  abbrev request : ℕ → List ℕ
  request type_id = init_bytes (record { version = builtin_version; compression_type = type_id })

  abbrev Answers : ℕ → Type 0
  Answers type_id =
      respond (parse_init (request type_id)) ≡ (λ s. (stream_okay, set_compression s type_id))

  parse-request : (type_id : ℕ) → (type_id ≡ 0) ⊎ (type_id ≡ 400) → Answers type_id
  unfolding respond parse_init init_bytes to_bytes from_bytes
  parse-request type_id (inl e) = subst Answers (sym e) refl
  parse-request type_id (inr e) = subst Answers (sym e) refl

  length-request : (type_id : ℕ) → length (request type_id) ≡ 4
  unfolding init_bytes to_bytes
  length-request type_id = refl

  same_down :
      (s s' : Stream) (l : ℕ) (bytes : List ℕ) (result : IoResult)
      → read_up decompress s l ≡ ok (bytes, result, s')
      → s'.down_compression ≡ s.down_compression
  unfolding read_up
  same_down s s' l bytes result ran =
      let ((b, r, up), got, next) =
        >>=-eq-ok (Compression.read decompress s.up_compression l) _ ran in
      let (checked, first, next') = >>=-eq-ok (ymassert (not (is_error r))) _ next in
      let (checked', second, next'') = >>=-eq-ok (ymassert (is_eof r || (length b == l))) _ next' in
      let same : record s { up_compression = up } ≡ s' = cc in
      ap (λ t. t.down_compression) (sym same)

  set_compression-CanSend :
      (s : Stream) (type_id n : ℕ)
      → n ≤ s.down_compression.sink.room
      → CanSend (algorithm_of type_id) n (set_compression s type_id)
  unfolding set_compression create
  set_compression-CanSend s type_id n room = record {
    algorithm = refl;
    writing = refl;
    room = room;
  }

  set_compression-CanReceive :
      (s s' : Stream) (type_id : ℕ) (rest : List ℕ)
      → s.up_compression.source.bytes ≡ rest
      → s'.up_compression ≡ (set_compression s type_id).up_compression
      → CanReceive (algorithm_of type_id) rest s'
  unfolding set_compression create
  set_compression-CanReceive s s' type_id rest comes same = record {
    algorithm = ap (λ c. c.algorithm) same;
    reading = ap (λ c. c.compressing) same;
    coming = ap (λ c. c.source.bytes) same ∙ comes;
  }

  set_compression-sink :
      (s : Stream) (type_id : ℕ)
      → (set_compression s type_id).down_compression.sink ≡ s.down_compression.sink
  unfolding set_compression create
  set_compression-sink s type_id = refl

  -- On a stream that is not compressed, the request for no compression or for LZ4 is accepted: the stream
  -- uses that compression in both directions from then on, the response goes down with it, and what follows
  -- the request is what comes up next.
  pub initialize_incoming_accepts :
      (s : Stream) (type_id : ℕ) (rest : List ℕ)
      → (type_id ≡ 0) ⊎ (type_id ≡ 400)
      → CanReceive no_compression (request type_id ++ rest) s
      → length (frame compress pad (algorithm_of type_id) (to_bytes 2 stream_okay))
        ≤ s.down_compression.sink.room
      → (s' : Stream) × (initialize_incoming compress pad decompress s ≡ ok (true, s'))
        × CanReceive (algorithm_of type_id) rest s'
        × (s'.down_compression.algorithm ≡ algorithm_of type_id)
        × (s'.down_compression.sink.written
            ≡ s.down_compression.sink.written
              ++ frame compress pad (algorithm_of type_id) (to_bytes 2 stream_okay))
  unfolding initialize_incoming send_response
  initialize_incoming_accepts s type_id rest known comes room =
      let a = algorithm_of type_id in
      let answer : List ℕ = to_bytes 2 stream_okay in
      let size = length-to_bytes 2 stream_okay in
      let size' = length-request type_id in
      let (s1, got, comes1) =
        read_up_lem compress pad some_block decompress back no_compression s (request type_id) rest
          (omega (arith, size')) (omega (arith, size')) comes in
      let down = same_down s s1 (length (request type_id)) (request type_id) success got in
      let s2 = set_compression s1 type_id in
      let ready = set_compression-CanSend s1 type_id (length (frame compress pad a answer ++ [])) (
        omega (
          arith,
          room,
          ap (λ c. c.sink.room) down,
          ap length (append-nil (frame compress pad a answer)),
        )) in
      let (s3, wrote, sent, ready') =
        write_down_lem compress pad some_block a s2 answer [] (omega (arith, size))
          (omega (arith, size)) ready in
      let answered = ap (λ f. f s1) (parse-request type_id known) in
      (
        s3,
        >>=-ok _ _ (ap (read_up decompress s) (sym size') ∙ got) (
            ap (λ r. send_response compress pad decompress r.0 r.1) answered
            ∙ >>=-ok _ _ wrote refl),
        set_compression-CanReceive s1 s3 type_id rest comes1.coming sent.same_up,
        ready'.algorithm,
        sent.written
            ∙ ap (λ k. k.written ++ frame compress pad a answer)
                (set_compression-sink s1 type_id ∙ ap (λ c. c.sink) down),
      )
