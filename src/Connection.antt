-- ===== src/Connection.antt =====
-- src/YMConnection.c: how the two ends of a connection agree on the compression of a new stream. The end that
-- makes the stream sends a version and a type, and uses the type from then on; the other end answers.
pub mod Agreement
pub mod Sample
pub mod Exchange
use yammer.Prelude.{
  ℕ, ◌+◌, Bool, true, false, not, ◌&&◌, ◌||◌, List, [], ◌∷◌, ◌++◌, take, drop, Option, Outcome, ok,
  abort, ymassert, ◌>>=◌, if◌then◌else◌, ◌==◌,
}
use yammer.Prelude.Bytes.{to_bytes, from_bytes}
use yammer.Io.{IoResult, is_success}
use yammer.Stream.{Stream, write_down, read_up, set_compression}

-- _ymconnection_stream_init
pub record StreamInit : Type 0 where
  pub version : ℕ
  pub compression_type : ℕ

unfoldable pub init_bytes : StreamInit → List ℕ
init_bytes init = to_bytes 2 init.version ++ to_bytes 2 init.compression_type

unfoldable pub parse_init : List ℕ → StreamInit
parse_init bytes = record {
  version = from_bytes (take 2 bytes);
  compression_type = from_bytes (drop 2 bytes);
}

-- YMConnectionStreamInitBuiltinVersion
abbrev pub builtin_version : ℕ
builtin_version = 1

-- The response messages.
abbrev pub stream_okay : ℕ
stream_okay = 1

abbrev pub version_unsupported : ℕ
version_unsupported = 2

abbrev pub compression_unsupported : ℕ
compression_unsupported = 3

-- What the end of __YMConnectionInitializeOutgoingStream makes of `okay`, which the compression has set.
abbrev pub after_response : Bool → IoResult → ℕ → Bool
after_response okay result message =
    if not (is_success result)
    then okay
    else (if message == version_unsupported
        then okay
        else (if message == compression_unsupported
            then okay
            else (if message == stream_okay then true else okay)))

-- The response to an init, and the stream with the compression that it asks for.
unfoldable pub respond : StreamInit → Stream → ℕ × Stream
respond init s =
    let type_known = init.compression_type == 0 || (init.compression_type == 400) in
    let supported =
      if type_known
      then (stream_okay, set_compression s init.compression_type)
      else (compression_unsupported, s) in
    if init.version == builtin_version then supported else (version_unsupported, s)

module _ (compress : List ℕ → List ℕ) (pad : ℕ) where
  -- __YMConnectionInitializeOutgoingStream up to its read.
  unfoldable pub outgoing_request : Stream → ℕ → Outcome Stream
  outgoing_request s type_id = do
    s' ←
        write_down compress pad s
          (init_bytes (record { version = builtin_version; compression_type = type_id }))
    ok (set_compression s' type_id)

module _ (decompress : List ℕ → ℕ → Option (List ℕ)) where
  -- Its read. The compression was set, so that `okay` is true.
  unfoldable pub outgoing_response : Stream → Outcome (Bool × Stream)
  outgoing_response s = do
    (bytes, result, s') ← read_up decompress s 2
    ok (after_response true result (from_bytes bytes), s')

module _ (compress : List ℕ → List ℕ) (pad : ℕ) (decompress : List ℕ → ℕ → Option (List ℕ)) where
  unfoldable pub send_response : ℕ → Stream → Outcome (Bool × Stream)
  send_response message s = do
    s' ← write_down compress pad s (to_bytes 2 message)
    ok (message == stream_okay, s')

  -- __YMConnectionInitializeIncomingStream
  unfoldable pub initialize_incoming : Stream → Outcome (Bool × Stream)
  initialize_incoming s = do
    (bytes, result, s') ← read_up decompress s 4
    let (message, s'') = respond (parse_init bytes) s'
    let answered = send_response message s''
    if is_success result then answered else ok (false, s')
