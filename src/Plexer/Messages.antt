-- ===== src/Plexer/Messages.antt =====
-- src/YMPlexer.c: the structs that plexers exchange, as the bytes that they are in memory on a
-- little-endian machine with 8-byte alignment of uint64_t. Padding bytes have no value of their own
-- in C: a writer's padding is an argument, and a reader skips it.
use yammer.Prelude.{
  ℕ, ◌<◌, ◌≡◌, refl, List, [], ◌∷◌, ◌++◌, take, drop, length, length-append, take-append,
  drop-append, Bool, ◌&&◌, ltb, arith, uint64_max, word64,
}
use mathlib.Core.List.{append-nil}
use yammer.Prelude.Bytes.{
  to_bytes, from_bytes, length-to_bytes, from_bytes-to_bytes, Fits-32, Fits-64,
}

abbrev pub built_in_version : ℕ
built_in_version = 1

abbrev pub default_buffer_size : ℕ
default_buffer_size = 65535

abbrev pub stream_id_max : ℕ
stream_id_max = uint64_max

-- An int32_t command is its bit pattern: the length of a chunk, or -2 to close a stream.
abbrev pub word32 : ℕ
word32 = 4294967296

abbrev pub close_stream_command : ℕ
close_stream_command = 4294967294

-- command < YMPlexerCommandMin || command > YMPlexerDefaultBufferSize, compared as int32_t.
abbrev pub is_invalid : ℕ → Bool
is_invalid command = ltb default_buffer_size command && ltb command close_stream_command

pub record Message : Type 0 where
  pub command : ℕ
  pub stream_id : ℕ

abbrev pub message_size : ℕ
message_size = 16

-- Four bytes of padding lie before the stream id.
unfoldable pub encode_message : List ℕ → Message → List ℕ
encode_message padding m = to_bytes 4 m.command ++ (padding ++ to_bytes 8 m.stream_id)

unfoldable pub decode_message : List ℕ → Message
decode_message bytes = record {
  command = from_bytes (take 4 bytes);
  stream_id = from_bytes (take 8 (drop 8 bytes));
}

pub record Initializer : Type 0 where
  pub protocol_version : ℕ
  pub master_stream_id_max : ℕ
  pub even_stream_ids : ℕ

abbrev pub initializer_size : ℕ
initializer_size = 24

unfoldable pub encode_initializer : List ℕ → List ℕ → Initializer → List ℕ
encode_initializer padding tail i =
    to_bytes 4 i.protocol_version
    ++ (padding ++ (to_bytes 8 i.master_stream_id_max ++ (i.even_stream_ids ∷ tail)))

unfoldable pub decode_initializer : List ℕ → Initializer
decode_initializer bytes = record {
  protocol_version = from_bytes (take 4 bytes);
  master_stream_id_max = from_bytes (take 8 (drop 8 bytes));
  even_stream_ids = from_bytes (take 1 (drop 16 bytes));
}

abbrev pub ack_size : ℕ
ack_size = 4

-- YMPlexerSlaveAck: the protocol version alone.
unfoldable pub encode_ack : ℕ → List ℕ
encode_ack version = to_bytes 4 version

unfoldable pub decode_ack : List ℕ → ℕ
decode_ack bytes = from_bytes (take 4 bytes)

-- YMPlexerMasterHello and YMPlexerSlaveHello, in UTF-8.
abbrev pub master_hello : List ℕ
master_hello =
    227 ∷ 130 ∷ 170 ∷ 227 ∷ 130 ∷ 185 ∷ 227 ∷ 128 ∷ 129 ∷ 231 ∷ 142 ∷ 139 ∷ 230 ∷ 167 ∷ 152 ∷ 227
    ∷ 129 ∷ 167 ∷ 227 ∷ 129 ∷ 138 ∷ 227 ∷ 130 ∷ 139 ∷ 227 ∷ 129 ∷ 185 ∷ 227 ∷ 129 ∷ 151 ∷ []

abbrev pub slave_hello : List ℕ
slave_hello =
    227 ∷ 130 ∷ 136 ∷ 227 ∷ 130 ∷ 141 ∷ 227 ∷ 129 ∷ 151 ∷ 227 ∷ 129 ∷ 143 ∷ 227 ∷ 129 ∷ 138 ∷ 233
    ∷ 161 ∷ 152 ∷ 227 ∷ 129 ∷ 132 ∷ 227 ∷ 129 ∷ 132 ∷ 227 ∷ 129 ∷ 159 ∷ 227 ∷ 129 ∷ 151 ∷ 227 ∷ 129
    ∷ 190 ∷ 227 ∷ 129 ∷ 153 ∷ []

abbrev HasLength : ℕ → List ℕ → Type 0
HasLength n bs = length bs ≡ n

take_at : (n : ℕ) (xs ys : List ℕ) → length xs ≡ n → take n (xs ++ ys) ≡ xs
take_at n xs ys h = rw (← h) (take-append xs ys)

drop_at : (n : ℕ) (xs ys : List ℕ) → length xs ≡ n → drop n (xs ++ ys) ≡ ys
drop_at n xs ys h = rw (← h) (drop-append xs ys)

pub length-encode_message :
    (padding : List ℕ) (m : Message) → length padding ≡ 4 → length (encode_message padding m) ≡ 16
unfolding encode_message
length-encode_message padding m h = omega (
  arith,
  length-append (to_bytes 4 m.command) (padding ++ to_bytes 8 m.stream_id),
  length-append padding (to_bytes 8 m.stream_id),
  length-to_bytes 4 m.command,
  length-to_bytes 8 m.stream_id,
)

drop_eight :
    (padding : List ℕ) (w : ℕ) (rest : List ℕ)
    → length padding ≡ 4
    → drop 8 (to_bytes 4 w ++ (padding ++ rest)) ≡ rest
unfolding to_bytes
drop_eight (a ∷ b ∷ c ∷ d ∷ []) w rest h = refl
drop_eight [] w rest h = absurd (omega arith)
drop_eight (a ∷ []) w rest h = absurd (omega arith)
drop_eight (a ∷ b ∷ []) w rest h = absurd (omega arith)
drop_eight (a ∷ b ∷ c ∷ []) w rest h = absurd (omega arith)
drop_eight (a ∷ b ∷ c ∷ d ∷ e ∷ xs) w rest h = absurd (omega arith)

-- A header whose command fits 32 bits and whose stream id fits 64 is read back as it was written,
-- whatever its four bytes of padding hold.
pub decode-encode_message :
    (padding : List ℕ) (m : Message)
    → length padding ≡ 4
    → m.command < word32
    → m.stream_id < word64
    → decode_message (encode_message padding m) ≡ m
unfolding decode_message encode_message
decode-encode_message padding m h c s = ground (
  arith,
  take_at 4 (to_bytes 4 m.command) (padding ++ to_bytes 8 m.stream_id)
      (length-to_bytes 4 m.command),
  drop_eight padding m.command (to_bytes 8 m.stream_id) h,
  take_at 8 (to_bytes 8 m.stream_id) [] (length-to_bytes 8 m.stream_id),
  append-nil (to_bytes 8 m.stream_id),
  from_bytes-to_bytes 4 m.command (Fits-32 m.command c),
  from_bytes-to_bytes 8 m.stream_id (Fits-64 m.stream_id s),
)
