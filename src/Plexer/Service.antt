-- ===== src/Plexer/Service.antt =====
-- src/YMPlexer.c: the two service functions. __ym_plexer_service_downstream moves what the user
-- wrote to a stream onto the link, __ym_plexer_service_upstream what arrives on the link up to the
-- stream that it is for.
use yammer.Prelude.{
  ℕ, ◌+◌, ◌%◌, ◌==◌, Bool, false, not, ◌&&◌, Option, none, some, List, [], ◌∷◌, ◌++◌, take, drop,
  length, Outcome, ok, ymassert, ◌>>=◌, ◌>>◌, if◌then◌else◌, word64, leb,
}
use yammer.Plexer.Link.{Link, read, write}
use yammer.Plexer.Messages.{
  Message, message_size, encode_message, decode_message, close_stream_command, is_invalid,
  default_buffer_size,
}
use yammer.Plexer.State.{Plexer, StreamInfo, set_info, stream_info}
use yammer.Plexer.Streams.{
  interrupt, choose_stream, check_remove, destroy_sources, notify_new_stream, notify_stream_closing,
}

abbrev pub chunk_max_length : ℕ
chunk_max_length = 16384

abbrev pub is_close_mark : List ℕ → Bool
is_close_mark [] = false
is_close_mark (c ∷ []) = c == b'%'
is_close_mark (c ∷ d ∷ cs) = false

-- Interrupts the plexer and drops the answer, as the error branches do.
unfoldable pub give_up : Plexer → Outcome Plexer
give_up p = do (q, first) ← interrupt p; ok q

-- YMSecurityProviderWrite on the plexer's link.
abbrev pub send : Plexer → List ℕ → Plexer × Bool
send p bytes = let (okay, l) = write p.link bytes in (record p { link = l }, okay)

-- The header and the chunk go out one after the other.
unfoldable pub send_chunk : List ℕ → Plexer → ℕ → List ℕ → Outcome Plexer
send_chunk padding p stream_id chunk =
    let header : Message = record { command = length chunk; stream_id = stream_id } in
    let (q, okay) = send p (encode_message padding header) in
    if not okay
    then give_up q
    else (let (r, okay) = send q chunk in if not okay then give_up r else ok r)

-- The branch of a stream that its user has closed.
unfoldable pub close_now : List ℕ → Plexer → ℕ → StreamInfo → Outcome Plexer
close_now padding p s i = do
  let header : Message = record { command = close_stream_command; stream_id = i.stream_id }
  q ←
      (if not i.is_locally_originated then ok p else (do
        let (q, okay) = send p (encode_message padding header)
        r ← (if not okay then give_up q else ok q)
        j ← stream_info r s
        ok (
            set_info r s
              (some (record j { muxer_written = (j.muxer_written + message_size) % word64 })))))
  r ← destroy_sources q false (some s)
  check_remove r i.stream_id

-- One call of __ym_plexer_service_downstream: one read from the stream's pipe, which returns what
-- is there, at most a chunk. An empty pipe is the end of the input here.
unfoldable pub service_downstream : List ℕ → Plexer → ℕ → Outcome Plexer
service_downstream padding p s = if not p.active then ok p else (do
  i ← stream_info p s
  let chunk = take chunk_max_length i.down
  let q = set_info p s (some (record i { down = drop chunk_max_length i.down }))
  (if length chunk == 0
      then ok q
      else (if i.user_closed && is_close_mark chunk
          then close_now padding q s (record i { down = drop chunk_max_length i.down })
          else send_chunk padding q i.stream_id chunk)))

-- YMSecurityProviderRead on the plexer's link: what follows if the bytes were read.
abbrev pub receive :
    Plexer → Option (List ℕ) × Link → (Plexer → List ℕ → Outcome Plexer) → Outcome Plexer
receive p (none, l) k = give_up (record p { link = l })
receive p (some bytes, l) k = k (record p { link = l }) bytes

-- The chunk is read into the stream's buffer and written to its upstream pipe.
unfoldable pub deliver : Plexer → ℕ → ℕ → Bool → Outcome Plexer
deliver p s chunk_length new_up = receive p (read p.link chunk_length) (λ q chunk. do
  i ← stream_info q s
  ymassert i.up_open
  let j = record i { raw_read = (i.raw_read + chunk_length) % word64; up = i.up ++ chunk }
  let r = set_info q s (some j)
  ok (if new_up && r.new_incoming_func then notify_new_stream r s else r))

-- The stream's upstream pipe is closed, and the client is told if it asked to be.
unfoldable pub remote_close : Plexer → ℕ → Outcome Plexer
remote_close p s = do
  i ← stream_info p s
  let q = set_info p s (some (record i { up_open = false }))
  (if q.closing_func then notify_stream_closing q s else ok q)

-- What is done with a valid header once its stream is chosen.
unfoldable pub take_message : Plexer → ℕ → Message → Bool → Outcome Plexer
take_message p s m new_up = do
  i ← stream_info p s
  let q = set_info p s (some (record i { muxer_read = (i.muxer_read + message_size) % word64 }))
  (if m.command == close_stream_command then remote_close q s else (do
    ymassert (leb m.command default_buffer_size && not (m.command == 0))
    deliver q s m.command new_up))

abbrev pub take_chosen : Message → Plexer × Option ℕ × Bool → Outcome Plexer
take_chosen m (q, none, new_up) = give_up q
take_chosen m (q, some s, new_up) = if not q.active then give_up q else take_message q s m new_up

-- What is done with the bytes of a header.
unfoldable pub take_header : Plexer → List ℕ → Outcome Plexer
take_header q bytes =
    let m = decode_message bytes in
    if is_invalid m.command then give_up q else (choose_stream q m.stream_id >>= take_chosen m)

-- One call of __ym_plexer_service_upstream.
unfoldable pub service_upstream : Plexer → Outcome Plexer
service_upstream p = if not p.active then ok p else receive p (read p.link message_size) take_header
