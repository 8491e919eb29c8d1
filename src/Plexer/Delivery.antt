-- ===== src/Plexer/Delivery.antt =====
-- src/YMPlexer.c: what the downstream service of one plexer writes, and what the upstream service
-- of the other makes of it.
use yammer.Prelude.{
  ℕ, ◌+◌, ◌-◌, ◌%◌, ◌<◌, ◌≤◌, ◌≡◌, ◌≢◌, refl, ap, ◌∙◌, Bool, true, false, ◌&&◌, some, List, [],
  ◌++◌, ok, ◌>>=◌, length, length-append, length-take, take, drop, arith, if◌then◌else◌, inl, inr,
  ◌==◌, ==_ne, ==_refl, le→leb, word64, min,
}
use mathlib.Core.List.{append_assoc}
use yammer.Dictionary.Indexed.{IsIndexed, entry, get_item_indexed}
use yammer.Plexer.Link.{Link, read_written, write_room}
use yammer.Plexer.Messages.{
  Message, encode_message, message_size, length-encode_message, decode-encode_message, word32,
  is_invalid, default_buffer_size, close_stream_command,
}
use yammer.Plexer.State.{Plexer, StreamInfo, no_objects, set_info, update}
use yammer.Plexer.Streams.{choose_stream}
use yammer.Plexer.Service.{
  chunk_max_length, send_chunk, service_downstream, service_upstream, take_chosen, take_message,
  take_header, deliver,
}

-- A chunk of a stream as it goes over the link.
abbrev pub frame : List ℕ → ℕ → List ℕ → List ℕ
frame padding id chunk =
    encode_message padding (record { command = length chunk; stream_id = id }) ++ chunk

length-frame :
    (padding : List ℕ) (id : ℕ) (chunk : List ℕ)
    → length padding ≡ 4
    → length (frame padding id chunk) ≡ 16 + length chunk
length-frame padding id chunk h = omega (
  arith,
  length-append (encode_message padding (record { command = length chunk; stream_id = id })) chunk,
  length-encode_message padding (record { command = length chunk; stream_id = id }) h,
)

pub send_chunk_lem :
    (padding : List ℕ) (p : Plexer) (id : ℕ) (chunk : List ℕ)
    → length padding ≡ 4
    → 16 + length chunk ≤ p.link.room
    → send_chunk padding p id chunk
      ≡ ok (record p {
        link = record p.link {
          room = p.link.room - 16 - length chunk;
          outbound = p.link.outbound ++ frame padding id chunk;
        };
      })
unfolding send_chunk
send_chunk_lem padding p id chunk h room =
    let header : Message = record { command = length chunk; stream_id = id } in
    let bytes = encode_message padding header in
    let size : length bytes ≡ 16 = length-encode_message padding header h in
    let told : Link = record p.link {
      room = p.link.room - length bytes;
      outbound = p.link.outbound ++ bytes;
    } in
    rw (write_room p.link bytes (omega (arith, size)), write_room told chunk (omega (arith, size)))
      (ground (arith, size, append_assoc p.link.outbound bytes chunk))

-- What the service leaves of the sender: the chunk is on the link and no longer in the pipe.
abbrev pub sent : List ℕ → Plexer → ℕ → StreamInfo → Plexer
sent padding p s i =
    let chunk = take chunk_max_length i.down in
    record p {
      info = update p.info s (some (record i { down = drop chunk_max_length i.down }));
      link = record p.link {
        room = p.link.room - 16 - length chunk;
        outbound = p.link.outbound ++ frame padding i.stream_id chunk;
      };
    }

-- The downstream service of an active plexer takes up to 16384 bytes from the pipe of a stream
-- that is not closed, and writes them as one frame, if the link has room for it.
pub service_downstream_sends :
    (padding : List ℕ) (p : Plexer) (s : ℕ) (i : StreamInfo)
    → length padding ≡ 4
    → p.active ≡ true
    → p.info s ≡ some i
    → i.user_closed ≡ false
    → 0 < length i.down
    → 16 + length (take chunk_max_length i.down) ≤ p.link.room
    → service_downstream padding p s ≡ ok (sent padding p s i)
unfolding service_downstream
service_downstream_sends padding p s i h a e c n room =
    rw
      (
        a,
        e,
        c,
        ==_ne (length (take chunk_max_length i.down)) 0
            (λ z. absurd (omega (arith, length-take chunk_max_length i.down))),
      )
      (send_chunk_lem padding _ i.stream_id (take chunk_max_length i.down) h room)

pub service_header :
    (padding : List ℕ) (q : Plexer) (m : Message) (rest : List ℕ)
    → length padding ≡ 4
    → m.command < word32
    → m.stream_id < word64
    → is_invalid m.command ≡ false
    → q.active ≡ true
    → q.link.grants ≡ []
    → q.link.inbound ≡ encode_message padding m ++ rest
    → service_upstream q ≡ (
        choose_stream (record q { link = record q.link { inbound = rest } }) m.stream_id
        >>= take_chosen m)
unfolding service_upstream take_header
service_header padding q m rest h c id valid a whole e = simp (
  a,
  read_written q.link (encode_message padding m) rest message_size whole e
      (length-encode_message padding m h),
  decode-encode_message padding m h c id,
  valid,
)

pub choose_known :
    (q : Plexer) (id g : ℕ)
    → IsIndexed no_objects q.streams_by_id
    → entry no_objects q.streams_by_id id ≡ some g
    → g ≢ 0
    → choose_stream q id ≡ ok (q, some g, false)
unfolding choose_stream
choose_known q id g x e ne = elim (get_item_indexed no_objects q.streams_by_id id x) [
  | inl (missing, r) ↦ absurd (ground (arith, missing, e))
  | inr (v, held, r) ↦ rw r (ground (arith, held, e))
]

-- What the counters and the pipe of a stream are after a chunk for it was taken.
abbrev pub received : StreamInfo → List ℕ → StreamInfo
received j chunk = record j {
  muxer_read = (j.muxer_read + message_size) % word64;
  raw_read = (j.raw_read + length chunk) % word64;
  up = j.up ++ chunk;
}

deliver_lem :
    (q : Plexer) (g : ℕ) (j : StreamInfo) (chunk rest : List ℕ) (new_up : Bool)
    → q.link.grants ≡ []
    → q.link.inbound ≡ chunk ++ rest
    → q.info g ≡ some j
    → j.up_open ≡ true
    → new_up && q.new_incoming_func ≡ false
    → deliver q g (length chunk) new_up
      ≡ ok (
          set_info
            (record q { link = record q.link { inbound = rest } })
            g
            (some
              (record j { raw_read = (j.raw_read + length chunk) % word64; up = j.up ++ chunk })))
unfolding deliver
deliver_lem q g j chunk rest new_up whole e k o n =
    rw (read_written q.link chunk rest (length chunk) whole e refl, k, o, n)

take_message_chunk :
    (q : Plexer) (g : ℕ) (j : StreamInfo) (id n : ℕ) (new_up : Bool)
    → q.info g ≡ some j
    → (0 < n) × (n ≤ default_buffer_size)
    → take_message q g (record { command = n; stream_id = id }) new_up
      ≡ deliver
          (set_info q g (some (record j { muxer_read = (j.muxer_read + message_size) % word64 })))
          g
          n
          new_up
unfolding take_message
take_message_chunk q g j id n new_up f (pos, small) = simp (
  f,
  ==_ne n close_stream_command (λ z. absurd (omega arith)),
  ==_ne n 0 (λ z. absurd (omega arith)),
  le→leb n default_buffer_size small,
)

-- A frame with a chunk of 1 to 65535 bytes, for a stream that the active receiver knows and whose
-- upstream pipe is open, puts its chunk behind what the pipe holds and is counted. No other stream
-- changes, nor do the dictionary and the calls made, and what follows the frame stays on the link.
-- Each read() is to find all that it asks for: a short one interrupts the plexer.
pub service_upstream_delivers :
    (padding : List ℕ) (q : Plexer) (id g : ℕ) (j : StreamInfo) (chunk rest : List ℕ)
    → length padding ≡ 4
    → id < word64
    → (0 < length chunk) × (length chunk ≤ default_buffer_size)
    → q.active ≡ true
    → q.link.grants ≡ []
    → q.link.inbound ≡ frame padding id chunk ++ rest
    → IsIndexed no_objects q.streams_by_id
    → entry no_objects q.streams_by_id id ≡ some g
    → g ≢ 0
    → q.info g ≡ some j
    → j.up_open ≡ true
    → (q' : Plexer) × (service_upstream q ≡ ok q')
      × (q'.active ≡ true)
      × (q'.link ≡ record q.link { inbound = rest })
      × ((t : ℕ) → q'.info t ≡ (if t == g then some (received j chunk) else q.info t))
      × (q'.streams_by_id ≡ q.streams_by_id)
      × (q'.log ≡ q.log)
service_upstream_delivers padding q id g j chunk rest h fits (pos, small) a whole e x k ne f o =
    let m : Message = record { command = length chunk; stream_id = id } in
    let q1 = record q { link = record q.link { inbound = chunk ++ rest } } in
    let j1 = record j { muxer_read = (j.muxer_read + message_size) % word64 } in
    let q2 = set_info q1 g (some j1) in
    (
      set_info (record q2 { link = record q.link { inbound = rest } }) g (some (received j chunk)),
      service_header padding q m (chunk ++ rest) h (omega arith) fits (ground arith) a whole
            (e ∙ append_assoc (encode_message padding m) chunk rest)
          ∙ ap (λ c. c >>= take_chosen m) (choose_known q1 id g x k ne)
          ∙ (simp a)
          ∙ take_message_chunk q1 g j id (length chunk) false f (pos, small)
          ∙ deliver_lem q2 g j1 chunk rest false whole refl (simp (==_refl g)) o refl,
      a,
      refl,
      λ t. ground arith,
      refl,
      refl,
    )

-- Two plexers are active. The sender's stream is not closed and has data, its link has room for the
-- frame, and the receiver knows the stream's id, with an open upstream pipe; each read() of the
-- receiver finds all that it asks for, since a short one would interrupt it. Then what the sender's
-- service writes, the receiver's service puts into its stream of that id: the chunk leaves the pipe
-- of the sender's stream and ends up behind the data of the receiver's, and what follows the chunk
-- on the link stays there.
pub transfer :
    (padding : List ℕ) (p q : Plexer) (s g : ℕ) (i j : StreamInfo) (rest : List ℕ)
    → length padding ≡ 4
    → i.stream_id < word64
    → (p.active ≡ true) × (q.active ≡ true)
    → q.link.grants ≡ []
    → p.info s ≡ some i
    → i.user_closed ≡ false
    → 0 < length i.down
    → 16 + length (take chunk_max_length i.down) ≤ p.link.room
    → IsIndexed no_objects q.streams_by_id
    → entry no_objects q.streams_by_id i.stream_id ≡ some g
    → g ≢ 0
    → (q.info g ≡ some j) × (j.up_open ≡ true)
    → (p' : Plexer) × (q' : Plexer) × (wire : List ℕ) × (service_downstream padding p s ≡ ok p')
      × (p'.link.outbound ≡ p.link.outbound ++ wire)
      × (p'.info s ≡ some (record i { down = drop chunk_max_length i.down }))
      × (service_upstream (record q { link = record q.link { inbound = wire ++ rest } }) ≡ ok q')
      × (q'.link.inbound ≡ rest)
      × (q'.info g ≡ some (received j (take chunk_max_length i.down)))
transfer padding p q s g i j rest h fits (pa, qa) whole pi unclosed some_data room x k ne (qi, o) =
    let chunk = take chunk_max_length i.down in
    let q0 = record q {
      link = record q.link { inbound = frame padding i.stream_id chunk ++ rest };
    } in
    let size : length chunk ≡ min chunk_max_length (length i.down) =
      length-take chunk_max_length i.down in
    let (q', e, _, l, f, _, _) =
      service_upstream_delivers padding q0 i.stream_id g j chunk rest h fits
        (omega (arith, size), omega (arith, size)) qa whole refl x k ne qi o in
    (
      sent padding p s i,
      q',
      frame padding i.stream_id chunk,
      service_downstream_sends padding p s i h pa pi unclosed some_data room,
      refl,
      simp (==_refl s),
      e,
      ap (λ m. m.inbound) l,
      f g ∙ (simp (==_refl g)),
    )
