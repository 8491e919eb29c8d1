-- ===== src/Plexer/Faults.antt =====
-- src/YMPlexer.c: inputs on which the code does not do what it means to.
use yammer.Prelude.{
  ℕ, ◌+◌, ◌-◌, ◌%◌, ◌<◌, ◌≤◌, ◌≡◌, ◌≢◌, refl, ap, ◌∙◌, Bool, true, false, not, Outcome, none, some,
  List, [], ◌∷◌, ◌++◌, ok, abort, ◌>>=◌, length, length-append, take, drop, arith, zero, suc,
  Bool-cases, if◌then◌else◌, inl, inr, ◌⊎◌, ==_ne, min, All, map, ==_refl, word64, uint64_max,
}
use yammer.Dictionary.Indexed.{IsIndexed, entry, get_item_indexed}
use yammer.Dictionary.{Dictionary}
use yammer.Dictionary
use yammer.Dictionary.Keys.{IsValid}
use yammer.Io.{granted, later}
use yammer.Plexer.Link.{Link, read, read_short}
use yammer.Plexer.Interruption.{IsPresent, told, interrupt_once}
use yammer.Plexer.Messages.{Message, encode_message, word32, message_size}
use yammer.Plexer.State.{
  Plexer, StreamInfo, no_objects, set_info, close_provider, release_stream, join_events,
}
use yammer.Plexer.Streams.{choose_stream, interrupt, fresh_info}
use yammer.Plexer.Identifiers.{IsSound, choose_stream_lem}
use yammer.Plexer.Service.{
  chunk_max_length, give_up, receive, take_header, service_downstream, service_upstream,
  take_message, take_chosen, is_close_mark,
}
use yammer.Plexer.Delivery.{frame, send_chunk_lem, service_header, choose_known}

longer_than_mark :
    (data_bytes : List ℕ) → 0 < length data_bytes → is_close_mark (data_bytes ++ b'%' ∷ []) ≡ false
longer_than_mark [] h = elim h [ ]
longer_than_mark (a ∷ []) h = refl
longer_than_mark (a ∷ b ∷ xs) h = refl

take_all : (n : ℕ) (xs : List ℕ) → length xs ≤ n → (take n xs ≡ xs) × (drop n xs ≡ [])
take_all n [] h = (take_nil n, drop_nil n)
  where
    take_nil : (n : ℕ) → take {A = ℕ} n [] ≡ []
    take_nil zero = refl
    take_nil (suc n) = refl

    drop_nil : (n : ℕ) → drop {A = ℕ} n [] ≡ []
    drop_nil zero = refl
    drop_nil (suc n) = refl
take_all zero (x ∷ xs) h = absurd (omega arith)
take_all (suc n) (x ∷ xs) h = let (t, d) = take_all n xs (omega arith) in (ap (◌∷◌ x) t, d)

-- If the pipe of a stream that its user has closed holds data and then the mark '%', together at
-- most a chunk, the service of the active plexer, with room on its link, sends the mark as a byte
-- of the data and nothing else. The dictionary keeps the stream, whose pipe is then empty.
pub close_mark_sent_as_data :
    (padding : List ℕ) (p : Plexer) (s : ℕ) (i : StreamInfo) (data_bytes : List ℕ)
    → length padding ≡ 4
    → p.active ≡ true
    → p.info s ≡ some i
    → i.user_closed ≡ true
    → i.down ≡ data_bytes ++ b'%' ∷ []
    → (0 < length data_bytes) × (length data_bytes < chunk_max_length)
    → 17 + length data_bytes ≤ p.link.room
    → (p' : Plexer) × (service_downstream padding p s ≡ ok p')
      × (p'.link.outbound ≡ p.link.outbound ++ frame padding i.stream_id (data_bytes ++ b'%' ∷ []))
      × (p'.streams_by_id ≡ p.streams_by_id)
      × (p'.info s ≡ some (record i { down = [] }))
unfolding service_downstream
close_mark_sent_as_data padding p s i data_bytes h a e c d (pos, small) room =
    let chunk = data_bytes ++ b'%' ∷ [] in
    let size : length chunk ≡ length data_bytes + 1 = length-append data_bytes (b'%' ∷ []) in
    let (t, r) = take_all chunk_max_length chunk (omega (arith, size)) in
    let q = set_info p s (some (record i { down = [] })) in
    (
      record q {
        link = record q.link {
          room = q.link.room - 16 - length chunk;
          outbound = q.link.outbound ++ frame padding i.stream_id chunk;
        };
      },
      simp
          (
            a,
            e,
            c,
            d,
            t,
            r,
            longer_than_mark data_bytes pos,
            ==_ne (length chunk) 0 (λ z. absurd (omega (arith, size))),
          )
          (send_chunk_lem padding _ i.stream_id chunk h (omega (arith, size))),
      refl,
      refl,
      simp (==_refl s),
    )

-- Fewer bytes than a header are there when the service of an active plexer reads one, if only because
-- the others have not arrived yet. The plexer, whose dictionary is valid and names streams with their
-- user info, is interrupted: it is not active any more, its dictionary is empty, and it has closed the
-- provider, released the streams and told the user, if there is a function for that.
pub short_read_interrupts :
    (p : Plexer)
    → p.active ≡ true
    → min (granted p.link.grants message_size) (length p.link.inbound) < message_size
    → IsValid no_objects p.streams_by_id
    → All (IsPresent p.info) p.streams_by_id.items
    → (p' : Plexer) × (service_upstream p ≡ ok p')
      × (p'.active ≡ false)
      × (p'.streams_by_id ≡ Dictionary.create)
      × (p'.log
          ≡ p.log
            ++ (close_provider ∷ map (λ e. release_stream e.value) p.streams_by_id.items
                ++ (told p.interrupted_func ++ join_events ∷ [])))
unfolding service_upstream give_up
short_read_interrupts p a short valid present =
    let k = min (granted p.link.grants message_size) (length p.link.inbound) in
    let left : Link = record p.link {
      inbound = drop k p.link.inbound;
      grants = later p.link.grants;
    } in
    let (p', ran, off, empty, _, log, _) =
      interrupt_once (record p { link = left }) a valid present in
    (
      p',
      ap (λ (b : Bool). if not b then ok p else receive p (read p.link message_size) take_header) a
          ∙ ap (λ r. receive p r take_header) (read_short p.link message_size short)
          ∙ ap (λ (r : Outcome (Plexer × Bool)). r >>= λ t. ok t.0) ran,
      off,
      empty,
      log,
    )

-- A header whose length is 0 or -1, for a stream that the active plexer knows, stops the process.
pub bad_length_aborts :
    (padding : List ℕ) (q : Plexer) (m : Message) (g : ℕ) (j : StreamInfo) (rest : List ℕ)
    → length padding ≡ 4
    → m.stream_id < word64
    → (m.command ≡ 0) ⊎ (m.command + 1 ≡ word32)
    → q.active ≡ true
    → q.link.grants ≡ []
    → q.link.inbound ≡ encode_message padding m ++ rest
    → IsIndexed no_objects q.streams_by_id
    → entry no_objects q.streams_by_id m.stream_id ≡ some g
    → g ≢ 0
    → q.info g ≡ some j
    → service_upstream q ≡ abort
unfolding take_message
bad_length_aborts padding q m g j rest h fits bad a whole e x k ne f =
    let q1 = record q { link = record q.link { inbound = rest } } in
    service_header padding q m rest h (omega arith) fits (ground arith) a whole e
    ∙ ap (λ c. c >>= take_chosen m) (choose_known q1 m.stream_id g x k ne)
    ∙ (simp (a, f) (ground arith))

-- On an id that a sound plexer with room in its dictionary does not know, but that is of its side's
-- own parity, the even side interrupts itself; the odd side makes a new stream that is not local.
pub choose_stream_collision :
    (p : Plexer) (id : ℕ)
    → IsSound p
    → entry no_objects p.streams_by_id id ≡ none
    → p.streams_by_id.count < uint64_max
    → id % 2 ≡ (if p.my_streams_even then 0 else 1)
    → ((p.my_streams_even ≡ true)
        × (choose_stream p id ≡ (interrupt p >>= λ r. ok (r.0, none, false))))
      ⊎ ((p.my_streams_even ≡ false)
          × (p' : Plexer) × (choose_stream p id ≡ ok (p', some p.next_stream, true))
          × (p'.info p.next_stream ≡ some (fresh_info id false)))
unfolding choose_stream
choose_stream_collision p id sound free room par = elim (Bool-cases p.my_streams_even) [
  | inl even ↦ elim (get_item_indexed no_objects p.streams_by_id id sound.indexed) [
    | inl (_, g) ↦ inl (even, simp (g, even) (ground arith))
    | inr (v, held, g) ↦ absurd (ground (arith, held, free))
  ]
  | inr odd ↦ elim (choose_stream_lem p id sound (inr odd) room) [
    | inl (s, held, _) ↦ absurd (ground (arith, held, free))
    | inr (p', _, c, _, f, _) ↦ inr (odd, p', c, f)
  ]
]
