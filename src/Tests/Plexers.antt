-- ===== src/Tests/Plexers.antt =====
-- src/YMPlexer.c on concrete plexers: a sender, a receiver, and the two ends of an opening
-- exchange.
use yammer.Prelude.{
  ℕ, ◌-◌, ◌≡◌, refl, Bool, true, false, ◌⊎◌, inl, none, some, List, [], ◌∷◌, ◌++◌, ok, arith, take,
  drop, map, if◌then◌else◌, ◌==◌, ==→eq,
}
use yammer.Dictionary.{Dictionary, same_key}
use yammer.Dictionary
use yammer.Dictionary.Keys.{lookup_items}
use yammer.Dictionary.Indexed.{IsIndexed, entry}
use yammer.Plexer.Link.{Link, read, write}
use yammer.Prelude.Bytes.{to_bytes, from_bytes}
use yammer.Plexer.Messages.{
  Message, encode_message, encode_initializer, encode_ack, decode_ack, built_in_version,
  master_hello, slave_hello, stream_id_max,
}
use yammer.Plexer.State.{create_plexer}
use yammer.Plexer.State.{
  Plexer, StreamInfo, release_stream, close_provider, join_events, no_objects,
}
use yammer.Plexer.Streams.{next_stream_id, create_stream, choose_stream, interrupt, fresh_info}
use yammer.Plexer.Start.{start, init_as_master}
use yammer.Plexer.Service.{chunk_max_length, service_downstream, service_upstream}
use yammer.Plexer.Handshake.{initializer, start_pair}
use yammer.Plexer.Delivery.{
  frame, sent, received, choose_known, service_downstream_sends, service_upstream_delivers,
  transfer,
}
use yammer.Plexer.Interruption.{close_up, is_listed, told, interrupt_once}
use yammer.Plexer.Identifiers.{HasParity, Names, IsSound, create_stream_lem, choose_stream_lem}
use yammer.Plexer.Reachability.{Steps, goes, stays, chooses, Steps-IsSound}
use yammer.Plexer.Faults.{close_mark_sent_as_data, short_read_interrupts}

abbrev padding : List ℕ
padding = 0 ∷ 0 ∷ 0 ∷ 0 ∷ []

abbrev tail : List ℕ
tail = 0 ∷ 0 ∷ 0 ∷ 0 ∷ 0 ∷ 0 ∷ 0 ∷ []

abbrev message : Message
message = record { command = 5; stream_id = 6 }

abbrev link_with : List ℕ → Link
link_with bytes = record { inbound = bytes; grants = []; room = 1000; outbound = [] }

-- A plexer with no stream.
abbrev bare : Link → Bool → Bool → Plexer
bare link master active = record {
  link = link;
  upstream_source = true;
  downstream_sources = [];
  active = active;
  master = master;
  my_streams_even = master;
  streams_by_id = record { items = []; count = 0; ymtype_keys = false; ymtype_values = false };
  local_stream_id_last = (if master then 0 else 1);
  interrupted_func = false;
  new_incoming_func = true;
  closing_func = true;
  info = λ s. none;
  next_stream = 1;
  log = [];
}

abbrev master_end : Plexer
master_end = bare (link_with (slave_hello ++ encode_ack built_in_version)) true false

abbrev slave_end : Plexer
slave_end =
    bare (link_with (master_hello ++ encode_initializer padding tail initializer)) false false

start_pair_example :
    (m' : Plexer) × (s' : Plexer) × (start padding tail master_end ≡ (m', true))
    × (start padding tail slave_end ≡ (s', true))
    × (m'.link.outbound ≡ master_end.link.outbound ++ slave_end.link.inbound)
    × (s'.link.outbound ≡ slave_end.link.outbound ++ master_end.link.inbound)
    × (m'.active ≡ true)
    × (s'.active ≡ true)
    × (m'.my_streams_even ≡ true)
    × (s'.my_streams_even ≡ false)
    × (m'.local_stream_id_last ≡ stream_id_max - 1)
    × (s'.local_stream_id_last ≡ stream_id_max)
start_pair_example =
    start_pair padding tail master_end slave_end refl refl (refl, refl, refl, refl)
      (omega arith, omega arith) (refl, refl) refl refl

abbrev newer_end : Plexer
newer_end = bare (link_with (slave_hello ++ (encode_ack 2 ++ []))) true false

abbrev info_with : Bool → List ℕ → StreamInfo
info_with closed bytes = record (fresh_info 2 true) { user_closed = closed; down = bytes }

-- A plexer with one stream, at 1, which has the id 2.
abbrev with_stream : Link → StreamInfo → Plexer
with_stream link i = record (bare link true true) {
  streams_by_id = record {
    items = record { key = 2; value = 1 } ∷ [];
    count = 1;
    ymtype_keys = false;
    ymtype_values = false;
  };
  downstream_sources = 1 ∷ [];
  info = λ s. if s == 1 then some i else none;
  next_stream = 2;
}

abbrev sender : Plexer
sender = with_stream (link_with []) (info_with false (7 ∷ 8 ∷ []))

service_downstream_sends_example :
    service_downstream padding sender 1 ≡ ok (sent padding sender 1 (info_with false (7 ∷ 8 ∷ [])))
service_downstream_sends_example =
    service_downstream_sends padding sender 1 (info_with false (7 ∷ 8 ∷ [])) refl refl refl refl
      (omega arith) (omega arith)

abbrev receiver : Link → Plexer
receiver link = with_stream link (fresh_info 2 false)

receiver-IsIndexed : (link : Link) → IsIndexed no_objects (receiver link).streams_by_id
unfolding lookup_items
receiver-IsIndexed link = record {
  valid = record { counted = refl; bounded = omega arith; distinct = (refl, tt) };
  plain = refl;
}

receiver_holds : (link : Link) → entry no_objects (receiver link).streams_by_id 2 ≡ some 1
unfolding lookup_items same_key
receiver_holds link = refl

abbrev arrived : Link
arrived = link_with (frame padding 2 (7 ∷ 8 ∷ []) ++ 9 ∷ [])

service_upstream_delivers_example :
    (q' : Plexer) × (service_upstream (receiver arrived) ≡ ok q')
    × (q'.active ≡ true)
    × (q'.link ≡ record arrived { inbound = 9 ∷ [] })
    × ((t : ℕ)
        → q'.info t ≡ (
            if t == 1
            then some (received (fresh_info 2 false) (7 ∷ 8 ∷ []))
            else (receiver arrived).info t))
    × (q'.streams_by_id ≡ (receiver arrived).streams_by_id)
    × (q'.log ≡ [])
service_upstream_delivers_example =
    service_upstream_delivers padding (receiver arrived) 2 1 (fresh_info 2 false) (7 ∷ 8 ∷ [])
      (9 ∷ []) refl (omega arith) (omega arith, omega arith) refl refl refl
      (receiver-IsIndexed arrived) (receiver_holds arrived) (omega arith) refl refl

transfer_example :
    (p' : Plexer) × (q' : Plexer) × (wire : List ℕ) × (service_downstream padding sender 1 ≡ ok p')
    × (p'.link.outbound ≡ sender.link.outbound ++ wire)
    × (p'.info 1
        ≡ some
            (record (info_with false (7 ∷ 8 ∷ [])) { down = drop chunk_max_length (7 ∷ 8 ∷ []) }))
    × (service_upstream (record (receiver (link_with [])) {
      link = record (link_with []) { inbound = wire ++ [] };
    })
        ≡ ok q')
    × (q'.link.inbound ≡ [])
    × (q'.info 1 ≡ some (received (fresh_info 2 false) (take chunk_max_length (7 ∷ 8 ∷ []))))
transfer_example =
    transfer padding sender (receiver (link_with [])) 1 1 (info_with false (7 ∷ 8 ∷ []))
      (fresh_info 2 false) [] refl (omega arith) (refl, refl) refl refl refl (omega arith)
      (omega arith) (receiver-IsIndexed (link_with [])) (receiver_holds (link_with []))
      (omega arith) (refl, refl)

-- A plexer whose stream has been listed in the dictionary is interrupted.
interrupt_once_example :
    (p' : Plexer) × (interrupt sender ≡ ok (p', true))
    × (p'.active ≡ false)
    × (p'.streams_by_id ≡ Dictionary.create)
    × ((s : ℕ)
        → p'.info s ≡ (
            if is_listed s sender.streams_by_id.items
            then close_up (sender.info s)
            else sender.info s))
    × (p'.log
        ≡ []
          ++ (close_provider ∷ map (λ e. release_stream e.value) sender.streams_by_id.items
              ++ (told false ++ join_events ∷ [])))
    × (interrupt p' ≡ ok (p', false))
interrupt_once_example =
    interrupt_once sender refl (receiver-IsIndexed (link_with [])).valid
      ((info_with false (7 ∷ 8 ∷ []), refl), tt)

abbrev idle : Plexer
idle = bare (link_with []) true false

interrupt-idle : interrupt idle ≡ ok (idle, false)
unfolding interrupt
interrupt-idle = refl

abbrev even_side : Plexer
even_side = bare (link_with []) true true

abbrev odd_side : Plexer
odd_side = bare (link_with []) false true

bare-IsSound : (master : Bool) → IsSound (bare (link_with []) master true)
unfolding lookup_items
bare-IsSound true = record {
  indexed = record {
    valid = record { counted = refl; bounded = omega arith; distinct = tt };
    plain = refl;
  };
  parity = refl;
  bounded = omega arith;
  allocated = omega arith;
  names = λ id. tt;
}
bare-IsSound false = record {
  indexed = record {
    valid = record { counted = refl; bounded = omega arith; distinct = tt };
    plain = refl;
  };
  parity = refl;
  bounded = omega arith;
  allocated = omega arith;
  names = λ id. tt;
}

bare_free :
    (master : Bool) (id : ℕ)
    → entry no_objects (bare (link_with []) master true).streams_by_id id ≡ none
unfolding lookup_items
bare_free master id = refl

create_stream_lem_example :
    (p' : Plexer) × (create_stream even_side ≡ ok (p', some 1))
    × IsSound p'
    × HasParity true (next_stream_id true 0)
    × (p'.info 1 ≡ some (fresh_info (next_stream_id true 0) true))
    × ((k : ℕ)
        → entry no_objects p'.streams_by_id k ≡ (
            if k == next_stream_id true 0
            then some 1
            else entry no_objects even_side.streams_by_id k))
create_stream_lem_example =
    create_stream_lem even_side (bare-IsSound true) (bare_free true (next_stream_id true 0))
      (omega arith)

next_is_two : next_stream_id true 0 ≡ 2
unfolding next_stream_id
next_is_two = refl

sender-Names_if : (id : ℕ) (b : Bool) → (2 == id) ≡ b → Names sender id (if b then some 1 else none)
sender-Names_if id true h =
    (omega arith, omega arith, info_with false (7 ∷ 8 ∷ []), refl, ==→eq 2 id h)
sender-Names_if id false h = tt

sender-Names : (id : ℕ) → Names sender id (entry no_objects sender.streams_by_id id)
unfolding lookup_items same_key
sender-Names id = sender-Names_if id (2 == id) refl

sender-IsSound : IsSound sender
sender-IsSound = record {
  indexed = receiver-IsIndexed (link_with []);
  parity = refl;
  bounded = omega arith;
  allocated = omega arith;
  names = sender-Names;
}

choose_stream_lem_example :
    ((s : ℕ) × (entry no_objects even_side.streams_by_id 3 ≡ some s)
      × (choose_stream even_side 3 ≡ ok (even_side, some s, false)))
    ⊎ ((p' : Plexer) × (entry no_objects even_side.streams_by_id 3 ≡ none)
        × (choose_stream even_side 3 ≡ ok (p', some 1, true))
        × IsSound p'
        × (p'.info 1 ≡ some (fresh_info 3 false))
        × ((k : ℕ)
            → entry no_objects p'.streams_by_id k
              ≡ (if k == 3 then some 1 else entry no_objects even_side.streams_by_id k)))
choose_stream_lem_example =
    choose_stream_lem even_side 3 (bare-IsSound true) (inl refl) (omega arith)

abbrev closing : StreamInfo
closing = info_with true (7 ∷ b'%' ∷ [])

close_mark_sent_as_data_example :
    (p' : Plexer) × (service_downstream padding (with_stream (link_with []) closing) 1 ≡ ok p')
    × (p'.link.outbound ≡ [] ++ frame padding 2 ((7 ∷ []) ++ b'%' ∷ []))
    × (p'.streams_by_id ≡ (with_stream (link_with []) closing).streams_by_id)
    × (p'.info 1 ≡ some (record closing { down = [] }))
close_mark_sent_as_data_example =
    close_mark_sent_as_data padding (with_stream (link_with []) closing) 1 closing (7 ∷ []) refl
      refl refl refl refl (omega arith, omega arith) (omega arith)

-- Of the header 7 bytes are there.
abbrev in_pieces : Link
in_pieces = record arrived { grants = 7 ∷ [] }

short_read_interrupts_example :
    (p' : Plexer) × (service_upstream (receiver in_pieces) ≡ ok p')
    × (p'.active ≡ false)
    × (p'.streams_by_id ≡ Dictionary.create)
    × (p'.log
        ≡ []
          ++ (close_provider
                ∷ map (λ e. release_stream e.value) (receiver in_pieces).streams_by_id.items
              ++ (told false ++ join_events ∷ [])))
short_read_interrupts_example =
    short_read_interrupts (receiver in_pieces) refl (omega arith)
      (receiver-IsIndexed in_pieces).valid ((fresh_info 2 false, refl), tt)

abbrev bad_message : Message
bad_message = record { command = 0; stream_id = 2 }

abbrev bad_link : Link
bad_link = link_with (encode_message padding bad_message ++ [])

abbrev master_link : Link
master_link = link_with (slave_hello ++ encode_ack built_in_version)

master_starts : (start padding tail (create_plexer master_link true)).1 ≡ true
unfolding start init_as_master read write encode_initializer encode_ack decode_ack to_bytes
    from_bytes create_plexer
master_starts = refl

sender-Steps : Steps sender sender
sender-Steps =
    goes
      (chooses 2 (
        choose_known sender 2 1 (receiver-IsIndexed (link_with [])) (receiver_holds (link_with []))
          (omega arith)))
      stays

Steps-IsSound_example : IsSound sender × (entry no_objects sender.streams_by_id 2 ≡ some 1)
Steps-IsSound_example =
    Steps-IsSound sender sender 2 1 sender-IsSound sender-Steps (receiver_holds (link_with []))
