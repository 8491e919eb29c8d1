-- ===== src/Plexer/Reachability.antt =====
-- src/YMPlexer.c: what every plexer that was started, and then made and took streams, satisfies.
use yammer.Prelude.{
  ℕ, ◌-◌, ◌<◌, ◌≤◌, ◌≡◌, ◌≢◌, refl, sym, ap, ◌∙◌, Bool, true, false, Option, none, some, List, ok,
  abort, ◌>>=◌, >>=-eq-ok, arith, if◌then◌else◌, ◌==◌, ==→eq, Bool-cases, Option-cases, inl, inr,
  ◌⊎◌, uint64_max, subst, ◌%◌,
}
use yammer.Dictionary
use yammer.Dictionary.Keys.{lookup_items}
use yammer.Dictionary.Lookup.{create2-IsValid, add_refused}
use yammer.Dictionary.Indexed.{entry, contains_indexed, get_item_indexed}
use yammer.Plexer.Link.{Link}
use yammer.Plexer.Messages.{stream_id_max}
use yammer.Plexer.State.{Plexer, no_objects, create_plexer}
use yammer.Plexer.Streams.{
  create_stream, choose_stream, next_stream_id, create_stream_with_id, interrupt,
}
use yammer.Plexer.Start.{
  on_read, on_write, with_link, take_ids, activate, start, init_as_master, init_as_slave,
}
use yammer.Plexer.Identifiers.{
  IsSound, create_stream_lem, create_stream_exhausted, choose_stream_lem, no_collision, Names,
}
use yammer.Plexer.Delivery.{choose_known}

-- A plexer as it is created, up to the link and the ids of its side.
record IsNew (p : Plexer) : Type 0 where
  empty : p.streams_by_id ≡ Dictionary.create2 false false
  first : p.next_stream ≡ 1

take_ids-IsSound :
    (p : Plexer) (even : Bool) (l : Link) → IsNew p → IsSound (with_link (take_ids p even) l)
unfolding Dictionary.create2 lookup_items
take_ids-IsSound p even l h = record {
  indexed = rw h.empty (record { valid = create2-IsValid no_objects false false; plain = refl });
  parity = parity even;
  bounded = bounded even;
  allocated = omega (arith, h.first);
  names = λ id. rw h.empty tt;
}
  where
    parity :
        (even : Bool)
        → (if even then stream_id_max - 1 else stream_id_max) % 2 ≡ (if even then 0 else 1)
    parity true = refl
    parity false = refl

    bounded : (even : Bool) → (if even then stream_id_max - 1 else stream_id_max) ≤ stream_id_max
    bounded true = omega arith
    bounded false = omega arith

-- Where an exchange succeeds the plexer is sound.
record IsReady (r : Plexer × Bool) : Type 0 where
  sound : r.1 ≡ true → IsSound r.0

failed-IsReady : (p : Plexer) → IsReady (p, false)
failed-IsReady p = record { sound = λ e. absurd (cc) }

done-IsReady : (p : Plexer) (b : Bool) → IsSound p → IsReady (p, b)
done-IsReady p b h = record { sound = λ e. h }

on_read-IsReady :
    (p : Plexer) (r : Option (List ℕ) × Link) (k : Plexer → List ℕ → Plexer × Bool)
    → ((l : Link) (bytes : List ℕ) → IsReady (k (with_link p l) bytes))
    → IsReady (on_read p r k)
on_read-IsReady p (none, l) k next = failed-IsReady (with_link p l)
on_read-IsReady p (some bytes, l) k next = next l bytes

on_write-IsReady :
    (p : Plexer) (r : Bool × Link) (k : Plexer → Plexer × Bool)
    → ((l : Link) → IsReady (k (with_link p l)))
    → IsReady (on_write p r k)
on_write-IsReady p (false, l) k next = failed-IsReady (with_link p l)
on_write-IsReady p (true, l) k next = next l

if-IsReady : (b : Bool) (x y : Plexer × Bool) → IsReady x → IsReady y → IsReady (if b then x else y)
if-IsReady true x y h k = h
if-IsReady false x y h k = k

init_as_master-IsReady :
    (padding tail : List ℕ) (p : Plexer) → IsNew p → IsReady (init_as_master padding tail p)
unfolding init_as_master
init_as_master-IsReady padding tail p h =
    let sound : (even : Bool) (l : Link) → IsSound (with_link (take_ids p even) l) =
      λ even l. take_ids-IsSound p even l h in
    search (on_read-IsReady, on_write-IsReady, if-IsReady, failed-IsReady, done-IsReady, sound)
      depth 11

init_as_slave-IsReady : (p : Plexer) → IsNew p → IsReady (init_as_slave p)
unfolding init_as_slave
init_as_slave-IsReady p h =
    let sound : (even : Bool) (l : Link) → IsSound (with_link (take_ids p even) l) =
      λ even l. take_ids-IsSound p even l h in
    search (on_read-IsReady, on_write-IsReady, if-IsReady, failed-IsReady, done-IsReady, sound)
      depth 11

activate-IsReady : (r : Plexer × Bool) → IsReady r → IsReady (activate r)
activate-IsReady (p, false) h = failed-IsReady p
activate-IsReady (p, true) h =
    let sound = h.sound refl in
    done-IsReady _ true (record {
      indexed = sound.indexed;
      parity = sound.parity;
      bounded = sound.bounded;
      allocated = sound.allocated;
      names = sound.names;
    })

-- A plexer that was created and then started with success is sound.
start-IsSound :
    (padding tail : List ℕ) (link : Link) (master : Bool)
    → (start padding tail (create_plexer link master)).1 ≡ true
    → IsSound (start padding tail (create_plexer link master)).0
unfolding start create_plexer Dictionary.create
start-IsSound padding tail link master =
    let p = create_plexer link master in
    let new : IsNew p = record { empty = refl; first = refl } in
    (activate-IsReady _ (
      if-IsReady p.master _ _ (init_as_master-IsReady padding tail p new)
        (init_as_slave-IsReady p new))).sound

-- The user makes a stream, or a message chooses one.
pub data Step : Plexer → Plexer → Type 0 where
  opens : {p q : Plexer} {s : ℕ} → create_stream p ≡ ok (q, some s) → Step p q
  chooses :
      {p q : Plexer} {s : ℕ} {new_up : Bool} (id : ℕ)
      → choose_stream p id ≡ ok (q, some s, new_up)
      → Step p q

pub data Steps : Plexer → Plexer → Type 0 where
  stays : {p : Plexer} → Steps p p
  goes : {p q r : Plexer} → Step p q → Steps q r → Steps p r

record Keeps (p q : Plexer) : Type 0 where
  sound : IsSound q
  kept :
      (k s : ℕ)
      → entry no_objects p.streams_by_id k ≡ some s
      → entry no_objects q.streams_by_id k ≡ some s

kept_new :
    (p q : Plexer) (id n : ℕ)
    → entry no_objects p.streams_by_id id ≡ none
    → ((k : ℕ)
        → entry no_objects q.streams_by_id k
          ≡ (if k == id then some n else entry no_objects p.streams_by_id k))
    → (k s : ℕ) → entry no_objects p.streams_by_id k ≡ some s
    → entry no_objects q.streams_by_id k ≡ some s
kept_new p q id n free l k s held = elim (Bool-cases (k == id)) [
  | inl same ↦
      absurd (ground (arith, held, free, ap (entry no_objects p.streams_by_id) (==→eq k id same)))
  | inr other ↦ l k ∙ rw other held
]

-- A dictionary has room, or it is full.
room_cases : (n : ℕ) → n ≤ uint64_max → (n < uint64_max) ⊎ (n ≡ uint64_max)
room_cases n h = elim (Bool-cases (n == uint64_max)) [
  | inl full ↦ inr (==→eq n uint64_max full)
  | inr free ↦ inl (ground (arith, free))
]

create_stream_full :
    (p : Plexer)
    → IsSound p
    → entry no_objects p.streams_by_id (next_stream_id p.my_streams_even p.local_stream_id_last)
      ≡ none
    → p.streams_by_id.count ≡ uint64_max
    → create_stream p ≡ abort
unfolding create_stream create_stream_with_id
create_stream_full p sound free full =
    let id = next_stream_id p.my_streams_even p.local_stream_id_last in
    elim (contains_indexed no_objects p.streams_by_id id sound.indexed) [
      | inr (v, held, c) ↦ absurd (ground (arith, held, free))
      | inl (_, c) ↦ simp (
        c,
        add_refused no_objects p.streams_by_id id p.next_stream sound.indexed.valid (inr full),
      )
    ]

choose_stream_full :
    (p : Plexer) (id : ℕ)
    → IsSound p
    → (id % 2 ≡ 1) ⊎ (p.my_streams_even ≡ false)
    → entry no_objects p.streams_by_id id ≡ none
    → p.streams_by_id.count ≡ uint64_max
    → choose_stream p id ≡ abort
unfolding choose_stream create_stream_with_id
choose_stream_full p id sound other free full =
    elim (get_item_indexed no_objects p.streams_by_id id sound.indexed) [
      | inr (v, held, g) ↦ absurd (ground (arith, held, free))
      | inl (_, g) ↦ simp (
        g,
        no_collision p.my_streams_even id other,
        add_refused no_objects p.streams_by_id id p.next_stream sound.indexed.valid (inr full),
      )
    ]

choose_stream_collides :
    (p : Plexer) (id : ℕ)
    → IsSound p
    → p.my_streams_even ≡ true
    → (id % 2 == 0) ≡ true
    → entry no_objects p.streams_by_id id ≡ none
    → choose_stream p id ≡ (interrupt p >>= λ r. ok (r.0, none, false))
unfolding choose_stream
choose_stream_collides p id sound even par free =
    elim (get_item_indexed no_objects p.streams_by_id id sound.indexed) [
      | inr (v, held, g) ↦ absurd (ground (arith, held, free))
      | inl (_, g) ↦ simp (g, even, par)
    ]

opens-Keeps : (p q : Plexer) {s : ℕ} → IsSound p → create_stream p ≡ ok (q, some s) → Keeps p q
opens-Keeps p q {s} sound h =
    let id = next_stream_id p.my_streams_even p.local_stream_id_last in
    elim (Option-cases (entry no_objects p.streams_by_id id)) [
      | inl free ↦ elim (room_cases p.streams_by_id.count sound.indexed.valid.bounded) [
        | inl room ↦
            let (q', e, after, _, _, l) = create_stream_lem p sound free room in
            let same : q' ≡ q = ground (arith, e, h) in
            subst (Keeps p) same
              (record { sound = after; kept = kept_new p q' id p.next_stream free l })
        | inr full ↦ absurd (ground (arith, h, create_stream_full p sound free full))
      ]
      | inr (v, held) ↦
          let (r, _, no_stream) =
            >>=-eq-ok (interrupt (record p { local_stream_id_last = id })) (λ r. ok (r.0, none))
              (sym (create_stream_exhausted p sound held) ∙ h) in
          absurd (ground (arith, no_stream))
    ]

chooses-Keeps :
    (p q : Plexer) (id : ℕ) {s : ℕ} {new_up : Bool}
    → IsSound p
    → choose_stream p id ≡ ok (q, some s, new_up)
    → Keeps p q
chooses-Keeps p q id {s} {new_up} sound h =
    elim (Option-cases (entry no_objects p.streams_by_id id)) [
      | inr (v, held) ↦
          let known = choose_known p id v sound.indexed held (positive v held) in
          let same : p ≡ q = ground (arith, known, h) in
          subst (Keeps p) same (record { sound = sound; kept = λ k s e. e })
      | inl free ↦ elim (Bool-cases p.my_streams_even) [
        | inr odd ↦ new_stream free (inr odd)
        | inl even ↦ elim (Bool-cases (id % 2 == 0)) [
          | inr other ↦ new_stream free (inl (ground (arith, other)))
          | inl par ↦
              let (r, _, no_stream) =
                >>=-eq-ok (interrupt p) (λ r. ok (r.0, none, false))
                  (sym (choose_stream_collides p id sound even par free) ∙ h) in
              absurd (ground (arith, no_stream))
        ]
      ]
    ]
  where
    positive : (v : ℕ) → entry no_objects p.streams_by_id id ≡ some v → v ≢ 0
    positive v held z = absurd (omega (arith, (subst (Names p id) held (sound.names id)).0))

    new_stream :
        entry no_objects p.streams_by_id id ≡ none
        → (id % 2 ≡ 1) ⊎ (p.my_streams_even ≡ false)
        → Keeps p q
    new_stream free other = elim (room_cases p.streams_by_id.count sound.indexed.valid.bounded) [
      | inr full ↦ absurd (ground (arith, h, choose_stream_full p id sound other free full))
      | inl room ↦ elim (choose_stream_lem p id sound other room) [
        | inl (v, held, _) ↦ absurd (ground (arith, held, free))
        | inr (q', _, e, after, _, l) ↦
            let same : q' ≡ q = ground (arith, e, h) in
            subst (Keeps p) same
              (record { sound = after; kept = kept_new p q' id p.next_stream free l })
      ]
    ]

Step-Keeps : (p q : Plexer) → IsSound p → Step p q → Keeps p q
Step-Keeps p q sound (opens h) = opens-Keeps p q sound h
Step-Keeps p q sound (chooses id h) = chooses-Keeps p q id sound h

-- However many streams a sound plexer has made for its user and has taken from the other side, it
-- is sound, and an id that named a stream before still names that stream.
pub Steps-IsSound :
    (p q : Plexer) (k s : ℕ)
    → IsSound p
    → Steps p q
    → entry no_objects p.streams_by_id k ≡ some s
    → IsSound q × (entry no_objects q.streams_by_id k ≡ some s)
Steps-IsSound p q k s sound stays held = (sound, held)
Steps-IsSound p q k s sound (goes {q = m} first rest) held =
    let now = Step-Keeps p m sound first in Steps-IsSound m q k s now.sound rest (now.kept k s held)
