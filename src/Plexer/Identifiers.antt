-- ===== src/Plexer/Identifiers.antt =====
-- src/YMPlexer.c: the ids of streams, and that what names a stream stays consistent.
use yammer.Prelude.{
  ℕ, ◌+◌, ◌%◌, ◌<◌, ◌≤◌, ◌≡◌, ◌≢◌, refl, sym, ◌∙◌, Bool, true, false, ◌&&◌, Option, none, subst,
  ◌>>=◌, some, [], ◌∷◌, ok, arith, if◌then◌else◌, ◌==◌, ==_ne, ==_refl, ==→eq, inl, inr, ◌⊎◌,
  Bool-cases, uint64_max,
}
use yammer.Dictionary.Indexed.{IsIndexed, entry, add-IsIndexed, get_item_indexed, contains_indexed}
use yammer.Plexer.Messages.{stream_id_max}
use yammer.Plexer.State.{Plexer, StreamInfo, no_objects, note, retain_stream}
use yammer.Plexer.Streams.{
  next_stream_id, create_stream, create_stream_with_id, choose_stream, interrupt, fresh_info,
}

-- The ids of a side are even or odd.
abbrev pub HasParity : Bool → ℕ → Type 0
HasParity even n = n % 2 ≡ (if even then 0 else 1)

-- If the last id is of the side's own parity and fits 64 bits, so is and does the next one, which is
-- another id.
pub next_stream_id_lem :
    (even : Bool) (last : ℕ)
    → HasParity even last
    → last ≤ stream_id_max
    → HasParity even (next_stream_id even last)
      × (next_stream_id even last ≤ stream_id_max)
      × (next_stream_id even last ≢ last)
unfolding next_stream_id
next_stream_id_lem true last h b = ground arith
next_stream_id_lem false last h b = ground arith

-- What a dictionary entry says of the stream with an id: the stream is not NULL, it was allocated,
-- and its user info carries the id.
abbrev pub Names : Plexer → ℕ → Option ℕ → Type 0
Names p id none = Unit {0}
Names p id (some s) =
    (0 < s) × (s < p.next_stream) × (i : StreamInfo) × (p.info s ≡ some i) × (i.stream_id ≡ id)

pub record IsSound (p : Plexer) : Type 0 where
  pub indexed : IsIndexed no_objects p.streams_by_id
  pub parity : HasParity p.my_streams_even p.local_stream_id_last
  pub bounded : p.local_stream_id_last ≤ stream_id_max
  pub allocated : 0 < p.next_stream
  pub names : (id : ℕ) → Names p id (entry no_objects p.streams_by_id id)

-- An entry that stays names its stream also after a new stream was allocated.
Names-new :
    (p q : Plexer) (id : ℕ) (i : StreamInfo) (e : Option ℕ)
    → q.next_stream ≡ p.next_stream + 1
    → ((s : ℕ) → q.info s ≡ (if s == p.next_stream then some i else p.info s))
    → Names p id e
    → Names q id e
Names-new p q id i none n f h = tt
Names-new p q id i (some s) n f (pos, old, j, k, e) =
    (pos, omega arith, j, f s ∙ rw (==_ne s p.next_stream (λ z. absurd (omega arith))) k, e)

-- Every entry names its stream once a new id stands for a new stream.
Names-added :
    (p q : Plexer) (id : ℕ) (i : StreamInfo)
    → 0 < p.next_stream
    → q.next_stream ≡ p.next_stream + 1
    → ((s : ℕ) → q.info s ≡ (if s == p.next_stream then some i else p.info s))
    → i.stream_id ≡ id
    → ((k : ℕ) → Names p k (entry no_objects p.streams_by_id k))
    → ((k : ℕ)
        → entry no_objects q.streams_by_id k
          ≡ (if k == id then some p.next_stream else entry no_objects p.streams_by_id k))
    → (k : ℕ) → Names q k (entry no_objects q.streams_by_id k)
Names-added p q id i pos n f e h l k = elim (Bool-cases (k == id)) [
  | inl same ↦
      rw (l k, same) (pos, omega arith, i, f p.next_stream ∙ rw ==_refl, e ∙ sym (==→eq k id same))
  | inr other ↦ rw (l k, other) (Names-new p q k i (entry no_objects p.streams_by_id k) n f (h k))
]

pub no_collision :
    (even : Bool) (id : ℕ) → (id % 2 ≡ 1) ⊎ (even ≡ false) → (id % 2 == 0 && even) ≡ false
no_collision even id (inl odd) = rw odd
no_collision even id (inr e) = ground arith

-- With its next id free and room in the dictionary, a sound plexer makes a new local stream under that id, of its own parity,
-- and is sound again; every other id keeps its stream.
pub create_stream_lem :
    (p : Plexer)
    → IsSound p
    → entry no_objects p.streams_by_id (next_stream_id p.my_streams_even p.local_stream_id_last)
      ≡ none
    → p.streams_by_id.count < uint64_max
    → let id = next_stream_id p.my_streams_even p.local_stream_id_last in
      (p' : Plexer) × (create_stream p ≡ ok (p', some p.next_stream))
      × IsSound p'
      × HasParity p.my_streams_even id
      × (p'.info p.next_stream ≡ some (fresh_info id true))
      × ((k : ℕ)
          → entry no_objects p'.streams_by_id k
            ≡ (if k == id then some p.next_stream else entry no_objects p.streams_by_id k))
unfolding create_stream create_stream_with_id
create_stream_lem p sound free room =
    let even = p.my_streams_even in
    let id = next_stream_id even p.local_stream_id_last in
    let (par, small, _) =
      next_stream_id_lem even p.local_stream_id_last sound.parity sound.bounded in
    let (d, e, x, _, _, l) =
      add-IsIndexed no_objects p.streams_by_id id p.next_stream sound.indexed free room in
    elim (contains_indexed no_objects p.streams_by_id id sound.indexed) [
      | inr (v, held, c) ↦ absurd (ground (arith, held, free))
      | inl (_, c) ↦
          let made = (create_stream_with_id (record p { local_stream_id_last = id }) id true).0 in
          let q = note (record made { streams_by_id = d }) (retain_stream p.next_stream ∷ []) in
          (
            q,
            simp (c, e),
            record {
              indexed = x;
              parity = par;
              bounded = small;
              allocated = omega (arith, sound.allocated);
              names =
                  Names-added p q id (fresh_info id true) sound.allocated refl (λ s. refl) refl
                    sound.names l;
            },
            par,
            simp (==_refl p.next_stream),
            l,
          )
    ]

-- When the next id of a sound plexer is still taken, it makes no stream and interrupts itself.
pub create_stream_exhausted :
    (p : Plexer) {s : ℕ}
    → IsSound p
    → entry no_objects p.streams_by_id (next_stream_id p.my_streams_even p.local_stream_id_last)
      ≡ some s
    → let id = next_stream_id p.my_streams_even p.local_stream_id_last in
      create_stream p ≡ (interrupt (record p { local_stream_id_last = id }) >>= λ r. ok (r.0, none))
unfolding create_stream
create_stream_exhausted p sound held =
    let id = next_stream_id p.my_streams_even p.local_stream_id_last in
    elim (contains_indexed no_objects p.streams_by_id id sound.indexed) [
      | inl (missing, c) ↦ absurd (ground (arith, held, missing))
      | inr (v, _, c) ↦ simp c
    ]

-- Of a sound plexer with room in its dictionary, an id that it knows chooses its stream and changes
-- nothing. An id that it does not know, unless both the id and the side's own ids are even, makes a
-- new stream, which is not local; the plexer is sound again, and every other id keeps its stream.
pub choose_stream_lem :
    (p : Plexer) (id : ℕ)
    → IsSound p
    → (id % 2 ≡ 1) ⊎ (p.my_streams_even ≡ false)
    → p.streams_by_id.count < uint64_max
    → ((s : ℕ) × (entry no_objects p.streams_by_id id ≡ some s)
        × (choose_stream p id ≡ ok (p, some s, false)))
      ⊎ ((p' : Plexer) × (entry no_objects p.streams_by_id id ≡ none)
          × (choose_stream p id ≡ ok (p', some p.next_stream, true))
          × IsSound p'
          × (p'.info p.next_stream ≡ some (fresh_info id false))
          × ((k : ℕ)
              → entry no_objects p'.streams_by_id k
                ≡ (if k == id then some p.next_stream else entry no_objects p.streams_by_id k)))
unfolding choose_stream create_stream_with_id
choose_stream_lem p id sound other room =
    elim (get_item_indexed no_objects p.streams_by_id id sound.indexed) [
      | inr (s, held, g) ↦ inl (s, held, simp (g, ==_ne s 0 (positive s held)))
      | inl (free, g) ↦
          let (d, e, x, _, _, l) =
            add-IsIndexed no_objects p.streams_by_id id p.next_stream sound.indexed free room in
          let made = note (create_stream_with_id p id false).0 (retain_stream p.next_stream ∷ []) in
          let q = record made { streams_by_id = d } in
          inr (
            q,
            free,
            simp (g, no_collision p.my_streams_even id other, e),
            record {
              indexed = x;
              parity = sound.parity;
              bounded = sound.bounded;
              allocated = omega (arith, sound.allocated);
              names =
                  Names-added p q id (fresh_info id false) sound.allocated refl (λ s. refl) refl
                    sound.names l;
            },
            simp (==_refl p.next_stream),
            l,
          )
    ]
  where
    positive : (s : ℕ) → entry no_objects p.streams_by_id id ≡ some s → s ≢ 0
    positive s held z = absurd (omega (arith, (subst (Names p id) held (sound.names id)).0))
