-- ===== src/Connection/Sample/Halves.antt =====
-- src/YMConnection.c: the two halves of a sample, on a socket that has the one and takes the other.
use yammer.Prelude.{
  ℕ, zero, suc, ◌+◌, ◌-◌, ◌/◌, ◌%◌, ◌<◌, ◌≤◌, ◌≡◌, refl, ap, ◌∙◌, sym, min, ◌==◌, ==_ne, lt→ltb,
  inl, inr, Bool, true, false, Bool-cases, ltb, some, List, [], ◌++◌, take, drop, length,
  length-take, length-append, arith,
}
use mathlib.Core.List.{append_assoc, append-nil}
use yammer.Io.{Source, Sink, granted, later, write_file}
use yammer.Io.Full.{granted_bounds}
use yammer.Io.Writes.{IsWritten}
use yammer.Connection.Sample.{to_read_write, sample_read, random_data, sample_write, do_sample}
use yammer.Connection.Sample.Ends.{sample_read-enough}

length-random_data : (random : ℕ → ℕ) (calls n : ℕ) → length (random_data random calls n) ≡ n
unfolding random_data
length-random_data random calls zero = refl
length-random_data random calls (suc n) = omega (arith, length-random_data random calls n)

-- A round that is to write bytes, and has room, goes on with what it wrote.
sample_write_round :
    (random : ℕ → ℕ) (n half sent calls : ℕ) (k : Sink)
    → sent < half
    → 0 < k.room
    → (bytes : List ℕ) × (k' : Sink) × (sample_write random (suc n) half sent calls k
        ≡ sample_write random n half (sent + length bytes) (calls + to_read_write half sent) k')
      × (0 < length bytes)
      × (length bytes ≤ half - sent)
      × (k'.written ≡ k.written ++ bytes)
      × (k'.room ≡ k.room - length bytes)
unfolding sample_write write_file
sample_write_round random n half sent calls k more room =
    let count = to_read_write half sent in
    let buf = random_data random calls count in
    let size : length buf ≡ count = length-random_data random calls count in
    let some_count : 0 < count = ground (arith, more) in
    let upto : count ≤ half - sent = ground (arith, more) in
    let (pos, fits) = granted_bounds k.grants (length buf) (omega (arith, size, some_count)) in
    let r = min (granted k.grants (length buf)) k.room in
    let k1 : Sink = record {
      written = k.written ++ take r buf;
      room = k.room - r;
      grants = later k.grants;
    } in
    let r_size : length (take r buf) ≡ r = omega (arith, length-take r buf, fits) in
    (
      take r buf,
      k1,
      simp (lt→ltb sent half more, ==_ne r 0 (λ z. absurd (omega (arith, pos, room))))
          (ap (λ j. sample_write random n half (sent + j) (calls + count) k1) (sym r_size)),
      omega (arith, r_size, pos, room),
      omega (arith, r_size, fits, size, upto),
      refl,
      ap (λ j. k.room - j) (sym r_size),
    )

sample_write-done :
    (random : ℕ → ℕ) (n half sent calls : ℕ) (k : Sink)
    → half ≤ sent
    → sample_write random (suc n) half sent calls k ≡ some (true, k)
unfolding sample_write
sample_write-done random n half sent calls k done = ground arith

sample_write-enough :
    (random : ℕ → ℕ) (n half sent calls : ℕ) (k : Sink)
    → half ≤ sent + n
    → half - sent ≤ k.room
    → (bytes : List ℕ) × (k' : Sink) × (sample_write random (suc n) half sent calls k
        ≡ some (true, k'))
      × (length bytes ≡ half - sent)
      × IsWritten k bytes k'
sample_write-enough random zero half sent calls k rounds room = (
  [],
  k,
  sample_write-done random 0 half sent calls k (omega arith),
  omega arith,
  record { all_written = sym (append-nil k.written); room_left = omega arith },
)
sample_write-enough random (suc n) half sent calls k rounds room =
    elim (Bool-cases (ltb sent half)) [
      | inr done ↦
          let over : half ≤ sent = ground (arith, done) in
          (
            [],
            k,
            sample_write-done random (suc n) half sent calls k over,
            omega arith,
            record { all_written = sym (append-nil k.written); room_left = omega arith },
          )
      | inl test ↦
          let more : sent < half = ground (arith, test) in
          let (bytes, k1, e, pos, upto, written1, room1) =
            sample_write_round random (suc n) half sent calls k more (omega arith) in
          let (others, k2, e', size, written2) =
            sample_write-enough random n half (sent + length bytes)
              (calls + to_read_write half sent) k1 (omega (arith, pos)) (omega (arith, room1)) in
          (
            bytes ++ others,
            k2,
            e ∙ e',
            omega (arith, length-append bytes others, size, upto),
            record {
              all_written =
                  written2.all_written
                  ∙ ap (λ b. b ++ others) written1
                  ∙ append_assoc k.written bytes others;
              room_left = omega (arith, written2.room_left, room1, length-append bytes others);
            },
          )
    ]

-- The writing half and the reading half from their beginning.
sample_write_half :
    (random : ℕ → ℕ) (n half : ℕ) (k : Sink)
    → half ≤ n
    → half ≤ k.room
    → (bytes : List ℕ) × (k' : Sink) × (sample_write random (suc n) half 0 0 k ≡ some (true, k'))
      × (length bytes ≡ half)
      × IsWritten k bytes k'
sample_write_half random n half k enough room =
    let (bytes, k', writes, size, written) =
      sample_write-enough random n half 0 0 k (omega (arith, enough)) (omega (arith, room)) in
    (bytes, k', writes, size ∙ omega arith, written)

sample_read_half :
    (n half : ℕ) (s : Source)
    → half ≤ n
    → half ≤ length s.bytes
    → (s' : Source) × (sample_read (suc n) half 0 s ≡ some (true, s'))
      × (s'.bytes ≡ drop half s.bytes)
sample_read_half n half s enough coming =
    let (s', reads, left) =
      sample_read-enough n half 0 s (omega (arith, enough)) (omega (arith, coming)) in
    let all : half - 0 ≡ half = omega arith in (s', reads, left ∙ ap (λ j. drop j s.bytes) all)

-- A sample whose size is divisible by 16384, on a socket that has half of it to read and room for
-- half of it to write, ends with the rate as its result, on the server's end and on the client's,
-- however the reads and writes cut the bytes up, within as many rounds of each loop as half of its
-- bytes and one more: half of the bytes were read, and no more, and as many written.
pub do_sample_lem :
    (random : ℕ → ℕ) (rate rounds size : ℕ) (as_server : Bool) (s : Source) (k : Sink)
    → size % 16384 ≡ 0
    → size / 2 ≤ rounds
    → size / 2 ≤ length s.bytes
    → size / 2 ≤ k.room
    → (bytes : List ℕ) × (s' : Source) × (k' : Sink) × (do_sample random rate
          (suc rounds)
          size
          as_server
          s
          k
        ≡ some (rate, s', k'))
      × (length bytes ≡ size / 2)
      × IsWritten k bytes k'
      × (s'.bytes ≡ drop (size / 2) s.bytes)
unfolding do_sample
do_sample_lem random rate rounds size true s k divisible enough coming room =
    let (s', reads, left) = sample_read_half rounds (size / 2) s enough coming in
    let (bytes, k', writes, half, written) =
      sample_write_half random rounds (size / 2) k enough room in
    let even : (size % 16384 == 0) ≡ true = ground (arith, divisible) in
    (bytes, s', k', rw (even, writes, reads) refl, half, written, left)
do_sample_lem random rate rounds size false s k divisible enough coming room =
    let (s', reads, left) = sample_read_half rounds (size / 2) s enough coming in
    let (bytes, k', writes, half, written) =
      sample_write_half random rounds (size / 2) k enough room in
    let even : (size % 16384 == 0) ≡ true = ground (arith, divisible) in
    (bytes, s', k', rw (even, writes, reads) refl, half, written, left)
