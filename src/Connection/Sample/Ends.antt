-- ===== src/Connection/Sample/Ends.antt =====
-- src/YMConnection.c: the reading half of a sample ends with the bytes, and does not end when the other end
-- closes the connection before.
use yammer.Prelude.{
  ℕ, zero, suc, ◌+◌, ◌-◌, ◌<◌, ◌≤◌, ◌≡◌, refl, ap, ◌∙◌, min, inl, inr, true, false, Bool-cases, ltb,
  lt→ltb, none, some, [], take, drop, length, length-take, length-drop, arith,
}
use yammer.Io.{Source, read_file, granted, later, read_bytes, got, at_end}
use yammer.Io.Full.{granted_bounds, read_bytes-got, drop_more, List-cases}
use yammer.Connection.Sample.{to_read_write, sample_read}

-- A read of a byte or more from a file that has one.
read_some :
    (s : Source) (count : ℕ)
    → 0 < count
    → 0 < length s.bytes
    → (k : ℕ) × (s' : Source) × (read_file s count ≡ (got (take k s.bytes), s'))
      × (0 < k)
      × (k ≤ count)
      × (k ≤ length s.bytes)
      × (s'.bytes ≡ drop k s.bytes)
      × (s'.fails ≡ s.fails)
unfolding read_file
read_some s count h some_bytes =
    let (pos, fits) = granted_bounds s.grants count h in
    let k = min (granted s.grants count) (length s.bytes) in
    let s1 : Source = record s { bytes = drop k s.bytes; grants = later s.grants } in
    (
      k,
      s1,
      ap (λ r. (r, s1)) (read_bytes-got s.bytes s.fails k some_bytes),
      omega (arith, pos),
      omega (arith, fits),
      omega arith,
      refl,
      refl,
    )

-- A round that reads something goes on with it counted.
sample_round :
    (n half sent : ℕ) (s : Source)
    → sent < half
    → 0 < length s.bytes
    → (k : ℕ) × (s' : Source) × (sample_read (suc n) half sent s ≡ sample_read n half (sent + k) s')
      × (0 < k)
      × (k ≤ half - sent)
      × (k ≤ length s.bytes)
      × (s'.bytes ≡ drop k s.bytes)
      × (s'.fails ≡ s.fails)
unfolding sample_read
sample_round n half sent s more some_bytes =
    let (k, s', got_it, pos, upto, fits, left_is, same_end) =
      read_some s (to_read_write half sent) (ground (arith, more)) some_bytes in
    let size : length (take k s.bytes) ≡ k = omega (arith, length-take k s.bytes, fits) in
    (
      k,
      s',
      simp (lt→ltb sent half more, got_it) (ap (λ j. sample_read n half (sent + j) s') size),
      pos,
      ground (arith, upto, more),
      fits,
      left_is,
      same_end,
    )

sample_read-done :
    (n half sent : ℕ) (s : Source)
    → half ≤ sent
    → (s' : Source) × (sample_read (suc n) half sent s ≡ some (true, s'))
      × (s'.bytes ≡ drop (half - sent) s.bytes)
unfolding sample_read
sample_read-done n half sent s h =
    let none_missing : 0 ≡ half - sent = omega arith in
    (s, ground arith, ap (λ k. drop k s.bytes) none_missing)

-- The reading half of a sample ends when its bytes come, however the reads cut them up: from a file
-- that has what is missing of the half, the loop ends without a failure within as many rounds as
-- bytes are missing, and one more to see that none is; it takes those bytes, and no more.
pub sample_read-enough :
    (n half sent : ℕ) (s : Source)
    → half ≤ sent + n
    → half ≤ sent + length s.bytes
    → (s' : Source) × (sample_read (suc n) half sent s ≡ some (true, s'))
      × (s'.bytes ≡ drop (half - sent) s.bytes)
sample_read-enough zero half sent s h enough = sample_read-done 0 half sent s (omega arith)
sample_read-enough (suc n) half sent s h enough = elim (Bool-cases (ltb sent half)) [
  | inr done ↦ sample_read-done (suc n) half sent s (ground (arith, done))
  | inl test ↦
      let more : sent < half = ground (arith, test) in
      let (k, s1, e, pos, upto, fits, left_is, same_end) =
        sample_round (suc n) half sent s more (omega arith) in
      let size : length s1.bytes ≡ length s.bytes - k = ap length left_is ∙ length-drop k s.bytes in
      let (s', e', rest) =
        sample_read-enough n half (sent + k) s1 (omega (arith, pos)) (omega (arith, size, fits)) in
      (
        s',
        e ∙ e',
        rest
            ∙ ap (drop (half - (sent + k))) left_is
            ∙ ap (λ j. drop j (drop k s.bytes)) (omega arith)
            ∙ drop_more k (half - sent) s.bytes upto,
      )
]

-- A read at the end of the file reads nothing, and stays there.
read_at_end :
    (s : Source) (count : ℕ)
    → s.bytes ≡ []
    → s.fails ≡ false
    → (s' : Source) × (read_file s count ≡ (at_end, s')) × (s'.bytes ≡ []) × (s'.fails ≡ false)
unfolding read_file
read_at_end s count no_bytes ends =
    let k = min (granted s.grants count) (length s.bytes) in
    let s1 : Source = record s { bytes = drop k s.bytes; grants = later s.grants } in
    (
      s1,
      ap (λ r. (r, s1))
          (ap (λ bs. read_bytes bs s.fails k) no_bytes ∙ ap (λ b. read_bytes [] b k) ends),
      ap (drop k) no_bytes ∙ drop_nil k,
      ends,
    )
  where
    drop_nil : (n : ℕ) → drop {A = ℕ} n [] ≡ []
    drop_nil zero = refl
    drop_nil (suc n) = refl

sample_end :
    (n half sent : ℕ) (s : Source)
    → sent < half
    → s.bytes ≡ []
    → s.fails ≡ false
    → (s' : Source) × (sample_read (suc n) half sent s ≡ sample_read n half sent s')
      × (s'.bytes ≡ [])
      × (s'.fails ≡ false)
unfolding sample_read
sample_end n half sent s more no_bytes ends =
    let (s1, e, none_left, same_end) = read_at_end s (to_read_write half sent) no_bytes ends in
    (s1, simp (lt→ltb sent half more, e) refl, none_left, same_end)

sample_read-none : (half sent : ℕ) (s : Source) → sample_read zero half sent s ≡ none
unfolding sample_read
sample_read-none half sent s = refl

-- A sample whose other end closes the connection before half of the bytes came does not end: the
-- loop goes on for any number of rounds, reading nothing.
pub sample_read-starved :
    (n half sent : ℕ) (s : Source)
    → sent + length s.bytes < half
    → s.fails ≡ false
    → sample_read n half sent s ≡ none
sample_read-starved zero half sent s short ends = sample_read-none half sent s
sample_read-starved (suc n) half sent s short ends = elim (List-cases s.bytes) [
  | inl no_bytes ↦
      let (s1, e, none_left, same_end) = sample_end n half sent s (omega arith) no_bytes ends in
      let size : length s1.bytes ≡ 0 = ap length none_left in
      e ∙ sample_read-starved n half sent s1 (omega (arith, size)) same_end
  | inr some_bytes ↦
      let (k, s1, e, pos, upto, fits, left_is, same_end) =
        sample_round n half sent s (omega arith) some_bytes in
      let size : length s1.bytes ≡ length s.bytes - k = ap length left_is ∙ length-drop k s.bytes in
      e ∙ sample_read-starved n half (sent + k) s1 (omega (arith, size, fits)) (same_end ∙ ends)
]
