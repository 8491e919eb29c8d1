-- ===== src/Connection/Sample.antt =====
-- src/YMConnection.c: __YMConnectionDoSample, in which each end writes half of the sample's bytes and reads the
-- other half, in calls of at most 16384 bytes.
pub mod Ends
pub mod Halves
use yammer.Prelude.{
  ℕ, zero, suc, ◌+◌, ◌-◌, ◌/◌, ◌%◌, ◌==◌, Bool, true, false, Option, none, some, List, [], ◌∷◌,
  length, if◌then◌else◌, ltb,
}
use yammer.Io.{Source, Sink, ReadResult, got, at_end, failed, read_file, write_file}

-- toReadWrite
abbrev pub to_read_write : ℕ → ℕ → ℕ
to_read_write half sent = if ltb half (16384 + sent) then half - sent else 16384

-- What a round does with the result of its read: -1 ends the sample, and a read of 0 bytes at the end of
-- the file is added as any other.
abbrev pub after_sample_read :
    ReadResult → ℕ → Source → (ℕ → Option (Bool × Source)) → Option (Bool × Source)
after_sample_read failed sent s rest = some (false, s)
after_sample_read at_end sent s rest = rest sent
after_sample_read (got chunk) sent s rest = rest (sent + length chunk)

-- The loop that reads, with `none` where its rounds are used up.
unfoldable pub sample_read : ℕ → ℕ → ℕ → Source → Option (Bool × Source)
sample_read zero half sent s = none
sample_read (suc n) half sent s =
    let (result, s') = read_file s (to_read_write half sent) in
    let rest = after_sample_read result sent s' (λ k. sample_read n half k s') in
    if ltb sent half then rest else some (true, s)

-- YMRandomDataWithLength, which fills the buffer from its end; `random` is what arc4random_uniform(0x100)
-- returns, by the number of calls before, and `calls` were made before these.
unfoldable pub random_data : (ℕ → ℕ) → ℕ → ℕ → List ℕ
random_data random calls zero = []
random_data random calls (suc n) = random (calls + n) % 256 ∷ random_data random calls n

-- The loop that writes. A write that returns -1 ends the sample.
unfoldable pub sample_write : (ℕ → ℕ) → ℕ → ℕ → ℕ → ℕ → Sink → Option (Bool × Sink)
unfolding random_data
sample_write random zero half sent calls k = none
sample_write random (suc n) half sent calls k =
    let count = to_read_write half sent in
    let (result, k') = write_file k (random_data random calls count) in
    let rest = sample_write random n half (sent + result) (calls + count) k' in
    let round = if result == 0 then some (false, k') else rest in
    if ltb sent half then round else some (true, k)

-- What follows a half; one that failed goes to catch_return.
abbrev pub after_half {ℓ m} :
    {A : Type ℓ} {B : Type m} → Option (Bool × A) → (A → B) → (A → Option B) → Option B
after_half none fails next = none
after_half (some (false, a)) fails next = some (fails a)
after_half (some (true, a)) fails next = next a

-- `sample` as it is at first: a uint32_t that was set to -1.
abbrev pub no_sample : ℕ
no_sample = 4294967295

-- __YMConnectionDoSample, with `rounds` for each of its loops; `rate` is what the two times and the conversion from
-- double make the result. The server writes first.
unfoldable pub do_sample : (ℕ → ℕ) → ℕ → ℕ → ℕ → Bool → Source → Sink → Option (ℕ × Source × Sink)
unfolding sample_read sample_write
do_sample random rate rounds size true s k =
    let halves =
      after_half (sample_write random rounds (size / 2) 0 0 k) (λ k'. (no_sample, s, k'))
        (λ k'.
          after_half (sample_read rounds (size / 2) 0 s) (λ s'. (no_sample, s', k'))
            (λ s'. some (rate, s', k'))) in
    if size % 16384 == 0 then halves else some (no_sample, s, k)
do_sample random rate rounds size false s k =
    let halves =
      after_half (sample_read rounds (size / 2) 0 s) (λ s'. (no_sample, s', k))
        (λ s'.
          after_half (sample_write random rounds (size / 2) 0 0 k) (λ k'. (no_sample, s', k'))
            (λ k'. some (rate, s', k'))) in
    if size % 16384 == 0 then halves else some (no_sample, s, k)
