-- ===== src/Io/Writes.antt =====
-- src/YMUtilities.c: a full write puts out every byte, however the writes cut it up, or stops the
-- process.
use yammer.Prelude.{
  ℕ, zero, suc, ◌-◌, ◌<◌, ◌≤◌, ◌≡◌, refl, ap, ◌∙◌, sym, min, ◌==◌, ==_ne, leb, List, [], ◌∷◌, ◌++◌,
  take, drop, length, length-drop, ok, abort, arith, inl, inr, Bool-cases, ◌⊎◌,
}
use mathlib.Core.List.{append_assoc, append-nil}
use yammer.Io.{Sink, granted, later, write_file, write_loop, write_full}
use yammer.Io.Full.{granted_bounds}

pub take-drop : (n : ℕ) (xs : List ℕ) → take n xs ++ drop n xs ≡ xs
take-drop zero xs = refl
take-drop (suc n) [] = refl
take-drop (suc n) (x ∷ xs) = ap (◌∷◌ x) (take-drop n xs)

-- What a sink holds once all of `bytes` went into it.
pub record IsWritten (k : Sink) (bytes : List ℕ) (k' : Sink) : Type 0 where
  pub all_written : k'.written ≡ k.written ++ bytes
  pub room_left : k'.room ≡ k.room - length bytes

write_loop_lem :
    (n : ℕ) (k : Sink) (bytes : List ℕ)
    → length bytes ≤ n
    → length bytes ≤ k.room
    → (k' : Sink) × (write_loop n k bytes ≡ ok k') × IsWritten k bytes k'
unfolding write_loop write_file
write_loop_lem n k [] h h' =
    (k, refl, record { all_written = sym (append-nil k.written); room_left = omega arith })
write_loop_lem zero k (b ∷ bs) h h' = absurd (omega arith)
write_loop_lem (suc n) k (b ∷ bs) h h' =
    let bytes : List ℕ = b ∷ bs in
    let (pos, fits) = granted_bounds k.grants (suc (length bs)) (omega arith) in
    let r = min (granted k.grants (suc (length bs))) k.room in
    let k1 : Sink = record {
      written = k.written ++ take r bytes;
      room = k.room - r;
      grants = later k.grants;
    } in
    let size : length (drop r bytes) ≡ suc (length bs) - r = length-drop r bytes in
    let (k', e, w) =
      write_loop_lem n k1 (drop r bytes) (omega (arith, size, pos)) (omega (arith, size, fits)) in
    (
      k',
      simp (==_ne r 0 (λ z. absurd (omega (arith, pos)))) e,
      record {
        all_written =
            w.all_written
            ∙ append_assoc k.written (take r bytes) (drop r bytes)
            ∙ ap (◌++◌ k.written) (take-drop r bytes);
        room_left = w.room_left ∙ omega (arith, size, fits);
      },
    )

-- It stops the process as soon as the room is used up.
write_loop-full :
    (n : ℕ) (k : Sink) (bytes : List ℕ) → k.room < length bytes → write_loop n k bytes ≡ abort
unfolding write_loop write_file
write_loop-full n k [] h = absurd (omega arith)
write_loop-full zero k (b ∷ bs) h = refl
write_loop-full (suc n) k (b ∷ bs) h =
    let r = min (granted k.grants (suc (length bs))) k.room in
    let k1 : Sink = record {
      written = k.written ++ take r (b ∷ bs);
      room = k.room - r;
      grants = later k.grants;
    } in
    let (pos, fits) = granted_bounds k.grants (suc (length bs)) (omega arith) in
    let size : length (drop r (b ∷ bs)) ≡ suc (length bs) - r = length-drop r (b ∷ bs) in
    let rest = write_loop-full n k1 (drop r (b ∷ bs)) (omega (arith, size, fits)) in
    elim (Bool-cases (r == 0)) [ inl z ↦ simp z | inr z ↦ simp z rest ]

pub write_full-fits :
    (k : Sink) (bytes : List ℕ)
    → 0 < length bytes
    → length bytes ≤ k.room
    → (k' : Sink) × (write_full k bytes ≡ ok k') × IsWritten k bytes k'
unfolding write_full
write_full-fits k bytes h fits =
    let (k', e, w) = write_loop_lem (length bytes) k bytes (omega arith) fits in
    (k', simp (==_ne (length bytes) 0 (λ z. absurd (omega arith))) e, w)

write_full-full :
    (k : Sink) (bytes : List ℕ)
    → 0 < length bytes
    → k.room < length bytes
    → write_full k bytes ≡ abort
unfolding write_full
write_full-full k bytes h full =
    simp (==_ne (length bytes) 0 (λ z. absurd (omega arith)))
      (write_loop-full (length bytes) k bytes full)

-- A full write of a byte or more puts all bytes at the end of the file, in their order, when there is
-- room for them, however the writes cut them up; when there is not, it stops the process.
pub write_full_lem :
    (k : Sink) (bytes : List ℕ)
    → 0 < length bytes
    → ((length bytes ≤ k.room)
        × ((k' : Sink) × (write_full k bytes ≡ ok k') × IsWritten k bytes k'))
      ⊎ ((k.room < length bytes) × (write_full k bytes ≡ abort))
write_full_lem k bytes h = elim (Bool-cases (leb (length bytes) k.room)) [
  | inl fits ↦
      let fits' : length bytes ≤ k.room = ground (arith, fits) in
      inl (fits', write_full-fits k bytes h fits')
  | inr full ↦
      let full' : k.room < length bytes = ground (arith, full) in
      inr (full', write_full-full k bytes h full')
]
