-- ===== src/Mdns/RoundTrip.antt =====
-- src/YMmDNS.c: TXT records are read back as they were written.
use yammer.Prelude.{
  ℕ, zero, suc, ◌+◌, ◌%◌, ◌<◌, ◌≤◌, ◌≡◌, ◌≢◌, refl, sym, ap, ◌∙◌, false, some, List, [], ◌∷◌, ◌++◌,
  length, length-append, drop, length-drop, take-append, drop-append, All, arith, leb, ==_ne, inl,
  inr, ok,
}
use mathlib.Core.List.{append_assoc}
use yammer.Mdns.{
  KeyPair, write_pair, write_pairs, txt_blob_create, find_equals, read_pair, key_pairs_loop,
  txt_key_pairs_create,
}
use yammer.Mdns.Blob.{FitsByte, txt_blob_create_cases, length-write_pairs}

-- A byte that may stand in a key.
abbrev pub IsKeyByte : ℕ → Type 0
IsKeyByte c = (c ≢ 0) × (c ≢ b'=')

abbrev pub HasKeyBytes : KeyPair → Type 0
HasKeyBytes p = All IsKeyByte p.key

find_equals-key :
    (key rest : List ℕ)
    → All IsKeyByte key
    → find_equals (key ++ b'=' ∷ rest) ≡ ok (some (length key))
unfolding find_equals
find_equals-key [] rest h = refl
find_equals-key (c ∷ cs) rest ((zero_no, equals_no), others) =
    rw (==_ne c 0 zero_no, ==_ne c b'=' equals_no, find_equals-key cs rest others)

drop_past : (n : ℕ) (key rest : List ℕ) → n ≡ length key + 1 → drop n (key ++ b'=' ∷ rest) ≡ rest
drop_past zero key rest h = absurd (omega arith)
drop_past (suc zero) [] rest h = refl
drop_past (suc (suc n)) [] rest h = absurd (omega arith)
drop_past (suc n) (c ∷ cs) rest h = drop_past n cs rest (omega arith)

read_pair-write :
    (p : KeyPair) (rest : List ℕ)
    → FitsByte p
    → read_pair
        (length p.key + 1 + length p.value)
        (length p.key)
        (p.key ++ b'=' ∷ (p.value ++ rest))
      ≡ ok p
unfolding read_pair
read_pair-write p rest fits = ground (
  arith,
  fits,
  length-append p.key (b'=' ∷ (p.value ++ rest)),
  length-append p.value rest,
  take-append p.key (b'=' ∷ (p.value ++ rest)),
  drop_past (length p.key + 1) p.key (p.value ++ rest) refl,
  take-append p.value rest,
)

drop_pair :
    (p : KeyPair) (rest : List ℕ)
    → drop (length p.key + 1 + length p.value) (p.key ++ b'=' ∷ (p.value ++ rest)) ≡ rest
drop_pair p rest = go p.key (length p.key + 1 + length p.value) refl
  where
    value_past : (n : ℕ) → n ≡ length p.value → drop n (p.value ++ rest) ≡ rest
    value_past n e = rw e (drop-append p.value rest)

    go :
        (key : List ℕ) (n : ℕ)
        → n ≡ length key + 1 + length p.value
        → drop n (key ++ b'=' ∷ (p.value ++ rest)) ≡ rest
    go key zero e = absurd (omega arith)
    go [] (suc n) e = value_past n (omega arith)
    go (c ∷ cs) (suc n) e = go cs n (omega arith)

write_pair-append :
    (p : KeyPair) (rest : List ℕ)
    → FitsByte p
    → write_pair p ++ rest
      ≡ (length p.key + 1 + length p.value) ∷ (p.key ++ b'=' ∷ (p.value ++ rest))
unfolding write_pair
write_pair-append p rest fits =
    let small : (length p.key + 1 + length p.value) % 256 ≡ length p.key + 1 + length p.value =
      omega (arith, fits) in
    rw (small, append_assoc p.key (b'=' ∷ p.value) rest)

key_pairs_loop-write :
    (n : ℕ) (ps : List KeyPair)
    → All FitsByte ps
    → All HasKeyBytes ps
    → length (write_pairs ps) ≤ n
    → key_pairs_loop n (write_pairs ps) ≡ ok (some ps)
unfolding key_pairs_loop write_pairs
key_pairs_loop-write n [] f k h = refl
key_pairs_loop-write zero (p ∷ ps) f k h = absurd (omega (arith, length-write_pairs p ps))
key_pairs_loop-write (suc n) (p ∷ ps) (fits, others) (named, names) h =
    let rest = write_pairs ps in
    rw (
      write_pair-append p rest fits,
      find_equals-key p.key (p.value ++ rest) named,
      read_pair-write p rest fits,
      drop_pair p rest,
      key_pairs_loop-write n ps others names (omega (arith, length-write_pairs p ps)),
    )

reads_written :
    (ps : List KeyPair)
    → 0 < length ps
    → All FitsByte ps
    → All HasKeyBytes ps
    → txt_key_pairs_create (write_pairs ps) ≡ ok (some ps)
unfolding txt_key_pairs_create
reads_written [] pos f k = absurd (omega arith)
reads_written (p ∷ ps) pos f k =
    rw (not_leb (length (write_pairs (p ∷ ps))) (omega (arith, length-write_pairs p ps)))
      (key_pairs_loop-write (length (write_pairs (p ∷ ps))) (p ∷ ps) f k (omega arith))
  where
    not_leb : (n : ℕ) → 1 < n → leb n 1 ≡ false
    not_leb n h = ground arith

-- Key pairs that make a TXT record, and whose keys have neither '=' nor NUL, are read back from it
-- as they were, and the length that is left for the caller is the record's.
pub txt_key_pairs_create-blob :
    (ps : List KeyPair) {blob : List ℕ} {size : ℕ}
    → All HasKeyBytes ps
    → txt_blob_create ps ≡ (some blob, size)
    → (txt_key_pairs_create blob ≡ ok (some ps)) × (size ≡ length blob)
unfolding txt_key_pairs_create
txt_key_pairs_create-blob ps {blob} {size} k h = elim (txt_blob_create_cases ps) [
  | inl (_, e) ↦ absurd (ground (arith, h, e))
  | inr (inl (some_pairs, fits, e)) ↦
      let same : write_pairs ps ≡ blob = ground (arith, e, h) in
      (
        ap txt_key_pairs_create (sym same) ∙ reads_written ps some_pairs fits.0 k,
        ground (arith, e, h),
      )
  | inr (inr (_, e)) ↦ absurd (ground (arith, h, e))
]

-- With the length of the record as bound on the number of pairs, the loop gives what it gives with
-- any larger bound.
key_pairs_loop_fuel :
    (n : ℕ) (txt : List ℕ) → length txt ≤ n → key_pairs_loop n txt ≡ key_pairs_loop (length txt) txt
unfolding key_pairs_loop
key_pairs_loop_fuel n txt h = go n (length txt) txt h (omega arith)
  where
    go :
        (n m : ℕ) (txt : List ℕ)
        → length txt ≤ n
        → length txt ≤ m
        → key_pairs_loop n txt ≡ key_pairs_loop m txt
    go zero zero [] h k = refl
    go zero (suc m) [] h k = refl
    go (suc n) zero [] h k = refl
    go (suc n) (suc m) [] h k = refl
    go zero m (b ∷ walker) h k = absurd (omega arith)
    go (suc n) zero (b ∷ walker) h k = absurd (omega arith)
    go (suc n) (suc m) (b ∷ walker) h k = rw (
        go n m (drop b walker) (omega (arith, length-drop b walker))
          (omega (arith, length-drop b walker)))
