-- ===== src/Io/Full.antt =====
-- src/YMUtilities.c: full reads and writes do not depend on how the operating system cuts them up.
use yammer.Prelude.{
  ℕ, zero, suc, ◌-◌, ◌<◌, ◌≤◌, ◌≡◌, refl, ap, ◌∙◌, sym, min, ◌==◌, ==_ne, ==→eq, leb, le→leb, Bool,
  true, false, List, [], ◌∷◌, ◌++◌, take, drop, length, length-take, length-drop, ok, arith, inl,
  inr, Bool-cases, if◌then◌else◌, ◌⊎◌,
}
use yammer.Io.{
  IoResult, success, eof, error, Source, granted, later, got, after_read, prepend, read_file,
  read_loop, read_full, read_bytes,
}

-- A call for a byte or more is granted a byte or more, and no more than it asks for.
pub granted_bounds :
    (gs : List ℕ) (count : ℕ) → 0 < count → (0 < granted gs count) × (granted gs count ≤ count)
granted_bounds [] count h = (h, omega arith)
granted_bounds (g ∷ gs) count h = ground arith

take_more : (m n : ℕ) (xs : List ℕ) → m ≤ n → take m xs ++ take (n - m) (drop m xs) ≡ take n xs
take_more zero n xs h = ap (λ k. take k xs) (omega arith)
take_more (suc m) zero xs h = absurd (omega arith)
take_more (suc m) (suc n) [] h = take_nil (suc n - suc m)
  where
    take_nil : (k : ℕ) → take {A = ℕ} k [] ≡ []
    take_nil zero = refl
    take_nil (suc k) = refl
take_more (suc m) (suc n) (x ∷ xs) h =
    ap (◌∷◌ x)
      (ap (λ k. take m xs ++ take k (drop m xs)) (omega arith) ∙ take_more m n xs (omega arith))

pub drop_more : (m n : ℕ) (xs : List ℕ) → m ≤ n → drop (n - m) (drop m xs) ≡ drop n xs
drop_more zero n xs h = ap (λ k. drop k xs) (omega arith)
drop_more (suc m) zero xs h = absurd (omega arith)
drop_more (suc m) (suc n) [] h = drop_nil (suc n - suc m)
  where
    drop_nil : (k : ℕ) → drop {A = ℕ} k [] ≡ []
    drop_nil zero = refl
    drop_nil (suc k) = refl
drop_more (suc m) (suc n) (x ∷ xs) h =
    ap (λ k. drop k (drop m xs)) (omega arith) ∙ drop_more m n xs (omega arith)

-- How a read of `count` bytes ends.
abbrev pub ending : Source → ℕ → IoResult
ending s count = if leb count (length s.bytes) then success else (if s.fails then error else eof)

pub ending-fits : (s : Source) (count : ℕ) → count ≤ length s.bytes → ending s count ≡ success
ending-fits s count h = rw (le→leb count (length s.bytes) h) refl

-- What is left of a source is the rest of its bytes, and the same end.
pub record IsRest (s : Source) (count : ℕ) (s' : Source) : Type 0 where
  pub bytes_left : s'.bytes ≡ drop count s.bytes
  pub same_end : s'.fails ≡ s.fails

abbrev Reads : ℕ → Source → ℕ → Type 0
Reads n s count =
    (s' : Source) × (read_loop n s count ≡ (take count s.bytes, ending s count, s'))
    × IsRest s count s'

read_loop-none : (n : ℕ) (s : Source) → Reads n s 0
unfolding read_loop
read_loop-none zero s = (s, ground arith, record { bytes_left = refl; same_end = refl })
read_loop-none (suc n) s = (s, ground arith, record { bytes_left = refl; same_end = refl })

take_nil : (n : ℕ) → take {A = ℕ} n [] ≡ []
take_nil zero = refl
take_nil (suc n) = refl

drop_nil : (n : ℕ) → drop {A = ℕ} n [] ≡ []
drop_nil zero = refl
drop_nil (suc n) = refl

pub List-cases : (xs : List ℕ) → (xs ≡ []) ⊎ (0 < length xs)
List-cases [] = inl refl
List-cases (x ∷ xs) = inr (omega arith)

read_bytes-end :
    (fails : Bool) (n : ℕ) (s : Source) (rest : ℕ → List ℕ × IoResult × Source)
    → after_read (read_bytes [] fails n) s rest ≡ ([], if fails then error else eof, s)
read_bytes-end true n s rest = refl
read_bytes-end false n s rest = refl

pub read_bytes-got :
    (bytes : List ℕ) (fails : Bool) (n : ℕ)
    → 0 < length bytes
    → read_bytes bytes fails n ≡ got (take n bytes)
read_bytes-got [] fails n h = absurd (omega arith)
read_bytes-got (b ∷ bs) true n h = refl
read_bytes-got (b ∷ bs) false n h = refl

pub same_source :
    {xs ys : List ℕ} {r r' : IoResult} (s : Source)
    → xs ≡ ys
    → r ≡ r'
    → ◌≡◌ {A = List ℕ × IoResult × Source} (xs, r, s) (ys, r', s)
same_source s e h = cc

ending-none :
    (s : Source) (count : ℕ)
    → s.bytes ≡ []
    → 0 < count
    → (if s.fails then error else eof) ≡ ending s count
ending-none s count e h = rw e (ground arith)

-- A source that has no byte left ends at once.
read_loop-end : (n : ℕ) (s : Source) (count : ℕ) → s.bytes ≡ [] → 0 < count → Reads (suc n) s count
unfolding read_loop read_file
read_loop-end n s count e h =
    let k = min (granted s.grants count) (length s.bytes) in
    let s1 : Source = record s { bytes = drop k s.bytes; grants = later s.grants } in
    (
      s1,
      rw (==_ne count 0 (λ z. absurd (omega arith))) (
          ap (λ bs. after_read (read_bytes bs s.fails k) s1 (λ j. read_loop n s1 (count - j))) e
          ∙ read_bytes-end s.fails k s1 _
          ∙ same_source s1 (sym (ap (take count) e ∙ take_nil count)) (ending-none s count e h)),
      record { bytes_left = rw e (drop_nil _ ∙ sym (drop_nil count)); same_end = refl },
    )

-- The rest of a read ends as the whole does.
ending-drop :
    (s s1 : Source) (count k : ℕ)
    → k ≤ count
    → k ≤ length s.bytes
    → s1.bytes ≡ drop k s.bytes
    → s1.fails ≡ s.fails
    → ending s1 (count - k) ≡ ending s count
ending-drop s s1 count k h h' e f =
    let size : length s1.bytes ≡ length s.bytes - k = ap length e ∙ length-drop k s.bytes in
    let rest : leb (count - k) (length s.bytes - k) ≡ leb count (length s.bytes) = ground arith in
    ap (λ b. if b then success else (if s1.fails then error else eof))
      (ap (leb (count - k)) size ∙ rest)
    ∙ ap (λ b. if leb count (length s.bytes) then success else (if b then error else eof)) f

read_loop-more :
    (n : ℕ) (s : Source) (count : ℕ)
    → 0 < length s.bytes
    → 0 < count
    → ((s' : Source) (k : ℕ) → k ≤ n → Reads n s' k)
    → count ≤ suc n
    → Reads (suc n) s count
unfolding read_loop read_file
read_loop-more n s count some_bytes h ih small =
    let (pos, fits) = granted_bounds s.grants count h in
    let k = min (granted s.grants count) (length s.bytes) in
    let s1 : Source = record s { bytes = drop k s.bytes; grants = later s.grants } in
    let (s', e, rest) = ih s1 (count - k) (omega (arith, pos, fits)) in
    let size : length (take k s.bytes) ≡ k = omega (arith, length-take k s.bytes) in
    let upto : k ≤ count = omega (arith, fits) in
    (
      s',
      simp (==_ne count 0 (λ z. absurd (omega arith)), read_bytes-got s.bytes s.fails k some_bytes)
          (ap (λ j. prepend (take k s.bytes) (read_loop n s1 (count - j))) size
            ∙ ap (prepend (take k s.bytes)) e
            ∙ same_source s' (take_more k count s.bytes upto)
                (ending-drop s s1 count k upto (omega arith) refl refl)),
      record {
        bytes_left = rest.bytes_left ∙ drop_more k count s.bytes upto;
        same_end = rest.same_end;
      },
    )

read_loop_lem : (n : ℕ) (s : Source) (count : ℕ) → count ≤ n → Reads n s count
read_loop_lem zero s count h = let e : count ≡ 0 = omega arith in rw e (read_loop-none 0 s)
read_loop_lem (suc n) s count h = elim (Bool-cases (count == 0)) [
  | inl none ↦ rw (==→eq count 0 none) (read_loop-none (suc n) s)
  | inr some_count ↦ elim (List-cases s.bytes) [
    | inl no_bytes ↦ read_loop-end n s count no_bytes (ground (arith, some_count))
    | inr bytes_left ↦
        read_loop-more n s count bytes_left (ground (arith, some_count)) (read_loop_lem n) h
  ]
]

-- A full read of a byte or more gives the next bytes of the file, however the reads cut them up: as
-- many as it is asked for, with success, or all that are left, with the end or the error that
-- follows them. The rest stays to be read.
pub read_full_lem :
    (s : Source) (count : ℕ)
    → 0 < count
    → (s' : Source) × (read_full s count ≡ ok (take count s.bytes, ending s count, s'))
      × IsRest s count s'
unfolding read_full
read_full_lem s count h =
    let (s', e, rest) = read_loop_lem count s count (omega arith) in
    (s', rw (==_ne count 0 (λ z. absurd (omega arith)), e), rest)
