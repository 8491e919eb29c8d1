-- ===== src/Mdns/Blob.antt =====
-- src/YMmDNS.c: which key pairs make a TXT record, and how long it is.
use yammer.Prelude.{
  ℕ, ◌+◌, ◌%◌, ◌<◌, ◌≤◌, ◌≡◌, refl, ap, ◌∙◌, true, false, none, some, List, [], ◌∷◌, length,
  length-append, All, arith, ltb, ==_ne, Bool-cases, ◌⊎◌, inl, inr,
}
use yammer.Mdns.{
  KeyPair, blob_size, write_pair, write_pairs, txt_blob_create, blob_of, key_value_len_max,
  uint16_max,
}

-- A pair that the length byte can measure.
abbrev pub FitsByte : KeyPair → Type 0
FitsByte p = length p.key + length p.value ≤ key_value_len_max

-- Pairs that fit a record after `size` bytes.
abbrev pub FitsRecord : ℕ → List KeyPair → Type 0
FitsRecord size ps = All FitsByte ps × (size + length (write_pairs ps) ≤ uint16_max)

pub length-write_pair : (p : KeyPair) → length (write_pair p) ≡ length p.key + length p.value + 2
unfolding write_pair
length-write_pair p = omega (arith, length-append p.key (b'=' ∷ p.value))

pub length-write_pairs :
    (p : KeyPair) (ps : List KeyPair)
    → length (write_pairs (p ∷ ps)) ≡ length p.key + length p.value + 2 + length (write_pairs ps)
unfolding write_pairs
length-write_pairs p ps =
    omega (arith, length-write_pair p, length-append (write_pair p) (write_pairs ps))

size_of_pair : (k v : ℕ) → k + v ≤ key_value_len_max → (k % 256 + v + 2) % 65536 ≡ k + v + 2
size_of_pair k v h = omega arith

ltb_no : (m n : ℕ) → ltb m n ≡ false → n ≤ m
ltb_no m n h = ground arith

ltb_yes : (m n : ℕ) → ltb m n ≡ true → m < n
ltb_yes m n h = ground arith

not_ltb : (m n : ℕ) → n ≤ m → ltb m n ≡ false
not_ltb m n h = ground arith

blob_size_cases :
    (size : ℕ) (ps : List KeyPair)
    → size ≤ uint16_max
    → (FitsRecord size ps × (blob_size size ps ≡ some (size + length (write_pairs ps))))
      ⊎ ((¬ FitsRecord size ps) × (blob_size size ps ≡ none))
unfolding blob_size
blob_size_cases size [] b =
    inl ((tt, unfold write_pairs in omega arith), unfold write_pairs in ground arith)
blob_size_cases size (p ∷ ps) b =
    let k = length p.key in
    let v = length p.value in
    let whole = length-write_pairs p ps in
    elim (Bool-cases (ltb key_value_len_max (k + v))) [
      | inl long ↦ inr (
        λ fits. absurd (omega (arith, fits.0.0, ltb_yes key_value_len_max (k + v) long)),
        ground (arith, long),
      )
      | inr short ↦
          let small = ltb_no key_value_len_max (k + v) short in
          let key_small = not_ltb key_value_len_max k (omega (arith, small)) in
          elim (Bool-cases (ltb uint16_max (size + (k + v + 2)))) [
            | inl over ↦ inr (
              λ fits.
                  absurd
                    (omega (arith, whole, fits.1, ltb_yes uint16_max (size + (k + v + 2)) over)),
              rw (size_of_pair k v small, key_small, short, over),
            )
            | inr under ↦
                elim (blob_size_cases (size + (k + v + 2)) ps (ltb_no uint16_max _ under)) [
                  | inl (fits, e) ↦ inl (
                    ((small, fits.0), omega (arith, fits.1, whole)),
                    rw (size_of_pair k v small, key_small, short, under, e) (ground (arith, whole)),
                  )
                  | inr (unfit, e) ↦ inr (
                    λ fits. unfit (fits.0.1, omega (arith, fits.1, whole)),
                    rw (size_of_pair k v small, key_small, short, under, e),
                  )
                ]
          ]
    ]

blob_of-some :
    (ps : List KeyPair) (n : ℕ) → 0 < n → blob_of ps (some n) ≡ (some (write_pairs ps), n)
blob_of-some ps n pos = rw (==_ne n 0 (λ z. absurd (omega arith)))

-- A list of key pairs becomes a record exactly if it is not empty, each key with its value has at
-- most 254 bytes and the record at most 65535. The length that is left for the caller is then the
-- record's, and the number of pairs if the list is refused.
pub txt_blob_create_cases :
    (ps : List KeyPair)
    → ((ps ≡ []) × (txt_blob_create ps ≡ (none, 0)))
      ⊎ ((0 < length ps)
          × FitsRecord 0 ps
          × (txt_blob_create ps ≡ (some (write_pairs ps), length (write_pairs ps))))
      ⊎ ((¬ FitsRecord 0 ps) × (txt_blob_create ps ≡ (none, length ps)))
unfolding txt_blob_create
txt_blob_create_cases [] = inl (refl, unfold blob_size in refl)
txt_blob_create_cases (p ∷ ps) = elim (blob_size_cases 0 (p ∷ ps) (omega arith)) [
  | inl (fits, e) ↦ inr (
      inl (
        omega arith,
        fits,
        ap (blob_of (p ∷ ps)) (e ∙ ap some (omega arith))
            ∙ blob_of-some (p ∷ ps) (length (write_pairs (p ∷ ps)))
                (omega (arith, length-write_pairs p ps)),
      ))
  | inr (unfit, e) ↦ inr (inr (unfit, rw e))
]
