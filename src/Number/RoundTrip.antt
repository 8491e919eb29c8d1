-- ===== src/Number/RoundTrip.antt =====
-- src/YMNumber.c: what is read from a number that was made from an integer.
use yammer.Prelude.{
  ℕ, ◌-◌, ◌%◌, ◌<◌, ◌≡◌, ◌≢◌, true, ==_ne, leb, Bool-cases, inl, inr, ◌+◌, ok, arith, word64,
  half64, if◌then◌else◌,
}
use yammer.Number.{
  Doubles, word32, half32, negate, create_with_int32, create_with_uint32, create_with_int64,
  create_with_uint64, int32_value, uint32_value, int64_value, uint64_value,
}

above : (half x : ℕ) → leb half x ≡ true → x ≢ half → half < x
above half x h ne = ground (arith, h, ne)

negate_int32 : (x : ℕ) → half32 < x → x < word32 → negate half32 word32 x ≡ ok (word32 - x)
unfolding negate
negate_int32 x k l =
    let small : (word32 - x) % word32 ≡ word32 - x = omega arith in
    rw (==_ne x half32 (λ e. absurd (omega arith)), small)

negate_int64 : (x : ℕ) → half64 < x → x < word64 → negate half64 word64 x ≡ ok (word64 - x)
unfolding negate
negate_int64 x k l =
    let small : (word64 - x) % word64 ≡ word64 - x = omega arith in
    rw (==_ne x half64 (λ e. absurd (omega arith)), small)

module _ {D : Type 0} (c : Doubles D) where
  -- An int32_t that is not negative is read back; a negative one, but the least, comes back as its
  -- magnitude, since the pattern that is stored already has the sign when the code negates it.
  pub int32_value-create :
      (i : ℕ)
      → i < word32
      → i ≢ half32
      → int32_value c (create_with_int32 c i) ≡ ok (if leb half32 i then word32 - i else i)
  unfolding int32_value create_with_int32
  int32_value-create i h ne = elim (Bool-cases (leb half32 i)) [
    | inl negative ↦
        let least : half32 < i = above half32 i negative ne in
        let low : (i + (word64 - word32)) % word32 ≡ i = omega arith in
        rw (negative, low) (negate_int32 i least h)
    | inr positive ↦ let low : i % word32 ≡ i = omega arith in rw (positive, low)
  ]

  -- The same of an int64_t.
  pub int64_value-create :
      (i : ℕ)
      → i < word64
      → i ≢ half64
      → int64_value c (create_with_int64 c i) ≡ ok (if leb half64 i then word64 - i else i)
  unfolding int64_value create_with_int64
  int64_value-create i h ne =
      let low : i % word64 ≡ i = omega arith in
      elim (Bool-cases (leb half64 i)) [
        | inl negative ↦
            let least : half64 < i = above half64 i negative ne in
            rw (negative, low) (negate_int64 i least h)
        | inr positive ↦ rw (positive, low)
      ]

  -- Unsigned numbers are read back, and an int64_t as the uint64_t with its bits.
  pub unsigned_value-create :
      (v w : ℕ)
      → v < word32
      → w < word64
      → (uint32_value c (create_with_uint32 c v) ≡ v)
        × (uint64_value c (create_with_uint64 c w) ≡ w)
        × (uint64_value c (create_with_int64 c w) ≡ w)
        × (uint32_value c (create_with_int32 c v) ≡ v)
  unfolding uint32_value uint64_value create_with_uint32 create_with_uint64 create_with_int64
      create_with_int32
  unsigned_value-create v w h k = ground arith
