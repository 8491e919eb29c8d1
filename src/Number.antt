-- ===== src/Number.antt =====
-- src/YMNumber.c: boxed numbers. An int32_t or int64_t is its bit pattern; `D` is double, with the
-- conversions of C as parameters. A negation that overflows is undefined in C and `abort` here.
pub mod RoundTrip
use yammer.Prelude.{
  ℕ, ◌+◌, ◌-◌, ◌%◌, ◌==◌, Bool, true, false, ◌&&◌, leb, Outcome, ok, abort, ymassert, ◌>>=◌, ◌>>◌,
  not, word64, half64, if◌then◌else◌,
}

pub data NumberType : Type 0 where
  signed unsigned float : NumberType

abbrev pub word32 : ℕ
word32 = 4294967296

abbrev pub half32 : ℕ
half32 = 2147483648

-- (uint64_t)i of an int32_t.
abbrev pub extend : ℕ → ℕ
extend i = if leb half32 i then i + (word64 - word32) else i

-- `x *= -1` on a signed type whose least value is `half`, of `word` values.
unfoldable pub negate : ℕ → ℕ → ℕ → Outcome ℕ
negate half word x = do ymassert (not (x == half)); ok ((word - x) % word)

-- The conversions between double and the integer types.
pub record Doubles (D : Type 0) : Type 0 where
  pub zero_d : D
  pub of_uint64 : ℕ → D
  pub minus : D → D
  pub to_int32 : D → ℕ
  pub to_uint32 : D → ℕ
  pub to_int64 : D → ℕ
  pub to_uint64 : D → ℕ

-- A field that the code leaves unset is zero here: it is read for another type only.
pub record Number (D : Type 0) : Type 0 where
  pub type : NumberType
  pub d : D
  pub s : Bool
  pub u : ℕ

module _ {D : Type 0} (c : Doubles D) where
  unfoldable pub create_with_double : D → Number D
  create_with_double d = record { type = float; d = d; s = false; u = 0 }

  unfoldable pub create_with_int32 : ℕ → Number D
  create_with_int32 i = record { type = signed; d = c.zero_d; s = leb half32 i; u = extend i }

  unfoldable pub create_with_uint32 : ℕ → Number D
  create_with_uint32 u = record { type = unsigned; d = c.zero_d; s = false; u = u }

  unfoldable pub create_with_int64 : ℕ → Number D
  create_with_int64 i = record { type = signed; d = c.zero_d; s = leb half64 i; u = i }

  unfoldable pub create_with_uint64 : ℕ → Number D
  create_with_uint64 u = record { type = unsigned; d = c.zero_d; s = false; u = u }

  abbrev pub double_of : NumberType → D → Bool → ℕ → D
  double_of float d s u = d
  double_of unsigned d s u = c.of_uint64 u
  double_of signed d s u = if s then c.minus (c.of_uint64 u) else c.of_uint64 u

  unfoldable pub double_value : Number D → D
  double_value n = double_of n.type n.d n.s n.u

  -- What the integer types are converted to, by type.
  abbrev pub signed_value : ℕ → ℕ → (D → ℕ) → NumberType → D → Bool → ℕ → Outcome ℕ
  signed_value half word convert float d s u = ok (convert d)
  signed_value half word convert unsigned d s u = ok (u % word)
  signed_value half word convert signed d s u =
      if s then negate half word (u % word) else ok (u % word)

  abbrev pub unsigned_value : ℕ → (D → ℕ) → NumberType → D → ℕ → ℕ
  unsigned_value word convert float d u = convert d
  unsigned_value word convert unsigned d u = u % word
  unsigned_value word convert signed d u = u % word

  unfoldable pub int32_value : Number D → Outcome ℕ
  int32_value n = signed_value half32 word32 c.to_int32 n.type n.d n.s n.u

  unfoldable pub uint32_value : Number D → ℕ
  uint32_value n = unsigned_value word32 c.to_uint32 n.type n.d n.u

  unfoldable pub int64_value : Number D → Outcome ℕ
  int64_value n = signed_value half64 word64 c.to_int64 n.type n.d n.s n.u

  unfoldable pub uint64_value : Number D → ℕ
  uint64_value n = unsigned_value word64 c.to_uint64 n.type n.d n.u
