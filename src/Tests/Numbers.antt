-- ===== src/Tests/Numbers.antt =====
-- src/YMNumber.c on concrete numbers.
use yammer.Prelude.{ℕ}
use yammer.Number.{Doubles}

-- Doubles that are whole.
abbrev whole : Doubles ℕ
whole = record {
  zero_d = 0;
  of_uint64 = λ u. u;
  minus = λ d. d;
  to_int32 = λ d. d;
  to_uint32 = λ d. d;
  to_int64 = λ d. d;
  to_uint64 = λ d. d;
}
