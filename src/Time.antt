-- ===== src/Time.antt =====
-- src/YMUtilities.c: times of the C library, their order and their normal form. The fields are numbers
-- without a bound: a time whose seconds come to the ends of time_t is outside of this.
pub mod Normal
pub mod Order
use yammer.Prelude.{ℕ, zero, suc, ◌/◌, Bool, not, if◌then◌else◌}
use yammer.Prelude.Integers.{ℤ, pos, negsuc, credit, debt, ◌+ℤ◌, ◌-ℤ◌, less}

-- ComparisonResult
pub data ComparisonResult : Type 0 where
  less_than equal_to greater_than : ComparisonResult

-- struct timespec
pub record Timespec : Type 0 where
  pub tv_sec : ℤ
  pub tv_nsec : ℤ

-- struct timeval
pub record Timeval : Type 0 where
  pub tv_sec : ℤ
  pub tv_usec : ℤ

abbrev pub compare_parts : ℤ → ℤ → ℤ → ℤ → ComparisonResult
compare_parts a b c d =
    if less a b
    then less_than
    else (if less b a
        then greater_than
        else (if less c d then less_than else (if less d c then greater_than else equal_to)))

-- YMTimevalCompare
unfoldable pub timeval_compare : Timeval → Timeval → ComparisonResult
timeval_compare a b = compare_parts a.tv_sec b.tv_sec a.tv_usec b.tv_usec

-- YMTimespecCompare
unfoldable pub timespec_compare : Timespec → Timespec → ComparisonResult
timespec_compare a b = compare_parts a.tv_sec b.tv_sec a.tv_nsec b.tv_nsec

abbrev pub nsec_per_sec : ℕ
nsec_per_sec = 1000000000

-- mytimespecsub
unfoldable pub timespec_sub : Timespec → Timespec → Timespec
timespec_sub a b =
    let sec = a.tv_sec -ℤ b.tv_sec in
    let nsec = a.tv_nsec -ℤ b.tv_nsec in
    if less nsec (pos 0)
    then record { tv_sec = sec -ℤ pos 1; tv_nsec = nsec +ℤ pos nsec_per_sec }
    else record { tv_sec = sec; tv_nsec = nsec }

-- The first loop of YMTimespecNormalize.
unfoldable pub carry_up : ℕ → Timespec → Timespec
carry_up zero ts = ts
carry_up (suc n) ts =
    let carried : Timespec = record {
      tv_sec = ts.tv_sec +ℤ pos 1;
      tv_nsec = ts.tv_nsec -ℤ pos nsec_per_sec;
    } in
    let rest = carry_up n carried in if less ts.tv_nsec (pos nsec_per_sec) then ts else rest

-- The second loop: -1000000000 is negsuc 999999999.
unfoldable pub carry_down : ℕ → Timespec → Timespec
carry_down zero ts = ts
carry_down (suc n) ts =
    let carried : Timespec = record {
      tv_sec = ts.tv_sec -ℤ pos 1;
      tv_nsec = ts.tv_nsec +ℤ pos nsec_per_sec;
    } in
    let rest = carry_down n carried in if less (negsuc 999999999) ts.tv_nsec then ts else rest

unfoldable pub borrow : Timespec → Timespec
borrow ts =
    let lent : Timespec = record {
      tv_sec = ts.tv_sec -ℤ pos 1;
      tv_nsec = pos nsec_per_sec +ℤ ts.tv_nsec;
    } in
    if less ts.tv_nsec (pos 0) then lent else ts

-- YMTimespecNormalize. A loop has no more rounds than there are seconds in tv_nsec.
unfoldable pub timespec_normalize : Timespec → Timespec
timespec_normalize ts =
    let up = carry_up (credit ts.tv_nsec / nsec_per_sec) ts in
    borrow (carry_down (debt up.tv_nsec / nsec_per_sec) up)
