-- ===== src/Time/Normal.antt =====
-- src/YMUtilities.c: the normal form of a time is the same time with 0 to 999999999 nanoseconds.
use yammer.Prelude.{
  ℕ, zero, suc, ◌+◌, ◌-◌, ◌*◌, ◌/◌, ◌<◌, ◌≤◌, ◌≡◌, refl, ap, ◌⊎◌, inl, inr, true, false, Bool-cases,
  leb, arith,
}
use yammer.Prelude.Integers.{ℤ, pos, negsuc, credit, debt, less, ◌+ℤ◌, ◌-ℤ◌, +ℤ_credit, -ℤ_credit}
use yammer.Time.{Timespec, carry_up, carry_down, borrow, timespec_normalize, nsec_per_sec}

-- Two times of one number of nanoseconds, with each debt moved to the other side.
abbrev pub SameTime : Timespec → Timespec → Type 0
SameTime a b =
    credit a.tv_sec * 1000000000 + credit a.tv_nsec + (debt b.tv_sec * 1000000000 + debt b.tv_nsec)
    ≡ credit b.tv_sec * 1000000000
      + credit b.tv_nsec
      + (debt a.tv_sec * 1000000000 + debt a.tv_nsec)

SameTime-trans : (a b c : Timespec) → SameTime a b → SameTime b c → SameTime a c
SameTime-trans a b c h h' = omega arith

-- A number has no credit or no debt.
one_side : (x : ℤ) → (credit x ≡ 0) ⊎ (debt x ≡ 0)
one_side (pos n) = inr refl
one_side (negsuc n) = inl refl

carried_up :
    (ts : Timespec)
    → SameTime (record { tv_sec = ts.tv_sec +ℤ pos 1; tv_nsec = ts.tv_nsec -ℤ pos nsec_per_sec }) ts
carried_up ts = omega (arith, +ℤ_credit ts.tv_sec (pos 1), -ℤ_credit ts.tv_nsec (pos nsec_per_sec))

carried_down :
    (ts : Timespec)
    → SameTime (record { tv_sec = ts.tv_sec -ℤ pos 1; tv_nsec = ts.tv_nsec +ℤ pos nsec_per_sec }) ts
carried_down ts =
    omega (arith, -ℤ_credit ts.tv_sec (pos 1), +ℤ_credit ts.tv_nsec (pos nsec_per_sec))

fewer_up :
    (x : ℤ) (n : ℕ)
    → less x (pos nsec_per_sec) ≡ false
    → credit x / 1000000000 ≤ suc n
    → credit (x -ℤ pos nsec_per_sec) / 1000000000 ≤ n
unfolding ◌-ℤ◌
fewer_up (pos m) n more h = ground (arith, more)
fewer_up (negsuc m) n more h = ground (arith, more)

fewer_down :
    (x : ℤ) (n : ℕ)
    → less (negsuc 999999999) x ≡ false
    → debt x / 1000000000 ≤ suc n
    → (debt (x +ℤ pos nsec_per_sec) / 1000000000 ≤ n)
      × (credit (x +ℤ pos nsec_per_sec) < 1000000000)
unfolding ◌+ℤ◌
fewer_down (pos m) n more h = (ground (arith, more), ground (arith, more))
fewer_down (negsuc m) n more h = (ground (arith, more), ground (arith, more))

carry_up_lem :
    (n : ℕ) (ts : Timespec)
    → credit ts.tv_nsec / 1000000000 ≤ n
    → SameTime (carry_up n ts) ts × (credit (carry_up n ts).tv_nsec < 1000000000)
unfolding carry_up
carry_up_lem zero ts h = (omega arith, omega arith)
carry_up_lem (suc n) ts h =
    let carried : Timespec = record {
      tv_sec = ts.tv_sec +ℤ pos 1;
      tv_nsec = ts.tv_nsec -ℤ pos nsec_per_sec;
    } in
    elim (Bool-cases (less ts.tv_nsec (pos nsec_per_sec))) [
      | inl done ↦ rw done (omega arith, ground (arith, done, one_side ts.tv_nsec))
      | inr more ↦
          let (same, below) = carry_up_lem n carried (fewer_up ts.tv_nsec n more h) in
          rw more (SameTime-trans (carry_up n carried) carried ts same (carried_up ts), below)
    ]

carry_down_lem :
    (n : ℕ) (ts : Timespec)
    → debt ts.tv_nsec / 1000000000 ≤ n
    → credit ts.tv_nsec < 1000000000
    → SameTime (carry_down n ts) ts
      × (credit (carry_down n ts).tv_nsec < 1000000000)
      × (debt (carry_down n ts).tv_nsec < 1000000000)
unfolding carry_down
carry_down_lem zero ts h below = (omega arith, omega arith, omega arith)
carry_down_lem (suc n) ts h below =
    let carried : Timespec = record {
      tv_sec = ts.tv_sec -ℤ pos 1;
      tv_nsec = ts.tv_nsec +ℤ pos nsec_per_sec;
    } in
    elim (Bool-cases (less (negsuc 999999999) ts.tv_nsec)) [
      | inl done ↦ rw done (omega arith, omega arith, ground (arith, done, one_side ts.tv_nsec))
      | inr more ↦
          let (fewer, still_below) = fewer_down ts.tv_nsec n more h in
          let (same, still, above) = carry_down_lem n carried fewer still_below in
          rw more
            (SameTime-trans (carry_down n carried) carried ts same (carried_down ts), still, above)
    ]

-- A number of nanoseconds within a second.
abbrev pub IsNormal : Timespec → Type 0
IsNormal ts = (n : ℕ) × (ts.tv_nsec ≡ pos n) × (n < 1000000000)

lent_lem :
    (x : ℤ)
    → less x (pos 0) ≡ true
    → debt x < 1000000000
    → (n : ℕ) × (pos nsec_per_sec +ℤ x ≡ pos n) × (n < 1000000000)
unfolding ◌+ℤ◌
lent_lem (pos m) negative above = absurd (ground (arith, negative))
lent_lem (negsuc m) negative above =
    let small : leb (0 + suc m) 1000000000 ≡ true = ground arith in
    (999999999 - m, rw small (ap pos (omega arith)), omega arith)

kept_lem :
    (x : ℤ)
    → less x (pos 0) ≡ false
    → credit x < 1000000000
    → (n : ℕ) × (x ≡ pos n) × (n < 1000000000)
kept_lem (pos m) not_negative below = (m, refl, below)
kept_lem (negsuc m) not_negative below = absurd (ground (arith, not_negative))

borrow_lem :
    (ts : Timespec)
    → credit ts.tv_nsec < 1000000000
    → debt ts.tv_nsec < 1000000000
    → SameTime (borrow ts) ts × IsNormal (borrow ts)
unfolding borrow
borrow_lem ts below above = elim (Bool-cases (less ts.tv_nsec (pos 0))) [
  | inl negative ↦ rw negative (
    omega (arith, -ℤ_credit ts.tv_sec (pos 1), +ℤ_credit (pos nsec_per_sec) ts.tv_nsec),
    lent_lem ts.tv_nsec negative above,
  )
  | inr not_negative ↦ rw not_negative (omega arith, kept_lem ts.tv_nsec not_negative below)
]

-- The normal form of any time is the same number of nanoseconds in all, of which 0 to 999999999 stand in
-- tv_nsec.
pub timespec_normalize_lem :
    (ts : Timespec) → SameTime (timespec_normalize ts) ts × IsNormal (timespec_normalize ts)
unfolding timespec_normalize
timespec_normalize_lem ts =
    let up = carry_up (credit ts.tv_nsec / nsec_per_sec) ts in
    let down = carry_down (debt up.tv_nsec / nsec_per_sec) up in
    let (same, below) = carry_up_lem (credit ts.tv_nsec / nsec_per_sec) ts (omega arith) in
    let (same', below', above) =
      carry_down_lem (debt up.tv_nsec / nsec_per_sec) up (omega arith) below in
    let (same'', normal) = borrow_lem down below' above in
    (SameTime-trans (borrow down) down ts same'' (SameTime-trans down up ts same' same), normal)
