-- ===== src/Time/Order.antt =====
-- src/YMUtilities.c: the comparison of times is the order of their seconds and then of their nanoseconds.
use yammer.Prelude.{◌+◌, ◌<◌, ◌≡◌, ap, ◌∙◌, sym, ◌⊎◌, inl, inr, Bool-cases, arith}
use yammer.Prelude.Integers.{ℤ, credit, debt, less, ℤ-ext}
use yammer.Time.{less_than, equal_to, greater_than, Timespec, timespec_compare}

abbrev pub Less : ℤ → ℤ → Type 0
Less x y = credit x + debt y < credit y + debt x

-- An earlier second, or an earlier nanosecond of the same second.
abbrev pub Before : Timespec → Timespec → Type 0
Before a b = Less a.tv_sec b.tv_sec ⊎ ((a.tv_sec ≡ b.tv_sec) × Less a.tv_nsec b.tv_nsec)

ℤ-cases : (x y : ℤ) → (Less x y) ⊎ ((x ≡ y) ⊎ (Less y x))
ℤ-cases x y = elim (Bool-cases (less x y)) [
  | inl lower ↦ inl (ground (arith, lower))
  | inr not_lower ↦ elim (Bool-cases (less y x)) [
    | inl higher ↦ inr (inr (ground (arith, higher)))
    | inr not_higher ↦ inr (inl (ℤ-ext x y (ground (arith, not_lower, not_higher))))
  ]
]

Timespec-ext : (a b : Timespec) → a.tv_sec ≡ b.tv_sec → a.tv_nsec ≡ b.tv_nsec → a ≡ b
Timespec-ext a b same same_nsec = cc

pub Before-trans : (a b c : Timespec) → Before a b → Before b c → Before a c
Before-trans a b c (inl h) (inl h') = inl (omega arith)
Before-trans a b c (inl h) (inr (e, h')) = inl (omega (arith, ap credit e, ap debt e))
Before-trans a b c (inr (e, h)) (inl h') = inl (omega (arith, ap credit e, ap debt e))
Before-trans a b c (inr (e, h)) (inr (e', h')) = inr (e ∙ e', omega arith)

pub timespec_compare_refl : (a : Timespec) → timespec_compare a a ≡ equal_to
unfolding timespec_compare
timespec_compare_refl a = ground arith

-- The comparison of any two times says that the first is before the second, that they are equal, or
-- that the second is before the first, and what it says holds.
pub timespec_compare_lem :
    (a b : Timespec)
    → ((timespec_compare a b ≡ less_than) × Before a b)
      ⊎ (((timespec_compare a b ≡ equal_to) × (a ≡ b))
          ⊎ ((timespec_compare a b ≡ greater_than) × Before b a))
unfolding timespec_compare
timespec_compare_lem a b = elim (ℤ-cases a.tv_sec b.tv_sec) [
  | inl earlier ↦ inl (ground (arith, earlier), inl earlier)
  | inr (inr later) ↦ inr (inr (ground (arith, later), inl later))
  | inr (inl same) ↦ elim (ℤ-cases a.tv_nsec b.tv_nsec) [
    | inl earlier ↦ inl (ground (arith, earlier, ap credit same, ap debt same), inr (same, earlier))
    | inr (inr later) ↦
        inr (inr (ground (arith, later, ap credit same, ap debt same), inr (sym same, later)))
    | inr (inl same_nsec) ↦ inr (
        inl (
          ground (arith, ap credit same, ap debt same, ap credit same_nsec, ap debt same_nsec),
          Timespec-ext a b same same_nsec,
        ))
  ]
]
