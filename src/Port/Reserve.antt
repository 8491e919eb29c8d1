-- ===== src/Port/Reserve.antt =====
-- src/YMUtilities.c: which port YMPortReserve gives, and which sockets stay open.
use yammer.Prelude.{
  ℕ, zero, suc, ◌+◌, ◌-◌, ◌<◌, ◌≤◌, ◌≡◌, refl, sym, subst, ◌⊎◌, inl, inr, List, [], ◌∷◌, Option,
  none, some, arith,
}
use yammer.Port.{
  Attempt, no_socket, not_bound, bound, Call, opens, closes, Reserved, after_attempt, reserve_loop,
  port_reserve, port_max, ipport_reserved,
}

-- A port that cannot be bound.
abbrev pub IsTaken : Attempt → Type 0
IsTaken no_socket = Unit {0}
IsTaken (not_bound d) = Unit {0}
IsTaken (bound d) = ⊥

≤-cases : (m n : ℕ) → m ≤ n → (m ≡ n) ⊎ (m + 1 ≤ n)
≤-cases m n h = ground arith

later_or_IsTaken :
    (attempt : ℕ → Attempt) (from p : ℕ)
    → IsTaken (attempt from)
    → from ≤ p
    → (from + 1 ≤ p → IsTaken (attempt p))
    → IsTaken (attempt p)
later_or_IsTaken attempt from p taken h later = elim (≤-cases from p h) [
  | inl same ↦ subst (λ q. IsTaken (attempt q)) same taken
  | inr above ↦ later above
]

module _ (attempt : ℕ → Attempt) where
  -- What is reserved is the first port of a range that can be bound, with its socket, or nothing if there is
  -- none.
  abbrev pub IsFirst : ℕ → ℕ → Option (ℕ × ℕ) → Type 0
  IsFirst from to none = (p : ℕ) → from ≤ p → p < to → IsTaken (attempt p)
  IsFirst from to (some (port, d)) =
      (from ≤ port)
      × (port < to)
      × (attempt port ≡ bound d)
      × ((p : ℕ) → from ≤ p → p < port → IsTaken (attempt p))

  skip_IsTaken :
      (n from : ℕ) (result : Option (ℕ × ℕ))
      → IsTaken (attempt from)
      → IsFirst (from + 1) (from + 1 + n) result
      → IsFirst from (from + suc n) result
  skip_IsTaken n from none taken first =
      λ p h h'. later_or_IsTaken attempt from p taken h (λ k. first p k (omega arith))
  skip_IsTaken n from (some (port, d)) taken (above, below, got, others) = (
    omega arith,
    omega arith,
    got,
    (λ p h h'. later_or_IsTaken attempt from p taken h (λ k. others p k h')),
  )

  after_attempt-IsFirst :
      (n from a_socket : ℕ) (next : ℕ → Reserved) (a : Attempt)
      → attempt from ≡ a
      → ((d : ℕ) → IsFirst (from + 1) (from + 1 + n) (next d).0)
      → IsFirst from (from + suc n) (after_attempt a from a_socket next).0
  after_attempt-IsFirst n from a_socket next no_socket e later =
      skip_IsTaken n from (next a_socket).0 (subst IsTaken (sym e) tt) (later a_socket)
  after_attempt-IsFirst n from a_socket next (not_bound d) e later =
      skip_IsTaken n from (next d).0 (subst IsTaken (sym e) tt) (later d)
  after_attempt-IsFirst n from a_socket next (bound d) e later =
      (omega arith, omega arith, e, (λ p h h'. absurd (omega arith)))

  reserve_loop-IsFirst :
      (n from a_socket : ℕ) → IsFirst from (from + n) (reserve_loop attempt n from a_socket).0
  unfolding reserve_loop
  reserve_loop-IsFirst zero from a_socket = λ p h h'. absurd (omega arith)
  reserve_loop-IsFirst (suc n) from a_socket =
      after_attempt-IsFirst n from a_socket (reserve_loop attempt n (from + 1)) (attempt from) refl
        (reserve_loop-IsFirst n (from + 1))

  -- The port that is reserved is the first of 1024 to 65534 whose socket can be bound, with that socket;
  -- if there is none, none is reserved.
  pub port_reserve_lem : IsFirst ipport_reserved port_max (port_reserve attempt).0
  unfolding port_reserve
  port_reserve_lem = reserve_loop-IsFirst (port_max - ipport_reserved) ipport_reserved 0

-- A port whose socket can be opened, with a descriptor that is not 0.
abbrev pub HasSocket : Attempt → Type 0
HasSocket no_socket = ⊥
HasSocket (not_bound d) = 0 < d
HasSocket (bound d) = 0 < d

-- Each socket is closed before the next is opened, but for the one that is given out, which is the last.
abbrev pub IsTidy : List Call → Option (ℕ × ℕ) → Type 0
IsTidy [] result = result ≡ none
IsTidy (closes d ∷ rest) result = ⊥
IsTidy (opens d ∷ []) result = (port : ℕ) × (result ≡ some (port, d))
IsTidy (opens d ∷ opens e ∷ rest) result = ⊥
IsTidy (opens d ∷ closes e ∷ rest) result = (d ≡ e) × IsTidy rest result

after_attempt-IsTidy :
    (a : Attempt) (from a_socket : ℕ) (next : ℕ → Reserved)
    → HasSocket a
    → ((d : ℕ) → IsTidy (next d).1 (next d).0)
    → IsTidy (after_attempt a from a_socket next).1 (after_attempt a from a_socket next).0
after_attempt-IsTidy no_socket from a_socket next h later = absurd h
after_attempt-IsTidy (not_bound zero) from a_socket next h later = absurd (omega arith)
after_attempt-IsTidy (not_bound (suc d)) from a_socket next h later = (refl, later (suc d))
after_attempt-IsTidy (bound d) from a_socket next h later = (from, refl)

module _ (attempt : ℕ → Attempt) (has_socket : (p : ℕ) → HasSocket (attempt p)) where
  reserve_loop-IsTidy :
      (n from a_socket : ℕ)
      → IsTidy (reserve_loop attempt n from a_socket).1 (reserve_loop attempt n from a_socket).0
  unfolding reserve_loop
  reserve_loop-IsTidy zero from a_socket = refl
  reserve_loop-IsTidy (suc n) from a_socket =
      after_attempt-IsTidy (attempt from) from a_socket (reserve_loop attempt n (from + 1))
        (has_socket from) (reserve_loop-IsTidy n (from + 1))

  -- When socket() never fails, each socket that is opened is closed before the next is opened, but for the
  -- one that is given out, and that one is opened last.
  port_reserve-IsTidy : IsTidy (port_reserve attempt).1 (port_reserve attempt).0
  unfolding port_reserve
  port_reserve-IsTidy = reserve_loop-IsTidy (port_max - ipport_reserved) ipport_reserved 0
