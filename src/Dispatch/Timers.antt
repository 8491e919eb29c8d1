-- ===== src/Dispatch/Timers.antt =====
-- src/YMDispatch.c: the timers stand in the order of their times as long as no two of them have one
-- time; three that are set for one time do not keep the order in which they were set.
use yammer.Prelude.{ℕ, ◌≡◌, ◌≢◌, refl, ap, sym, subst, inl, inr, List, [], ◌∷◌, ◌++◌, All, ok}
use yammer.Time.{Timespec, timespec_normalize}
use yammer.Time.Order.{Before, Before-trans, timespec_compare_lem, timespec_compare_refl}
use yammer.Prelude.Integers.{◌+ℤ◌}
use yammer.Dispatch.{User, Timer, moved, insert_timer, dispatch_after, sigalarm}

abbrev pub Earlier : Timer → Timer → Type 0
Earlier x y = Before x.time y.time

abbrev pub Ascending : List Timer → Type 0
Ascending [] = Unit {0}
Ascending (x ∷ xs) = All (Earlier x) xs × Ascending xs

abbrev pub OtherTime : Timer → Timer → Type 0
OtherTime t x = t.time ≢ x.time

-- Between the timers that are earlier and those that are later.
pub record IsBetween (t : Timer) (ts inserted : List Timer) : Type 0 where
  pub front : List Timer
  pub back : List Timer
  pub parts : ts ≡ front ++ back
  pub whole : inserted ≡ front ++ (t ∷ back)
  pub earlier : All (λ x. Earlier x t) front
  pub later : All (Earlier t) back

All-Earlier :
    (t x : Timer) (xs : List Timer) → Earlier t x → All (Earlier x) xs → All (Earlier t) xs
All-Earlier t x [] h hs = tt
All-Earlier t x (y ∷ ys) h (k, ks) =
    (Before-trans t.time x.time y.time h k, All-Earlier t x ys h ks)

insert_timer-IsBetween :
    (t : Timer) (ts : List Timer)
    → Ascending ts
    → All (OtherTime t) ts
    → IsBetween t ts (insert_timer t ts)
unfolding insert_timer
insert_timer-IsBetween t [] up other = record {
  front = [];
  back = [];
  parts = refl;
  whole = refl;
  earlier = tt;
  later = tt;
}
insert_timer-IsBetween t (x ∷ xs) (first, up) (differs, other) =
    elim (timespec_compare_lem t.time x.time) [
      | inl (less, before) ↦ record {
        front = [];
        back = x ∷ xs;
        parts = refl;
        whole = simp less;
        earlier = tt;
        later = (before, All-Earlier t x xs before first);
      }
      | inr (inl (equal, same)) ↦ absurd (differs same)
      | inr (inr (greater, after)) ↦
          let b = insert_timer-IsBetween t xs up other in
          record {
            front = x ∷ b.front;
            back = b.back;
            parts = ap (◌∷◌ x) b.parts;
            whole = simp greater (ap (◌∷◌ x) b.whole);
            earlier = (after, b.earlier);
            later = b.later;
          }
    ]

All-insert :
    (x t : Timer) (front back : List Timer)
    → Earlier x t
    → All (Earlier x) (front ++ back)
    → All (Earlier x) (front ++ (t ∷ back))
All-insert x t [] back h hs = (h, hs)
All-insert x t (y ∷ ys) back h (k, ks) = (k, All-insert x t ys back h ks)

Ascending-insert :
    (t : Timer) (front back : List Timer)
    → Ascending (front ++ back)
    → All (λ x. Earlier x t) front
    → All (Earlier t) back
    → Ascending (front ++ (t ∷ back))
Ascending-insert t [] back up earlier later = (later, up)
Ascending-insert t (x ∷ xs) back (first, up) (h, earlier) later =
    (All-insert x t xs back h first, Ascending-insert t xs back up earlier later)

-- Into timers in ascending order, a timer of another time than theirs goes after the earlier ones and before the
-- later ones, and the order stays.
pub insert_timer_lem :
    (t : Timer) (ts : List Timer)
    → Ascending ts
    → All (OtherTime t) ts
    → IsBetween t ts (insert_timer t ts) × Ascending (insert_timer t ts)
insert_timer_lem t ts up other =
    let b = insert_timer-IsBetween t ts up other in
    (
      b,
      subst Ascending (sym b.whole)
          (Ascending-insert t b.front b.back (subst Ascending b.parts up) b.earlier b.later),
    )

-- The timers that are left when some were set, for times of their own, and some alarms came.
pub data Schedule : List Timer → Type 0 where
  none_set : Schedule []
  set :
      {ts : List Timer} (t : Timer)
      → All (OtherTime t) ts
      → Schedule ts
      → Schedule (insert_timer t ts)
  alarmed :
      {ts left : List Timer} {t : Timer} → sigalarm ts ≡ ok (t, left) → Schedule ts → Schedule left

sigalarm_first : (t : Timer) (ts left : List Timer) → sigalarm ts ≡ ok (t, left) → ts ≡ t ∷ left
unfolding sigalarm
sigalarm_first t [] left ran = cc
sigalarm_first t (x ∷ xs) left ran = cc

Schedule-Ascending : {ts : List Timer} → Schedule ts → Ascending ts
Schedule-Ascending none_set = tt
Schedule-Ascending (set {ts} t other s) = (insert_timer_lem t ts (Schedule-Ascending s) other).1
Schedule-Ascending (alarmed {ts} {left} {t} ran s) =
    let (first, up) = subst Ascending (sigalarm_first t ts left ran) (Schedule-Ascending s) in up

-- However timers are set for times of their own and alarms come, an alarm takes the timer whose time is
-- before the times of all others.
pub sigalarm_earliest :
    (ts left : List Timer) (t : Timer)
    → Schedule ts
    → sigalarm ts ≡ ok (t, left)
    → All (Earlier t) left
sigalarm_earliest ts left t s ran =
    let (first, up) = subst Ascending (sigalarm_first t ts left ran) (Schedule-Ascending s) in first

-- Of three timers that are set one after another for the same time, the third comes before the second.
pub dispatch_after_same_time :
    (p q r : ℕ) (u v w : User) (now delay : Timespec)
    → (time : Timespec) × (dispatch_after r w now delay
          (dispatch_after q v now delay (dispatch_after p u now delay []))
        ≡ record { queue = p; time = time; dispatch = u }
          ∷ moved (record { queue = r; time = time; dispatch = w })
          ∷ moved (record { queue = q; time = time; dispatch = v })
          ∷ [])
unfolding dispatch_after insert_timer
dispatch_after_same_time p q r u v w now delay =
    let time =
      timespec_normalize
        (record { tv_sec = now.tv_sec +ℤ delay.tv_sec; tv_nsec = now.tv_nsec +ℤ delay.tv_nsec }) in
    (time, simp (timespec_compare_refl time))
