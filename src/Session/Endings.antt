-- ===== src/Session/Endings.antt =====
-- src/YMSession.c: what the end of a connection or of all of them takes and gives back.
use yammer.Prelude.{
  ℕ, suc, ◌<◌, ◌≤◌, ◌≡◌, ◌⊎◌, refl, ◌∙◌, ap, subst, Bool, true, false, List, [], ◌∷◌, ◌++◌, All,
  arith, ok, ◌==◌, if◌then◌else◌, inl, inr, Bool-cases,
}
use yammer.Dictionary.{Item, contains}
use yammer.Session.{
  Session, Call, release, connection, interrupt, stop, connection_interrupted, interrupted, if_set,
}
use yammer.Session.Drain.{tally, tally-append, tally_items}
use yammer.Session.Interrupt.{
  is, gain, loss, held, IsSound, interrupt_lem, stop_lem, released, closed, stopped,
}
use yammer.Session.Books.{Books, IsKeyed, told}

released-told : (float : ℕ) (items : List Item) → tally_items told (released float) items ≡ 0
released-told float [] = refl
released-told float (i ∷ is') = ground (arith, released-told float is')

closed-told : (items : List Item) → tally_items told closed items ≡ 0
closed-told [] = refl
closed-told (i ∷ is') = ground (arith, closed-told is')

-- The session when every connection was taken out.
abbrev pub emptied : Session → Session
emptied s = record s {
  interrupted = true;
  default_connection = 0;
  connections = record s.connections { items = []; count = 0 };
}

emptied-IsSound : (s : Session) → IsSound s → IsSound (emptied s)
emptied-IsSound s sound = record { counted = refl; pointers = sound.pointers; live = tt }

-- What is told to the user, and the release at the end of __ym_session_connection_interrupted_proc.
abbrev pub report : Session → ℕ → List Call
report s c =
    (if c == s.default_connection then if_set s.callbacks.interrupted interrupted else [])
    ++ (release (connection c) ∷ [])

report-tally :
    (s : Session) (c k : ℕ)
    → (tally (gain k) (report s c) ≡ 0) × (tally (loss k) (report s c) ≡ is k c)
report-tally s c k = elim (Bool-cases (c == s.default_connection)) [
  | inl same ↦ elim (Bool-cases s.callbacks.interrupted) [
    | inl set ↦ ground arith
    | inr unset ↦ ground arith
  ]
  | inr differ ↦ ground arith
]

report-told : (s : Session) (c : ℕ) → tally told (report s c) ≤ 1
report-told s c = elim (Bool-cases (c == s.default_connection)) [
  | inl same ↦ elim (Bool-cases s.callbacks.interrupted) [
    | inl set ↦ ground arith
    | inr unset ↦ ground arith
  ]
  | inr differ ↦ ground arith
]

-- NULL is no connection.
held_null : (items : List Item) → All (λ (i : Item). 0 < i.value) items → held 0 items ≡ 0
held_null [] live = refl
held_null (i ∷ is') live = ground (arith, held_null is' live.1)

module _ (eq : ℕ → ℕ → Bool) (address_of : ℕ → ℕ) (chosen : ℕ → ℕ) where
  -- A second interruption changes nothing.
  pub interrupted_again :
      (s : Session) (float : ℕ)
      → s.interrupted ≡ true
      → interrupt eq chosen float s ≡ ok (false, s, [])
  unfolding interrupt
  interrupted_again s float late = ground arith

  -- The first interruption by a connection takes all connections out, and is reported if that was the default one.
  pub connection_interrupted_lem :
      (s : Session) (c : ℕ)
      → ((m : ℕ) → chosen (suc m) < suc m)
      → IsSound s
      → s.interrupted ≡ false
      → (calls : List Call) × (connection_interrupted eq address_of chosen s c
          ≡ ok (emptied s, calls ++ report s c))
        × ((k : ℕ)
            → (tally (loss k) calls ≡ (if k == c then 0 else held k s.connections.items))
              × (tally (gain k) calls ≡ 0))
        × (tally told calls ≡ 0)
  unfolding connection_interrupted contains
  connection_interrupted_lem s c in_range sound first =
      let (calls, ran, refs, tallied) = interrupt_lem eq chosen c s in_range sound first in
      (calls, rw ran refl, refs, tallied told ∙ released-told c s.connections.items)

  module _ (before : ℕ → ℕ) (in_range : (m : ℕ) → chosen (suc m) < suc m) where
    same-Books :
        (s s' : Session) (calls : List Call)
        → IsSound s
        → s ≡ s'
        → [] ≡ calls
        → Books address_of before before s s' calls
    same-Books s s' calls sound same none_made =
        subst (λ t. Books address_of before before s t calls) same
          (subst (Books address_of before before s s) none_made (record {
            sound = sound;
            keyed = λ keyed. keyed;
            balance = λ k. omega arith;
            reports = omega arith;
          }))

    pub connection_interrupted-Books :
        (s s' : Session) (c : ℕ) (calls : List Call)
        → IsSound s
        → IsKeyed address_of s
        → (0 < held c s.connections.items) ⊎ (s.interrupted ≡ true)
        → connection_interrupted eq address_of chosen s c ≡ ok (s', calls)
        → Books address_of before before s s' calls
    unfolding connection_interrupted
    connection_interrupted-Books s s' c calls sound keyed some_held ran =
        elim (Bool-cases s.interrupted) [
          | inl late ↦
              let again = interrupted_again s c late in
              let stays : connection_interrupted eq address_of chosen s c ≡ ok (s, []) =
                rw again refl in
              same-Books s s' calls sound (cc) (cc)
          | inr first ↦
              let (released_calls, ends, refs, quiet) =
                connection_interrupted_lem s c in_range sound first in
              let once : held c s.connections.items ≡ 1 = elim some_held [
                | inl holds ↦ omega (arith, keyed.once c)
                | inr late ↦ cc
              ] in
              let same : emptied s ≡ s' = cc in
              let calls_are : released_calls ++ report s c ≡ calls = cc in
              subst (λ t. Books address_of before before s t calls) same
                (subst (Books address_of before before s (emptied s)) calls_are (record {
                  sound = emptied-IsSound s sound;
                  keyed = λ k. record { at_address = tt; once = λ j. omega arith };
                  balance = λ k. ground (
                    arith,
                    refs k,
                    report-tally s c k,
                    once,
                    tally-append (gain k) released_calls (report s c),
                    tally-append (loss k) released_calls (report s c),
                  );
                  reports = omega (
                    arith,
                    report-told s c,
                    quiet,
                    ap {B = ℕ} (λ (b : Bool). if b then 1 else 0) first,
                    tally-append told released_calls (report s c),
                  );
                }))
        ]

    -- YMSessionCloseAllConnections
    pub interrupt-Books :
        (s s' : Session) (first : Bool) (calls : List Call)
        → IsSound s
        → interrupt eq chosen 0 s ≡ ok (first, s', calls)
        → Books address_of before before s s' calls
    interrupt-Books s s' first calls sound ran = elim (Bool-cases s.interrupted) [
      | inl late ↦ let again = interrupted_again s 0 late in same-Books s s' calls sound (cc) (cc)
      | inr in_time ↦
          let (released_calls, ends, refs, tallied) =
            interrupt_lem eq chosen 0 s in_range sound in_time in
          let null = held_null s.connections.items sound.live in
          let same : emptied s ≡ s' = cc in
          let calls_are : released_calls ≡ calls = cc in
          subst (λ t. Books address_of before before s t calls) same
            (subst (Books address_of before before s (emptied s)) calls_are (record {
              sound = emptied-IsSound s sound;
              keyed = λ k. record { at_address = tt; once = λ j. omega arith };
              balance = λ k. ground (arith, refs k, null);
              reports = omega (
                arith,
                tallied told,
                released-told 0 s.connections.items,
                ap {B = ℕ} (λ (b : Bool). if b then 1 else 0) in_time,
              );
            }))
    ]

    pub stop-Books :
        (s s' : Session) (calls : List Call)
        → IsSound s
        → stop eq chosen s ≡ ok (s', calls)
        → Books address_of before before s s' calls
    stop-Books s s' calls sound ran =
        let (closed_calls, ends, refs, tallied) = stop_lem eq chosen s in_range sound in
        let same : stopped s ≡ s' = cc in
        let calls_are : closed_calls ≡ calls = cc in
        subst (λ t. Books address_of before before s t calls) same
          (subst (Books address_of before before s (stopped s)) calls_are (record {
            sound = record { counted = refl; pointers = sound.pointers; live = tt };
            keyed = λ k. record { at_address = tt; once = λ j. omega arith };
            balance = λ k. ground (arith, refs k);
            reports = omega (arith, tallied told, closed-told s.connections.items);
          }))
