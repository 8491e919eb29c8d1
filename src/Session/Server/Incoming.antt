-- ===== src/Session/Server/Incoming.antt =====
-- src/YMSession.c: what an incoming connection takes and gives back.
use yammer.Prelude.{
  ℕ, ◌<◌, ◌≡◌, refl, sym, ap, subst, Bool, false, not, none, some, Option, List, [], ◌∷◌, ◌++◌,
  arith, ok, ymassert, >>=-eq-ok, ◌==◌, if◌then◌else◌, inl, inr, Bool-cases,
}
use yammer.Session.{
  Session, Call, created, retain, connection, add_connection, set_callbacks, through, if_set,
}
use yammer.Session.Drain.{tally-append}
use yammer.Session.Interrupt.{gain, loss, IsSound}
use yammer.Session.Books.{
  IsQuiet, Books, told, through-IsQuiet, if_set-IsQuiet, append-IsQuiet, add_connection-Books,
}
use yammer.Session.Server.{init_incoming, take_incoming, release_incoming}

abbrev pub IsLive : Option ℕ → Type 0
IsLive none = Unit {0}
IsLive (some c) = 0 < c

IsQuiet-Books :
    (address_of before : ℕ → ℕ) (s : Session) (calls : List Call)
    → IsSound s
    → IsQuiet calls
    → Books address_of before before s s calls
IsQuiet-Books address_of before s calls sound quiet = record {
  sound = sound;
  keyed = λ keyed. keyed;
  balance = λ c. omega (arith, quiet.0 c);
  reports = omega (arith, quiet.1);
}

module _ (eq : ℕ → ℕ → Bool) (address_of : ℕ → ℕ) where
  taken-Books :
      (before : ℕ → ℕ) (s s' : Session) (a p c : ℕ) (calls quiet_calls : List Call)
      → 0 < c
      → IsSound s
      → add_connection eq address_of s c ≡ ok (s', calls)
      → IsQuiet quiet_calls
      → Books address_of before before s s'
          (created (connection c) ∷ (calls ++ quiet_calls ++ release_incoming a p (some c)))
  taken-Books before s s' a p c calls quiet_calls live sound ran quiet =
      let (sound', holds, same, keyed', calls_are) =
        add_connection-Books eq address_of s c s' calls live sound ran in
      let taken : List Call = retain (connection c) ∷ set_callbacks c ∷ [] in
      let rest = release_incoming a p (some c) in
      subst
        (λ cs.
          Books address_of before before s s'
            (created (connection c) ∷ (cs ++ quiet_calls ++ rest)))
        (sym calls_are)
        (record {
          sound = sound';
          keyed = keyed';
          balance = λ k. omega (
            arith,
            holds k,
            quiet.0 k,
            tally-append (gain k) taken quiet_calls,
            tally-append (loss k) taken quiet_calls,
            tally-append (gain k) (taken ++ quiet_calls) rest,
            tally-append (loss k) (taken ++ quiet_calls) rest,
          );
          reports = omega (
            arith,
            quiet.1,
            ap {B = ℕ} (λ (b : Bool). if b then 1 else 0) same,
            tally-append told taken quiet_calls,
            tally-append told (taken ++ quiet_calls) rest,
          );
        })

  taken_incoming-Books :
      (before : ℕ → ℕ) (s s' : Session) (a p : ℕ) (new : Option ℕ) (calls : List Call)
      → IsLive new
      → IsSound s
      → take_incoming eq address_of s a p new ≡ ok (s', calls)
      → Books address_of before before s s' calls
  taken_incoming-Books before s s' a p none calls live sound ran =
      let failed = if_set s.callbacks.connect_failed (Call.connect_failed p false) in
      let calls_are : failed ++ release_incoming a p none ≡ calls = cc in
      let same : s ≡ s' = cc in
      subst (λ t. Books address_of before before s t calls) same
        (subst (Books address_of before before s s) calls_are (
          IsQuiet-Books address_of before s _ sound (
            append-IsQuiet failed (release_incoming a p none)
              (if_set-IsQuiet s.callbacks.connect_failed _ ((λ c. (refl, refl)), refl))
              ((λ c. (refl, refl)), refl))))
  taken_incoming-Books before s s' a p (some c) calls live sound ran =
      let ((s1, taken), adds, ran1) = >>=-eq-ok (add_connection eq address_of s c) _ ran in
      let (_, _, ran2) = >>=-eq-ok (ymassert (not (s1.default_connection == 0))) _ ran1 in
      let (told_it, tells, ran3) =
        >>=-eq-ok (through s.callbacks.connected (Call.connected c)) _ ran2 in
      let same : s1 ≡ s' = cc in
      let calls_are : created (connection c) ∷ (taken ++ told_it ++ release_incoming a p (some c))
          ≡ calls =
        cc in
      subst (λ t. Books address_of before before s t calls) same
        (subst (Books address_of before before s s1) calls_are (
          taken-Books before s s1 a p c taken told_it live sound adds (
            through-IsQuiet s.callbacks.connected (Call.connected c) told_it
              ((λ c. (refl, refl)), refl) tells)))

  pub init_incoming-Books :
      (before : ℕ → ℕ) (s s' : Session) (a p : ℕ) (accepts : Bool) (new : Option ℕ)
      (calls : List Call)
      → IsLive new
      → IsSound s
      → init_incoming eq address_of s a p accepts new ≡ ok (s', calls)
      → Books address_of before before s s' calls
  unfolding init_incoming
  init_incoming-Books before s s' a p accepts new calls live sound ran =
      elim (Bool-cases s.callbacks.should_accept) [
        | inr unset ↦ absurd (ground arith)
        | inl set ↦ elim (Bool-cases accepts) [
          | inl accepted ↦ taken_incoming-Books before s s' a p new calls live sound (ground arith)
          | inr rejected ↦
              let calls_are : release_incoming a p none ≡ calls = ground arith in
              let same : s ≡ s' = ground arith in
              subst (λ t. Books address_of before before s t calls) same
                (subst (Books address_of before before s s) calls_are
                  (IsQuiet-Books address_of before s _ sound ((λ c. (refl, refl)), refl)))
        ]
      ]
