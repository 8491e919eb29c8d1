-- ===== src/Session/Client/Connects.antt =====
-- src/YMSession.c: what a connect takes and gives back.
use yammer.Prelude.{
  ℕ, ◌+◌, ◌<◌, ◌≡◌, refl, sym, ap, subst, Bool, true, false, not, List, [], ◌∷◌, ◌++◌, arith,
  Outcome, ok, ◌>>=◌, >>=-eq-ok, if◌then◌else◌, ◌||◌, inl, inr, Bool-cases,
}
use yammer.Session.{Session, Call, retain, connection, add_connection, set_callbacks, if_set}
use yammer.Session.Drain.{tally, tally-append}
use yammer.Session.Interrupt.{is, gain, loss, IsSound}
use yammer.Session.Client.{Context, connect_returned, init_returned, release_context, unless_sync}
use yammer.Session.Books.{
  IsQuiet, Books, told, through-IsQuiet, if_set-IsQuiet, add_connection-Books,
}

unless_sync-IsQuiet :
    (sc : Context) (set : Bool) (call : Call) (calls : List Call)
    → IsQuiet (call ∷ [])
    → unless_sync sc set call ≡ ok calls
    → IsQuiet calls
unless_sync-IsQuiet sc set call calls quiet ran = elim (Bool-cases sc.user_sync) [
  | inl sync ↦ let e : [] ≡ calls = ground arith in subst IsQuiet e ((λ c. (refl, refl)), refl)
  | inr async ↦ through-IsQuiet set call calls quiet (ground arith)
]

-- A context of a connect is released whole.
context_released :
    (c : ℕ) (sc : Context)
    → (tally (gain c) (release_context sc) ≡ 0)
      × (tally (loss c) (release_context sc) ≡ is c sc.connection)
      × (tally told (release_context sc) ≡ 0)
context_released c sc = (refl, omega arith, refl)

abbrev Ends : (ℕ → ℕ) → Context → (ℕ → ℕ) → Session → Session → List Call → Type 0
Ends address_of sc others = Books address_of (λ c. is c sc.connection + others c) others

-- The calls before the release of the context are quiet, and the session is as it was.
IsQuiet-Ends :
    (address_of : ℕ → ℕ) (sc : Context) (others : ℕ → ℕ) (s : Session) (calls : List Call)
    → IsSound s
    → IsQuiet calls
    → Ends address_of sc others s s (calls ++ release_context sc)
IsQuiet-Ends address_of sc others s calls sound quiet = record {
  sound = sound;
  keyed = λ keyed. keyed;
  balance = λ c. omega (
    arith,
    quiet.0 c,
    context_released c sc,
    tally-append (gain c) calls (release_context sc),
    tally-append (loss c) calls (release_context sc),
  );
  reports =
      omega (arith, quiet.1, context_released 0 sc, tally-append told calls (release_context sc));
}

pub connect_returned-Ends :
    (address_of : ℕ → ℕ) (sc : Context) (others : ℕ → ℕ) (s : Session) (okay : Bool)
    (calls : List Call)
    → IsSound s
    → connect_returned s sc okay ≡ ok (false, calls)
    → Ends address_of sc others s s calls
unfolding connect_returned
connect_returned-Ends address_of sc others s okay calls sound ran =
    elim (Bool-cases s.interrupted) [
      | inl late ↦
          let e : release_context sc ≡ calls = ground arith in
          subst (Ends address_of sc others s s) e
            (IsQuiet-Ends address_of sc others s [] sound ((λ c. (refl, refl)), refl))
      | inr in_time ↦ elim (Bool-cases okay) [
        | inl goes_on ↦ absurd (ground arith)
        | inr failed ↦
            let report =
              unless_sync sc s.callbacks.connect_failed
                (Call.connect_failed sc.peer sc.more_coming) in
            let finish : List Call → Outcome (Bool × List Call) =
              λ told_it. ok (false, told_it ++ release_context sc) in
            let reports : report >>= finish ≡ ok (false, calls) = ground arith in
            let (told_it, tells, rest) = >>=-eq-ok report finish reports in
            let e : told_it ++ release_context sc ≡ calls = cc in
            subst (Ends address_of sc others s s) e (
              IsQuiet-Ends address_of sc others s told_it sound
                (unless_sync-IsQuiet sc _ _ told_it ((λ c. (refl, refl)), refl) tells))
      ]
    ]

pub connect_returned_goes_on :
    (address_of : ℕ → ℕ) (sc : Context) (before : ℕ → ℕ) (s : Session) (okay : Bool)
    (calls : List Call)
    → IsSound s
    → connect_returned s sc okay ≡ ok (true, calls)
    → Books address_of before before s s calls
unfolding connect_returned
connect_returned_goes_on address_of sc before s okay calls sound ran =
    let e : if_set s.callbacks.initializing Call.initializing ≡ calls = ground arith in
    let quiet : IsQuiet calls =
      subst IsQuiet e
        (if_set-IsQuiet s.callbacks.initializing Call.initializing ((λ c. (refl, refl)), refl)) in
    record {
      sound = sound;
      keyed = λ keyed. keyed;
      balance = λ c. omega (arith, quiet.0 c);
      reports = omega (arith, quiet.1);
    }

module _ (eq : ℕ → ℕ → Bool) (address_of : ℕ → ℕ) where
  initialized-Ends :
      (sc : Context) (others : ℕ → ℕ) (s s' : Session) (calls quiet_calls : List Call)
      → 0 < sc.connection
      → IsSound s
      → add_connection eq address_of s sc.connection ≡ ok (s', calls)
      → IsQuiet quiet_calls
      → Ends address_of sc others s s' (calls ++ quiet_calls ++ release_context sc)
  initialized-Ends sc others s s' calls quiet_calls live sound ran quiet =
      let (sound', holds, same, keyed', calls_are) =
        add_connection-Books eq address_of s sc.connection s' calls live sound ran in
      let taken : List Call =
        retain (connection sc.connection) ∷ set_callbacks sc.connection ∷ [] in
      subst (λ cs. Ends address_of sc others s s' (cs ++ quiet_calls ++ release_context sc))
        (sym calls_are)
        (record {
          sound = sound';
          keyed = keyed';
          balance = λ c. omega (
            arith,
            holds c,
            quiet.0 c,
            context_released c sc,
            tally-append (gain c) taken quiet_calls,
            tally-append (loss c) taken quiet_calls,
            tally-append (gain c) (taken ++ quiet_calls) (release_context sc),
            tally-append (loss c) (taken ++ quiet_calls) (release_context sc),
          );
          reports = omega (
            arith,
            quiet.1,
            context_released 0 sc,
            ap {B = ℕ} (λ (b : Bool). if b then 1 else 0) same,
            tally-append told taken quiet_calls,
            tally-append told (taken ++ quiet_calls) (release_context sc),
          );
        })

  pub init_returned-Ends :
      (sc : Context) (others : ℕ → ℕ) (s s' : Session) (okay : Bool) (calls : List Call)
      → 0 < sc.connection
      → IsSound s
      → init_returned eq address_of s sc okay ≡ ok (s', calls)
      → Ends address_of sc others s s' calls
  unfolding init_returned
  init_returned-Ends sc others s s' okay calls live sound ran =
      elim (Bool-cases (s.interrupted || not okay)) [
        | inl over ↦
            let e : release_context sc ≡ calls = ground arith in
            let same : s ≡ s' = ground arith in
            subst (λ t. Ends address_of sc others s t calls) same
              (subst (Ends address_of sc others s s) e
                (IsQuiet-Ends address_of sc others s [] sound ((λ c. (refl, refl)), refl)))
        | inr goes_on ↦
            let add = add_connection eq address_of s sc.connection in
            let report = unless_sync sc s.callbacks.connected (Call.connected sc.connection) in
            let finish : Session × List Call → List Call → Outcome (Session × List Call) =
              λ r tells. ok (r.0, r.1 ++ tells ++ release_context sc) in
            let initialized : add >>= (λ r. report >>= finish r) ≡ ok (s', calls) = ground arith in
            let ((s1, taken), adds, ran1) = >>=-eq-ok add (λ r. report >>= finish r) initialized in
            let (told_it, tells, ran2) = >>=-eq-ok report (finish (s1, taken)) ran1 in
            let same : s1 ≡ s' = cc in
            let calls_are : taken ++ told_it ++ release_context sc ≡ calls = cc in
            subst (λ t. Ends address_of sc others s t calls) same
              (subst (Ends address_of sc others s s1) calls_are (
                initialized-Ends sc others s s1 taken told_it live sound adds
                  (unless_sync-IsQuiet sc _ _ told_it ((λ c. (refl, refl)), refl) tells)))
      ]
