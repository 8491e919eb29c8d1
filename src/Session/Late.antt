-- ===== src/Session/Late.antt =====
-- src/YMSession.c: a connection that comes in after the session was interrupted.
use yammer.Prelude.{
  ℕ, ◌+◌, ◌<◌, ◌≡◌, refl, sym, ◌∙◌, ap, subst, Bool, true, false, not, some, List, [], arith, ok,
  ymassert, >>=-eq-ok, ◌==◌, ==_refl, if◌then◌else◌, inl, inr, Bool-cases,
}
use yammer.Session.{
  Session, Call, connected, add_connection, through, interrupt, connection_interrupted,
}
use yammer.Session.Interrupt.{held, IsSound}
use yammer.Session.Books.{add_connection-Books}
use yammer.Session.Endings.{interrupted_again}
use yammer.Session.Server.{init_incoming, take_incoming}

module _ (eq : ℕ → ℕ → Bool) (address_of : ℕ → ℕ) where
  taken_is_held :
      (s s' : Session) (a p c : ℕ) (calls : List Call)
      → 0 < c
      → IsSound s
      → take_incoming eq address_of s a p (some c) ≡ ok (s', calls)
      → (s'.interrupted ≡ s.interrupted)
        × (held c s'.connections.items ≡ 1 + held c s.connections.items)
  taken_is_held s s' a p c calls live sound ran =
      let ((s1, taken), adds, ran1) = >>=-eq-ok (add_connection eq address_of s c) _ ran in
      let (_, _, ran2) = >>=-eq-ok (ymassert (not (s1.default_connection == 0))) _ ran1 in
      let (told_it, tells, ran3) = >>=-eq-ok (through s.callbacks.connected (connected c)) _ ran2 in
      let (sound', holds, same, keyed, calls_are) =
        add_connection-Books eq address_of s c s1 taken live sound adds in
      let s'_is : s1 ≡ s' = cc in
      let one : held c s1.connections.items ≡ 1 + held c s.connections.items =
        holds c
        ∙ ap (λ (b : Bool). (if b then 1 else 0) + held c s.connections.items) (==_refl c) in
      (
        ap (λ t. Session.interrupted t) (sym s'_is) ∙ same,
        subst (λ t. held c (Session.connections t).items ≡ 1 + held c s.connections.items) s'_is
            one,
      )

  -- An incoming connection that a session which was interrupted has accepted, when that returns, is held
  -- as one more, and an interruption does not give it back: neither its own nor that of the session,
  -- which YMSessionCloseAllConnections and _YMSessionFree ask for, changes the session or calls
  -- anything.
  pub interrupted_keeps_incoming :
      (s : Session) (a p c : ℕ) {s' : Session} {calls : List Call}
      → 0 < c
      → IsSound s
      → s.interrupted ≡ true
      → init_incoming eq address_of s a p true (some c) ≡ ok (s', calls)
      → (held c s'.connections.items ≡ 1 + held c s.connections.items)
        × ((chosen : ℕ → ℕ) (float : ℕ)
            → (interrupt eq chosen float s' ≡ ok (false, s', []))
              × (connection_interrupted eq address_of chosen s' c ≡ ok (s', [])))
  unfolding init_incoming connection_interrupted
  interrupted_keeps_incoming s a p c {s'} {calls} live sound late ran =
      elim (Bool-cases s.callbacks.should_accept) [
        | inr unset ↦ absurd (ground arith)
        | inl set ↦
            let (same, holds) = taken_is_held s s' a p c calls live sound (ground arith) in
            let late' : s'.interrupted ≡ true = same ∙ late in
            (
              holds,
              λ chosen float. (
                interrupted_again eq address_of chosen s' float late',
                rw (interrupted_again eq address_of chosen s' c late') refl,
              ),
            )
      ]
