-- ===== src/Session/Interrupt.antt =====
-- src/YMSession.c: what an interruption and YMSessionStop do with the connections of a session.
use yammer.Prelude.{
  ℕ, suc, ◌+◌, ◌<◌, ◌≡◌, refl, ◌∙◌, Bool, true, false, List, [], ◌∷◌, All, arith, ok, ◌==◌, ==_ne,
  if◌then◌else◌,
}
use yammer.Dictionary.{Item}
use yammer.Dictionary.Split.{IsCounted}
use yammer.Session.{
  Session, Call, Object, created, retain, release, close, connection, peer, address, session,
  service, browser, interrupt, stop, release_unless, close_released,
}
use yammer.Session.Drain.{tally, tally_items, CanDispose, drain_lem}

-- The references on a connection that a call takes and gives back.
abbrev pub is : ℕ → ℕ → ℕ
is c k = if c == k then 1 else 0

abbrev pub is_connection : ℕ → Object → ℕ
is_connection c (connection k) = is c k
is_connection c (peer p) = 0
is_connection c (address a) = 0
is_connection c session = 0
is_connection c service = 0
is_connection c browser = 0

abbrev pub gain : ℕ → Call → ℕ
gain c (created o) = is_connection c o
gain c (retain o) = is_connection c o
gain c call = 0

abbrev pub loss : ℕ → Call → ℕ
loss c (release o) = is_connection c o
loss c call = 0

abbrev pub closing : ℕ → Call → ℕ
closing c (close k) = is c k
closing c call = 0

-- How often a connection stands in a dictionary.
abbrev pub held : ℕ → List Item → ℕ
held c [] = 0
held c (i ∷ is') = is c i.value + held c is'

pub record IsSound (s : Session) : Type 0 where
  pub counted : IsCounted s.connections
  pub pointers : s.connections.ymtype_keys ≡ false
  pub live : All (λ (i : Item). 0 < i.value) s.connections.items

abbrev pub released : ℕ → ℕ → List Call
released float c = if c == float then [] else (release (connection c) ∷ [])

release_unless_live : (float c : ℕ) → 0 < c → release_unless float c ≡ ok (released float c)
release_unless_live float c h = rw (==_ne c 0 (λ e. absurd (omega arith))) refl

can_release :
    (float : ℕ) (items : List Item)
    → All (λ (i : Item). 0 < i.value) items
    → CanDispose (release_unless float) (released float) items
can_release float [] live = tt
can_release float (i ∷ is') live =
    (release_unless_live float i.value live.0, can_release float is' live.1)

abbrev pub closed : ℕ → List Call
closed c = close c ∷ release (connection c) ∷ []

-- The session without its connections.
abbrev pub stopped : Session → Session
stopped s = record s { connections = record s.connections { items = []; count = 0 } }

can_close : (items : List Item) → CanDispose close_released closed items
can_close [] = tt
can_close (i ∷ is') = (refl, can_close is')

released_tally :
    (float c : ℕ) (items : List Item)
    → (tally_items (loss c) (released float) items ≡ (if c == float then 0 else held c items))
      × (tally_items (gain c) (released float) items ≡ 0)
released_tally float c [] = (ground arith, refl)
released_tally float c (i ∷ is') = ground (arith, released_tally float c is')

closed_tally :
    (c : ℕ) (items : List Item)
    → (tally_items (loss c) closed items ≡ held c items)
      × (tally_items (closing c) closed items ≡ held c items)
      × (tally_items (gain c) closed items ≡ 0)
closed_tally c [] = (refl, refl, refl)
closed_tally c (i ∷ is') = ground (arith, closed_tally c is')

module _ (eq : ℕ → ℕ → Bool) where
  -- The first interruption of a session ends, whichever connections its loop chooses: no connection
  -- and no default connection is left, each connection but the one that floats is released as
  -- often as the session held it, the one that floats is not, and nothing is retained.
  pub interrupt_lem :
      (chosen : ℕ → ℕ) (float : ℕ) (s : Session)
      → ((m : ℕ) → chosen (suc m) < suc m)
      → IsSound s
      → s.interrupted ≡ false
      → (calls : List Call) × (interrupt eq chosen float s
          ≡ ok (
            true,
            record s {
              interrupted = true;
              default_connection = 0;
              connections = record s.connections { items = []; count = 0 };
            },
            calls,
          ))
        × ((c : ℕ)
            → (tally (loss c) calls ≡ (if c == float then 0 else held c s.connections.items))
              × (tally (gain c) calls ≡ 0))
        × ((weight : Call → ℕ)
            → tally weight calls ≡ tally_items weight (released float) s.connections.items)
  unfolding interrupt
  interrupt_lem chosen float s in_range sound first =
      let (calls, ran, tallied) =
        drain_lem (release_unless float) (released float) eq chosen s.connections.count
          s.connections in_range sound.counted sound.pointers
          (can_release float s.connections.items sound.live) refl in
      (
        calls,
        rw (first, ran) refl,
        λ c.
            let (losses, gains) = released_tally float c s.connections.items in
            (tallied (loss c) ∙ losses, tallied (gain c) ∙ gains),
        tallied,
      )

  -- YMSessionStop ends, whichever connections its loop chooses: it closes and releases each connection
  -- as often as the session held it, and leaves all else as it was, the default connection included,
  -- which it has released.
  pub stop_lem :
      (chosen : ℕ → ℕ) (s : Session)
      → ((m : ℕ) → chosen (suc m) < suc m)
      → IsSound s
      → (calls : List Call) × (stop eq chosen s ≡ ok (stopped s, calls))
        × ((c : ℕ)
            → (tally (closing c) calls ≡ held c s.connections.items)
              × (tally (loss c) calls ≡ held c s.connections.items)
              × (tally (gain c) calls ≡ 0))
        × ((weight : Call → ℕ) → tally weight calls ≡ tally_items weight closed s.connections.items)
  unfolding stop
  stop_lem chosen s in_range sound =
      let (calls, ran, tallied) =
        drain_lem close_released closed eq chosen s.connections.count s.connections in_range
          sound.counted sound.pointers (can_close s.connections.items) refl in
      (
        calls,
        rw ran refl,
        λ c.
            let (losses, closings, gains) = closed_tally c s.connections.items in
            (tallied (closing c) ∙ closings, tallied (loss c) ∙ losses, tallied (gain c) ∙ gains),
        tallied,
      )
