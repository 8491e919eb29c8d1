-- ===== src/Session/Server/Retry.antt =====
-- src/YMSession.c: a session advertises itself once, and how its socket is closed.
use yammer.Prelude.{
  ℕ, ◌≡◌, refl, Bool, true, false, ◌&&◌, Option, none, some, [], arith, uint16_max, if◌then◌else◌,
  Bool-cases, inl, inr, ◌==◌, ◌≤◌,
}
use yammer.Session.{Session, Call, close_socket}
use yammer.Session.Drain.{tally}
use yammer.Session.Server.{
  Answers, start_advertising, stop_advertising, advertise, rewind, listen_on,
}

keeps_queue :
    (s : Session) (reserved : Option ℕ) (answers : Answers)
    → s.accept_queue ≡ true
    → (listen_on s reserved answers).1.accept_queue ≡ true
unfolding advertise rewind
keeps_queue s none answers queue = queue
keeps_queue s (some sock) answers queue = ground arith

refused :
    (s : Session) (answers : Answers)
    → s.accept_queue ≡ true
    → start_advertising s answers ≡ (false, s, [])
unfolding start_advertising
refused s answers queue = ground arith

has_queue :
    (s : Session) (answers : Answers)
    → s.service ≡ false
    → (start_advertising s answers).1.accept_queue ≡ true
unfolding start_advertising
has_queue s answers idle = elim (Bool-cases s.accept_queue) [
  | inl queue ↦ simp (idle, queue) refl
  | inr none_yet ↦
      simp (idle, none_yet)
        (keeps_queue (record s { service = false; accept_queue = true }) answers.reserved answers
          refl)
]

-- A session that has no service can be started once: after a start, whatever it returned, and after a
-- stop that follows it, every other start returns false, calls nothing and changes nothing.
pub start_advertising_again :
    (s : Session) (answers answers' : Answers) (closes stops : Bool)
    → s.service ≡ false
    → (start_advertising (start_advertising s answers).1 answers'
        ≡ (false, (start_advertising s answers).1, []))
      × (start_advertising
            (stop_advertising (start_advertising s answers).1 closes stops).1
            answers'
          ≡ (false, (stop_advertising (start_advertising s answers).1 closes stops).1, []))
unfolding stop_advertising
start_advertising_again s answers answers' closes stops idle =
    let queue = has_queue s answers idle in (refused _ answers' queue, refused _ answers' queue)

-- How often a socket is closed.
abbrev pub closings : ℕ → Call → ℕ
closings sock (close_socket k) = if sock == k then 1 else 0
closings sock call = 0

-- A start that gets a socket of at most 65535 returns true exactly if the socket listens, the service is
-- made and the observer starts, whether or not the service starts. It closes the socket twice if the
-- socket does not listen, once if the service is not made, and else leaves it open as the session's.
pub start_advertising_lem :
    (s : Session) (answers : Answers) (sock : ℕ)
    → s.service ≡ false
    → s.accept_queue ≡ false
    → answers.reserved ≡ some sock
    → sock ≤ uint16_max
    → ((start_advertising s answers).0
        ≡ (answers.listens && (answers.creates_service && answers.observes)))
      × (tally (closings sock) (start_advertising s answers).2
          ≡ (if answers.listens then (if answers.creates_service then 0 else 1) else 2))
      × ((start_advertising s answers).1.listen_socket
          ≡ (if answers.listens && answers.creates_service then some sock else none))
unfolding start_advertising advertise rewind
start_advertising_lem s answers sock idle queue reserved small =
    rw (idle, queue, reserved) (ground arith)
