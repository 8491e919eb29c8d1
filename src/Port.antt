-- ===== src/Port.antt =====
-- src/YMUtilities.c: YMPortReserve, which tries the ports from 1024 on until one can be bound. The calls
-- of the operating system are a parameter: what socket(), setsockopt() and bind() answer for a port.
pub mod Reserve
use yammer.Prelude.{
  ℕ, zero, suc, ◌+◌, ◌-◌, Bool, true, false, List, [], ◌∷◌, ◌++◌, Option, none, some, if◌then◌else◌,
  ltb,
}

-- What the calls for a port come to: socket() fails, setsockopt() or bind() fails on the descriptor
-- that socket() gave, or the descriptor is bound. A descriptor that socket() gives is not 0.
pub data Attempt : Type 0 where
  no_socket : Attempt
  not_bound bound : ℕ → Attempt

-- Calls on descriptors.
pub data Call : Type 0 where
  opens closes : ℕ → Call

-- IPPORT_RESERVED and YM_PORT_MAX
abbrev pub ipport_reserved : ℕ
ipport_reserved = 1024

abbrev pub port_max : ℕ
port_max = 65535

-- NULL_SOCKET is -1, which the test aSocket > 0 refuses as it does 0.
abbrev pub close_if_positive : ℕ → List Call
close_if_positive zero = []
close_if_positive (suc d) = closes (suc d) ∷ []

-- The port and *outSocket, or `none` for -1, after the calls in their order.
abbrev pub Reserved : Type 0
Reserved = Option (ℕ × ℕ) × List Call

abbrev pub called : List Call → Reserved → Reserved
called calls (result, rest) = (result, calls ++ rest)

-- A round: `a_socket` is what the last round left in aSocket, `next` what the further rounds come to.
abbrev pub after_attempt : Attempt → ℕ → ℕ → (ℕ → Reserved) → Reserved
after_attempt no_socket port a_socket next = called (close_if_positive a_socket) (next a_socket)
after_attempt (not_bound d) port a_socket next = called (opens d ∷ close_if_positive d) (next d)
after_attempt (bound d) port a_socket next = (some (port, d), opens d ∷ [])

module _ (attempt : ℕ → Attempt) where
  -- The loop from `port` on, with `n` ports to go.
  unfoldable pub reserve_loop : ℕ → ℕ → ℕ → Reserved
  reserve_loop zero port a_socket = (none, [])
  reserve_loop (suc n) port a_socket =
      after_attempt (attempt port) port a_socket (reserve_loop n (port + 1))

  -- YMPortReserve
  unfoldable pub port_reserve : Reserved
  port_reserve = reserve_loop (port_max - ipport_reserved) ipport_reserved 0
