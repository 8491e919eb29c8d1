-- ===== src/Prelude/Bytes.antt =====
-- Little-endian words as lists of bytes, as the structs that go over a connection hold them.
use Prim.Native.Nat.{ℕ, zero, suc, ◌+◌, ◌*◌, ◌/◌, ◌%◌, ◌<◌}
use mathlib.Core.Path.{◌≡◌, refl}
use mathlib.Core.List.{List, [], ◌∷◌}
use mathlib.Core.Bool.{Bool, true, false}
use native.Mathlib.Omega.{arith}
use yammer.Prelude.Lists.{length}
use yammer.Prelude.Tests.{if◌then◌else◌, ◌==◌}

-- The low `n` bytes of a word, lowest first.
unfoldable pub to_bytes : ℕ → ℕ → List ℕ
to_bytes zero x = []
to_bytes (suc n) x = x % 256 ∷ to_bytes n (x / 256)

unfoldable pub from_bytes : List ℕ → ℕ
from_bytes [] = 0
from_bytes (b ∷ bs) = b + 256 * from_bytes bs

-- A word that is 0 when `n` bytes are shifted out.
abbrev pub Fits : ℕ → ℕ → Type 0
Fits zero x = x ≡ 0
Fits (suc n) x = Fits n (x / 256)

pub length-to_bytes : (n x : ℕ) → length (to_bytes n x) ≡ n
unfolding to_bytes
length-to_bytes zero x = refl
length-to_bytes (suc n) x = omega (arith, length-to_bytes n (x / 256))

pub from_bytes-to_bytes : (n x : ℕ) → Fits n x → from_bytes (to_bytes n x) ≡ x
unfolding to_bytes from_bytes
from_bytes-to_bytes zero x h = omega arith
from_bytes-to_bytes (suc n) x h = omega (arith, from_bytes-to_bytes n (x / 256) h)

pub Fits-32 : (x : ℕ) → x < 4294967296 → Fits 4 x
Fits-32 x h = omega arith

pub Fits-64 : (x : ℕ) → x < 18446744073709551616 → Fits 8 x
Fits-64 x h = omega arith

-- memcmp of two buffers of one length.
abbrev pub same_bytes : List ℕ → List ℕ → Bool
same_bytes [] [] = true
same_bytes [] (b ∷ bs) = false
same_bytes (a ∷ as') [] = false
same_bytes (a ∷ as') (b ∷ bs) = if a == b then same_bytes as' bs else false

pub same_bytes_refl : (bs : List ℕ) → same_bytes bs bs ≡ true
same_bytes_refl [] = refl
same_bytes_refl (b ∷ bs) = ground (arith, same_bytes_refl bs)

pub same_bytes-eq : (as' bs : List ℕ) → same_bytes as' bs ≡ true → as' ≡ bs
same_bytes-eq [] [] h = refl
same_bytes-eq [] (b ∷ bs) h = cc
same_bytes-eq (a ∷ as') [] h = cc
same_bytes-eq (a ∷ as') (b ∷ bs) h = ground (arith, same_bytes-eq as' bs)
