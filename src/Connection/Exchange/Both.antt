-- ===== src/Connection/Exchange/Both.antt =====
-- src/YMConnection.c: each end of a connection learns what the other one told.
use yammer.Prelude.{
  ℕ, zero, suc, ◌+◌, ◌-◌, ◌<◌, ◌≤◌, ◌≡◌, ◌⊎◌, inl, inr, refl, sym, ◌∙◌, ap, Bool, true, false, some,
  List, [], ◌∷◌, ◌++◌, All, take, drop, length, length-append, take-append, drop-append, lt→ltb,
  ==_ne, ◌||◌, Outcome, ok, ◌==◌, arith,
}
use mathlib.Core.List.{append_assoc}
use yammer.Prelude.Bytes.{to_bytes, from_bytes, length-to_bytes, from_bytes-to_bytes, Fits-32}
use yammer.Io.{IoResult, success, Source, Sink, read_full}
use yammer.Io.Full.{read_full_lem, ending, ending-fits}
use yammer.Io.Writes.{IsWritten, write_full-fits}
use yammer.Address.{af_inet, af_inet6}
use yammer.Connection.Exchange.{
  Local, Remote, ap_of, zeros, name_max, prefix_bytes, tell, over, no_prefix, c_string, addr_len,
  hear_address, hear, note, do_if_exchange,
}

-- An end whose name fits and has no NUL, and whose address has the bytes of its family.
pub record IsWellFormed (l : Local) : Type 0 where
  pub name_fits : length l.if_name < name_max
  pub name_text : All (λ b. 0 < b) l.if_name
  pub type_fits : l.if_type < 4294967296
  pub address_fits :
      ((l.address.family ≡ af_inet) × (length l.address.address ≡ 4))
      ⊎ ((l.address.family ≡ af_inet6) × (length l.address.address ≡ 16))

-- What an end writes.
abbrev pub prefix : Local → List ℕ
prefix l =
    to_bytes 4 (ap_of l.address.family)
    ++ (to_bytes 4 l.if_type ++ (l.if_name ++ zeros (name_max - length l.if_name)))

abbrev pub place : Local → List ℕ
place l = l.address.address ++ to_bytes 2 l.address.port

abbrev pub wire : Local → List ℕ
wire l = prefix l ++ place l

-- What the other end learns from it.
abbrev pub told_of : Local → Remote
told_of l = record {
  ap_type = ap_of l.address.family;
  address = place l;
  if_name = l.if_name;
  if_type = l.if_type;
}

pub length-zeros : (n : ℕ) → length (zeros n) ≡ n
unfolding zeros
length-zeros zero = refl
length-zeros (suc n) = omega (arith, length-zeros n)

length-prefix : (l : Local) → IsWellFormed l → length (prefix l) ≡ 72
length-prefix l w = omega (
  arith,
  w.name_fits,
  length-to_bytes 4 (ap_of l.address.family),
  length-to_bytes 4 l.if_type,
  length-zeros (name_max - length l.if_name),
  length-append l.if_name (zeros (name_max - length l.if_name)),
  length-append (to_bytes 4 l.if_type) (l.if_name ++ zeros (name_max - length l.if_name)),
  length-append (to_bytes 4 (ap_of l.address.family))
      (to_bytes 4 l.if_type ++ (l.if_name ++ zeros (name_max - length l.if_name))),
)

-- The whole of a buffer is read.
over_all : (bytes buffer : List ℕ) → length bytes ≡ length buffer → over bytes buffer ≡ bytes
over_all [] [] same = refl
over_all [] (b ∷ buffer) same = absurd (omega arith)
over_all (x ∷ bytes) [] same = absurd (omega arith)
over_all (x ∷ bytes) (b ∷ buffer) same = ap (◌∷◌ x) (over_all bytes buffer (omega arith))

-- A full read of bytes that are there.
read_full-there :
    (s : Source) (bytes rest : List ℕ)
    → 0 < length bytes
    → s.bytes ≡ bytes ++ rest
    → (s' : Source) × (read_full s (length bytes) ≡ ok (bytes, success, s')) × (s'.bytes ≡ rest)
read_full-there s bytes rest some_bytes coming =
    let (s', ran, left) = read_full_lem s (length bytes) some_bytes in
    let taken : take (length bytes) s.bytes ≡ bytes =
      ap (take (length bytes)) coming ∙ take-append bytes rest in
    let ends : ending s (length bytes) ≡ success =
      ending-fits s (length bytes) (omega (arith, ap length coming, length-append bytes rest)) in
    (
      s',
      ran
          ∙ ap {B = Outcome (List ℕ × IoResult × Source)}
              (λ bs. ok (bs, ending s (length bytes), s')) taken
          ∙ ap {B = Outcome (List ℕ × IoResult × Source)} (λ r. ok (bytes, r, s')) ends,
      left.bytes_left ∙ ap (drop (length bytes)) coming ∙ drop-append bytes rest,
    )

c_string_lem :
    (name : List ℕ) (n : ℕ) → All (λ b. 0 < b) name → 0 < n → c_string (name ++ zeros n) ≡ ok name
unfolding c_string zeros
c_string_lem [] zero text some_zero = absurd (omega arith)
c_string_lem [] (suc n) text some_zero = refl
c_string_lem (b ∷ bs) n text some_zero =
    rw (==_ne b 0 (λ z. absurd (omega (arith, text.0))), c_string_lem bs n text.1 some_zero) refl

ap_of_lt : (family : ℕ) → ap_of family < 4294967296
ap_of_lt family = ground arith

tell_lem :
    (k : Sink) (l : Local)
    → IsWellFormed l
    → length (wire l) ≤ k.room
    → (k' : Sink) × (tell k l ≡ ok k') × IsWritten k (wire l) k'
unfolding tell prefix_bytes
tell_lem k l w room =
    let a = l.address.address in
    let p = to_bytes 2 l.address.port in
    let sizes : length (prefix l) + length a + length p ≡ length (wire l) =
      omega (arith, length-append (prefix l) (a ++ p), length-append a p) in
    let a_some : 0 < length a = elim w.address_fits [
      | inl four ↦ omega (arith, four.1)
      | inr six ↦ omega (arith, six.1)
    ] in
    let p_size = length-to_bytes 2 l.address.port in
    let (k1, wrote1, is1) =
      write_full-fits k (prefix l) (omega (arith, length-prefix l w)) (omega (arith, sizes)) in
    let (k2, wrote2, is2) = write_full-fits k1 a a_some (omega (arith, sizes, is1.room_left)) in
    let (k3, wrote3, is3) =
      write_full-fits k2 p (omega (arith, p_size))
        (omega (arith, sizes, is1.room_left, is2.room_left)) in
    let known : (l.address.family == af_inet || (l.address.family == af_inet6)) ≡ true =
      elim w.address_fits [ inl four ↦ ground (arith, four.0) | inr six ↦ ground (arith, six.0) ] in
    (
      k3,
      rw (lt→ltb (length l.if_name) name_max w.name_fits, wrote1, known, wrote2, wrote3) refl,
      record {
        all_written =
            is3.all_written
            ∙ ap (λ b. b ++ p) (is2.all_written ∙ ap (λ b. b ++ a) is1.all_written)
            ∙ append_assoc (k.written ++ prefix l) a p
            ∙ append_assoc k.written (prefix l) (a ++ p);
        room_left = omega (arith, is1.room_left, is2.room_left, is3.room_left, sizes);
      },
    )

addr_len-place :
    (l : Local) → IsWellFormed l → addr_len (ap_of l.address.family) ≡ some (length (place l))
addr_len-place l w =
    let p_size = length-to_bytes 2 l.address.port in
    let size = length-append l.address.address (to_bytes 2 l.address.port) in
    elim w.address_fits [
      | inl (family, four) ↦
          ap (λ f. addr_len (ap_of f)) family ∙ ap some (omega (arith, size, p_size, four))
      | inr (family, sixteen) ↦
          ap (λ f. addr_len (ap_of f)) family ∙ ap some (omega (arith, size, p_size, sixteen))
    ]

take_word : (x : ℕ) (ys : List ℕ) → x < 4294967296 → from_bytes (take 4 (to_bytes 4 x ++ ys)) ≡ x
take_word x ys small =
    ap (λ n. from_bytes (take n (to_bytes 4 x ++ ys))) (sym (length-to_bytes 4 x))
    ∙ ap from_bytes (take-append (to_bytes 4 x) ys)
    ∙ from_bytes-to_bytes 4 x (Fits-32 x small)

ap_of-prefix : (l : Local) → from_bytes (take 4 (prefix l)) ≡ ap_of l.address.family
ap_of-prefix l = take_word (ap_of l.address.family) _ (ap_of_lt l.address.family)

drop_word : (x : ℕ) (ys : List ℕ) → drop 4 (to_bytes 4 x ++ ys) ≡ ys
unfolding to_bytes
drop_word x ys = refl

drop_words : (x y : ℕ) (ys : List ℕ) → drop 8 (to_bytes 4 x ++ (to_bytes 4 y ++ ys)) ≡ ys
unfolding to_bytes
drop_words x y ys = refl

length-no_prefix : length no_prefix ≡ 72
unfolding to_bytes zeros
length-no_prefix = refl

hear_lem :
    (s : Source) (l : Local) (rest : List ℕ)
    → IsWellFormed l
    → s.bytes ≡ wire l ++ rest
    → (s' : Source) × (hear s ≡ ok (true, prefix l, place l, s')) × (s'.bytes ≡ rest)
unfolding hear
hear_lem s l rest w coming =
    let size = length-prefix l w in
    let p_size : 0 < length (place l) = omega (
      arith,
      length-append l.address.address (to_bytes 2 l.address.port),
      length-to_bytes 2 l.address.port,
    ) in
    let (s1, reads1, left1) =
      read_full-there s (prefix l) (place l ++ rest) (omega (arith, size))
        (coming ∙ append_assoc (prefix l) (place l) rest) in
    let (s2, reads2, left2) = read_full-there s1 (place l) rest p_size left1 in
    let whole : over (prefix l) no_prefix ≡ prefix l =
      over_all (prefix l) no_prefix (size ∙ sym length-no_prefix) in
    let whole_place : over (place l) (zeros (length (place l))) ≡ place l =
      over_all (place l) (zeros (length (place l))) (sym (length-zeros (length (place l)))) in
    let heard : hear_address (prefix l) s1 (addr_len (from_bytes (take 4 (prefix l))))
        ≡ ok (true, prefix l, place l, s2) =
      ap (hear_address (prefix l) s1) (ap addr_len (ap_of-prefix l) ∙ addr_len-place l w)
      ∙ rw (reads2, whole_place) refl in
    (
      s2,
      rw (ap (read_full s) (sym size) ∙ reads1)
          (ap (λ p. hear_address p s1 (addr_len (from_bytes (take 4 p)))) whole ∙ heard),
      left2,
    )

note_lem : (l : Local) → IsWellFormed l → note true (prefix l) (place l) ≡ ok (some (told_of l))
note_lem l w =
    let name = l.if_name ++ zeros (name_max - length l.if_name) in
    let there : from_bytes (take 4 (prefix l)) ≡ ap_of l.address.family = ap_of-prefix l in
    let named : c_string (drop 8 (prefix l)) ≡ ok l.if_name =
      ap c_string (drop_words (ap_of l.address.family) l.if_type name)
      ∙ c_string_lem l.if_name (name_max - length l.if_name) w.name_text
          (omega (arith, w.name_fits)) in
    let typed : from_bytes (take 4 (drop 4 (prefix l))) ≡ l.if_type =
      ap (λ bs. from_bytes (take 4 bs))
        (drop_word (ap_of l.address.family) (to_bytes 4 l.if_type ++ name))
      ∙ take_word l.if_type name w.type_fits in
    rw (named, there, typed) refl

-- Two well-formed ends that have room for what they write: each of them, the server as well as the
-- client, learns the other one's name, type and address from what the other one writes, writes its
-- own, and leaves what follows to be read.
pub do_if_exchange_lem :
    (as_server : Bool) (mine theirs : Local) (s : Source) (k : Sink) (rest : List ℕ)
    → IsWellFormed mine
    → IsWellFormed theirs
    → s.bytes ≡ wire theirs ++ rest
    → length (wire mine) ≤ k.room
    → (s' : Source) × (k' : Sink) × (do_if_exchange as_server mine s k
        ≡ ok (some (told_of theirs), s', k'))
      × (s'.bytes ≡ rest)
      × IsWritten k (wire mine) k'
unfolding do_if_exchange
do_if_exchange_lem true mine theirs s k rest w w' coming room =
    let (k', tells, written) = tell_lem k mine w room in
    let (s', hears, left) = hear_lem s theirs rest w' coming in
    (s', k', rw (tells, hears, note_lem theirs w') refl, left, written)
do_if_exchange_lem false mine theirs s k rest w w' coming room =
    let (k', tells, written) = tell_lem k mine w room in
    let (s', hears, left) = hear_lem s theirs rest w' coming in
    (s', k', rw (hears, tells, note_lem theirs w') refl, left, written)
