-- ===== src/Session/Books.antt =====
-- src/YMSession.c: each step of a session against its references on connections and its reports of an interruption.
use yammer.Prelude.{
  ℕ, ◌+◌, ◌<◌, ◌≤◌, ◌≡◌, refl, sym, ◌∙◌, ap, subst, Bool, true, false, not, none, List, [], ◌∷◌,
  ◌++◌, All, arith, ok, ymassert, >>=-eq-ok, ◌==◌, ==→eq, if◌then◌else◌, inl, inr, Bool-cases,
}
use yammer.Dictionary.{same_key, Item, Dictionary, Effect}
use yammer.Dictionary
use yammer.Dictionary.Split.{add_shape, add_fresh}
use yammer.Dictionary.Keys.{lookup_items}
use yammer.Session.{
  Session, Call, retain, connection, add_connection, interrupted, set_callbacks, through, if_set,
}
use yammer.Session.Drain.{tally, tally-append}
use yammer.Session.Interrupt.{is, gain, loss, held, IsSound}

-- A call of interruptedFunc.
abbrev pub told : Call → ℕ
told interrupted = 1
told call = 0

-- A session that was interrupted has used up its report.
abbrev pub spent : Session → ℕ
spent s = if s.interrupted then 1 else 0

-- Every connection stands at its address, and stands there once.
pub record IsKeyed (address_of : ℕ → ℕ) (s : Session) : Type 0 where
  pub at_address : All (λ (i : Item). i.key ≡ address_of i.value) s.connections.items
  pub once : (c : ℕ) → held c s.connections.items ≤ 1

-- `before` and `after` are the references that contexts of connects hold.
pub record Books (address_of : ℕ → ℕ) (before after : ℕ → ℕ) (s s' : Session) (calls : List Call)
    : Type 0 where
  pub sound : IsSound s'
  pub keyed : IsKeyed address_of s → IsKeyed address_of s'
  pub balance :
      (c : ℕ)
      → held c s.connections.items + tally (gain c) calls + before c
        ≡ held c s'.connections.items + tally (loss c) calls + after c
  pub reports : tally told calls + spent s ≤ spent s'

module _ (eq : ℕ → ℕ → Bool) (address_of : ℕ → ℕ) where
  -- Every assertion that the function makes held.
  added_shape :
      (s : Session) (c : ℕ) (s' : Session) (calls : List Call)
      → add_connection eq address_of s c ≡ ok (s', calls)
      → (d : Dictionary) × (effects : List Effect) × (n : ℕ) × (Dictionary.add eq s.connections
            (address_of c)
            c
          ≡ ok (d, effects))
        × (s' ≡ record s { connections = d; default_connection = n })
        × (calls ≡ retain (connection c) ∷ set_callbacks c ∷ [])
  unfolding add_connection
  added_shape s c s' calls ran =
      let (_, _, ran1) = >>=-eq-ok (ymassert (not (address_of c == 0))) _ ran in
      let (known, _, ran2) =
        >>=-eq-ok (Dictionary.contains eq s.connections (address_of c)) _ ran1 in
      let (_, _, ran3) = >>=-eq-ok (ymassert (not known)) _ ran2 in
      let ((d, effects), adds, ran4) =
        >>=-eq-ok (Dictionary.add eq s.connections (address_of c) c) _ ran3 in
      let n = if s.default_connection == 0 then c else s.default_connection in
      let (_, _, ran5) = >>=-eq-ok (ymassert (not (n == 0))) _ ran4 in (d, effects, n, adds, cc, cc)

  held-none :
      (c : ℕ) (items : List Item)
      → All (λ (i : Item). i.key ≡ address_of i.value) items
      → lookup_items eq false (address_of c) items ≡ none
      → held c items ≡ 0
  unfolding lookup_items same_key
  held-none c [] at_address missing = refl
  held-none c (i ∷ is') at_address missing = elim (Bool-cases (c == i.value)) [
    | inl same ↦
        let key_is : i.key ≡ address_of c =
          at_address.0 ∙ ap address_of (sym (==→eq c i.value same)) in
        absurd (ground (arith, key_is))
    | inr differ ↦ ground (arith, held-none c is' at_address.1)
  ]

  pub add_connection-Books :
      (s : Session) (c : ℕ) (s' : Session) (calls : List Call)
      → 0 < c
      → IsSound s
      → add_connection eq address_of s c ≡ ok (s', calls)
      → IsSound s'
        × ((k : ℕ) → held k s'.connections.items ≡ is k c + held k s.connections.items)
        × (s'.interrupted ≡ s.interrupted)
        × (IsKeyed address_of s → IsKeyed address_of s')
        × (calls ≡ retain (connection c) ∷ set_callbacks c ∷ [])
  add_connection-Books s c s' calls live sound ran =
      let (d, effects, n, adds, s'_is, calls_are) = added_shape s c s' calls ran in
      let d_is = add_shape eq s.connections (address_of c) c d effects adds in
      let new : Item = record { key = address_of c; value = c } in
      let d1 : Dictionary = record s.connections {
        items = new ∷ s.connections.items;
        count = s.connections.count + 1;
      } in
      let s1 : Session = record s { connections = d1; default_connection = n } in
      let same : s1 ≡ s' = cc in
      let sound1 : IsSound s1 = record {
        counted = omega (arith, sound.counted);
        pointers = sound.pointers;
        live = (live, sound.live);
      } in
      (
        subst IsSound same sound1,
        λ k.
            subst (λ t. held k t.connections.items ≡ is k c + held k s.connections.items) same refl,
        ap (λ t. t.interrupted) (sym same),
        λ keyed.
            let missing =
              held-none c s.connections.items keyed.at_address
                (add_fresh eq s.connections (address_of c) c d effects sound.pointers adds) in
            let keyed1 : IsKeyed address_of s1 = record {
              at_address = (refl, keyed.at_address);
              once = λ k. ground (arith, keyed.once k, missing);
            } in
            subst (IsKeyed address_of) same keyed1,
        calls_are,
      )

-- A user's function that is told of a connect takes and gives back nothing.
abbrev pub IsQuiet : List Call → Type 0
IsQuiet calls =
    ((c : ℕ) → (tally (gain c) calls ≡ 0) × (tally (loss c) calls ≡ 0)) × (tally told calls ≡ 0)

pub through-IsQuiet :
    (set : Bool) (call : Call) (calls : List Call)
    → IsQuiet (call ∷ [])
    → through set call ≡ ok calls
    → IsQuiet calls
through-IsQuiet true call calls quiet ran = let e : call ∷ [] ≡ calls = cc in subst IsQuiet e quiet
through-IsQuiet false call calls quiet ran = cc

pub if_set-IsQuiet : (set : Bool) (call : Call) → IsQuiet (call ∷ []) → IsQuiet (if_set set call)
if_set-IsQuiet true call quiet = quiet
if_set-IsQuiet false call quiet = ((λ c. (refl, refl)), refl)

pub append-IsQuiet : (xs ys : List Call) → IsQuiet xs → IsQuiet ys → IsQuiet (xs ++ ys)
append-IsQuiet xs ys quiet quiet' = (
  λ c.
      omega
        (arith, quiet.0 c, quiet'.0 c, tally-append (gain c) xs ys, tally-append (loss c) xs ys),
  omega (arith, quiet.1, quiet'.1, tally-append told xs ys),
)
