-- ===== src/Session/Drain.antt =====
-- src/YMSession.c: the loops that take every connection out of a session end, and dispose of each once.
use yammer.Prelude.{
  ℕ, zero, suc, ◌+◌, ◌-◌, ◌<◌, ◌≡◌, refl, sym, ap, subst, Bool, false, List, [], ◌∷◌, ◌++◌, length,
  length-append, All, arith, Outcome, ok,
}
use yammer.Dictionary.{Item, Dictionary}
use yammer.Dictionary.Split.{IsCounted, get_random_key_held, remove_split}
use yammer.Session.{Call, drain}

-- The sum of a measure over the calls, which does not depend on their order.
abbrev pub tally : (Call → ℕ) → List Call → ℕ
tally weight [] = 0
tally weight (c ∷ cs) = weight c + tally weight cs

pub tally-append :
    (weight : Call → ℕ) (xs ys : List Call)
    → tally weight (xs ++ ys) ≡ tally weight xs + tally weight ys
tally-append weight [] ys = omega arith
tally-append weight (x ∷ xs) ys = omega (arith, tally-append weight xs ys)

-- What disposing of every item calls.
abbrev pub tally_items : (Call → ℕ) → (ℕ → List Call) → List Item → ℕ
tally_items weight disposed [] = 0
tally_items weight disposed (i ∷ is) =
    tally weight (disposed i.value) + tally_items weight disposed is

tally_items-append :
    (weight : Call → ℕ) (disposed : ℕ → List Call) (xs ys : List Item)
    → tally_items weight disposed (xs ++ ys)
      ≡ tally_items weight disposed xs + tally_items weight disposed ys
tally_items-append weight disposed [] ys = omega arith
tally_items-append weight disposed (x ∷ xs) ys =
    omega (arith, tally_items-append weight disposed xs ys)

module _ (dispose : ℕ → Outcome (List Call)) (disposed : ℕ → List Call) where
  -- Every item's connection can be disposed of.
  abbrev pub CanDispose : List Item → Type 0
  CanDispose = All (λ i. dispose i.value ≡ ok (disposed i.value))

  CanDispose-split :
      (passed : List Item) (i : Item) (rest : List Item)
      → CanDispose (passed ++ i ∷ rest)
      → CanDispose (passed ++ rest) × (dispose i.value ≡ ok (disposed i.value))
  CanDispose-split [] i rest can = (can.1, can.0)
  CanDispose-split (x ∷ xs) i rest can =
      let (others, this) = CanDispose-split xs i rest can.1 in ((can.0, others), this)

  -- The loop ends with an empty dictionary, whichever connections are chosen, and has disposed of each once.
  pub drain_lem :
      (eq : ℕ → ℕ → Bool) (chosen : ℕ → ℕ) (n : ℕ) (d : Dictionary)
      → ((m : ℕ) → chosen (suc m) < suc m)
      → IsCounted d
      → d.ymtype_keys ≡ false
      → CanDispose d.items
      → d.count ≡ n
      → (calls : List Call) × (drain eq dispose chosen n d
          ≡ ok (record d { items = []; count = 0 }, calls))
        × ((weight : Call → ℕ) → tally weight calls ≡ tally_items weight disposed d.items)
  unfolding drain
  drain_lem eq chosen zero d in_range counted kind can size =
      let (no_items, same) = emptied d.items refl (omega (arith, counted)) in
      ([], ap (λ e. ok (e, [])) same, λ weight. ap (tally_items weight disposed) (sym no_items))
    where
      emptied :
          (items : List Item)
          → d.items ≡ items
          → length items ≡ 0
          → (d.items ≡ []) × (d ≡ record d { items = []; count = 0 })
      emptied [] e none_left = (e, ground arith)
      emptied (i ∷ is) e none_left = absurd (omega arith)
  drain_lem eq chosen (suc n) d in_range counted kind can size =
      let (key, picks, held) =
        get_random_key_held eq d (chosen (suc n)) counted (omega (arith, in_range n, size)) in
      let (passed, i, rest, split, removes) = remove_split eq d key counted kind held in
      let (others, this) = CanDispose-split passed i rest (subst (CanDispose) split can) in
      let d' : Dictionary = record d { items = passed ++ rest; count = d.count - 1 } in
      let counted' : d'.count ≡ length d'.items = omega (
        arith,
        counted,
        ap length split,
        length-append passed (i ∷ rest),
        length-append passed rest,
      ) in
      let (calls, ran, tallied) =
        drain_lem eq chosen n d' in_range counted' kind others (omega (arith, size)) in
      (
        disposed i.value ++ calls,
        rw (picks, removes, this, ran) refl,
        λ weight. omega (
          arith,
          tally-append weight (disposed i.value) calls,
          tallied weight,
          tally_items-append weight disposed passed rest,
          tally_items-append weight disposed passed (i ∷ rest),
          ap (tally_items weight disposed) split,
        ),
      )
