-- ===== src/Dictionary/Shift.antt =====
-- src/YMDictionary.c, _YMDictionaryShift on keys that are array indices: what the shifted items
-- hold at an index, and that their keys stay distinct.
use yammer.Prelude.{
  ℕ, suc, ap, length, ◌+◌, ◌-◌, ◌<◌, ◌≡◌, ◌≢◌, refl, Bool, true, false, Option, none, some, List,
  [], ◌∷◌, All, arith, if◌then◌else◌, ltb, ◌==◌, half64,
}
use yammer.Dictionary.{Item, same_key, shift_key, shift_items}
use yammer.Dictionary.Keys.{Distinct, lookup_items}

-- Indices of an array with a positive int64_t count, and one more for the shift.
abbrev pub IsIndex : ℕ → Type 0
IsIndex k = k + 1 < half64

shift_key_up :
    (base k : ℕ)
    → IsIndex k
    → base < half64
    → shift_key base true k ≡ (if ltb k base then k else k + 1)
unfolding shift_key
shift_key_up base k h b = ground arith

shift_key_down :
    (base k : ℕ)
    → IsIndex k
    → base < half64
    → k ≢ base
    → shift_key base false k ≡ (if ltb k base then k else k - 1)
unfolding shift_key
shift_key_down base k h b ne = ground arith

module _ (eq : ℕ → ℕ → Bool) where
  abbrev pub at : ℕ → List Item → Option ℕ
  at k is = lookup_items eq false k is

  pub lookup_cons :
      (k : ℕ) (i : Item) (is : List Item)
      → at k (i ∷ is) ≡ (if i.key == k then some i.value else at k is)
  unfolding lookup_items same_key
  lookup_cons k i is = refl

  -- An item that the shift moves up leaves the index `base` free.
  pub lookup-shift_up :
      (base : ℕ) (is : List Item) (k : ℕ)
      → base < half64
      → All (λ i. IsIndex i.key) is
      → at k (shift_items base true is)
        ≡ (if ltb k base then at k is else (if k == base then none else at (k - 1) is))
  unfolding shift_items lookup_items
  lookup-shift_up base [] k b h = ground arith
  lookup-shift_up base (i ∷ is) k b h = ground (
    arith,
    lookup_cons k (record i { key = shift_key base true i.key }) (shift_items base true is),
    lookup_cons k i is,
    lookup_cons (k - 1) i is,
    shift_key_up base i.key h.0 b,
    lookup-shift_up base is k b h.1,
  )

  -- With no item at `base` the items above it move down.
  pub lookup-shift_down :
      (base : ℕ) (is : List Item) (k : ℕ)
      → base < half64
      → All (λ i. IsIndex i.key) is
      → at base is ≡ none
      → at k (shift_items base false is) ≡ (if ltb k base then at k is else at (k + 1) is)
  unfolding shift_items lookup_items
  lookup-shift_down base [] k b h e = ground arith
  lookup-shift_down base (i ∷ is) k b h e = ground (
    arith,
    e,
    lookup_cons base i is,
    lookup_cons k (record i { key = shift_key base false i.key }) (shift_items base false is),
    lookup_cons k i is,
    lookup_cons (k + 1) i is,
    shift_key_down base i.key h.0 b,
    lookup-shift_down base is k b h.1,
  )

  -- Keys that differ still differ after the shift.
  pub Distinct-shift_up :
      (base : ℕ) (is : List Item)
      → base < half64
      → All (λ i. IsIndex i.key) is
      → Distinct eq false is
      → Distinct eq false (shift_items base true is)
  unfolding shift_items
  Distinct-shift_up base [] b h d = tt
  Distinct-shift_up base (i ∷ is) b h d = (
    ground (
      arith,
      d.0,
      shift_key_up base i.key h.0 b,
      lookup-shift_up base is (shift_key base true i.key) b h.1,
    ),
    Distinct-shift_up base is b h.1 d.1,
  )

  pub Distinct-shift_down :
      (base : ℕ) (is : List Item)
      → base < half64
      → All (λ i. IsIndex i.key) is
      → at base is ≡ none
      → Distinct eq false is
      → Distinct eq false (shift_items base false is)
  unfolding shift_items
  Distinct-shift_down base [] b h e d = tt
  Distinct-shift_down base (i ∷ is) b h e d = (
    ground (
      arith,
      d.0,
      e,
      lookup_cons base i is,
      shift_key_down base i.key h.0 b,
      lookup-shift_down base is (shift_key base false i.key) b h.1,
    ),
    Distinct-shift_down base is b h.1 (ground (arith, e, lookup_cons base i is)) d.1,
  )

  pub length-shift :
      (base : ℕ) (inc : Bool) (is : List Item) → length (shift_items base inc is) ≡ length is
  unfolding shift_items
  length-shift base inc [] = refl
  length-shift base inc (i ∷ is) = ap suc (length-shift base inc is)
