-- ===== src/Dictionary/Lookup.antt =====
-- src/YMDictionary.c as a finite map: each operation against `lookup`, on every branch.
use yammer.Prelude.{
  ℕ, ◌+◌, ◌-◌, ◌<◌, ◌≡◌, ◌≢◌, refl, sym, ◌∙◌, ap, Bool, true, false, not, ◌||◌, ◌⊎◌, inl, inr,
  subst, none, some, List, [], ◌∷◌, ◌++◌, length, length-append, arith, if◌then◌else◌, Bool-cases,
  ok, abort, uint64_max, ◌==◌, ==_ne,
}
use yammer.Dictionary.{
  contains, Item, Dictionary, same_key, is_null, check_consistency, create2, retain_item, get_item,
  add, remove, unlink, release_item,
}
use yammer.Dictionary.Keys.{IsEquivalence, IsValid, Distinct, lookup, lookup_items, find_item_cases}

pub create2-IsValid : (eq : ℕ → ℕ → Bool) (ks vs : Bool) → IsValid eq (create2 ks vs)
unfolding create2
create2-IsValid eq ks vs = record { counted = refl; bounded = omega arith; distinct = tt }

pub check-IsValid : (eq : ℕ → ℕ → Bool) (d : Dictionary) → IsValid eq d → check_consistency d ≡ true
unfolding check_consistency
check-IsValid eq d v = go d.items v.counted
  where
    go :
        (is : List Item)
        → d.count ≡ length is
        → (if is_null is then d.count == 0 else not (d.count == 0)) ≡ true
    go [] e = ground arith
    go (x ∷ xs) e = ground arith

module _ (eq : ℕ → ℕ → Bool) (ymtype : Bool) where
  lookup_drop :
      (k : ℕ) (passed : List Item) (i : Item) (rest : List Item)
      → same_key eq ymtype k i.key ≡ false
      → lookup_items eq ymtype k (passed ++ i ∷ rest) ≡ lookup_items eq ymtype k (passed ++ rest)
  unfolding lookup_items
  lookup_drop k [] i rest h = rw h
  lookup_drop k (x ∷ xs) i rest h = rw (lookup_drop k xs i rest h)

  lookup_none_drop :
      (k : ℕ) (passed : List Item) (i : Item) (rest : List Item)
      → lookup_items eq ymtype k (passed ++ i ∷ rest) ≡ none
      → (lookup_items eq ymtype k (passed ++ rest) ≡ none) × (same_key eq ymtype k i.key ≡ false)
  unfolding lookup_items
  lookup_none_drop k [] i rest h = ground arith
  lookup_none_drop k (x ∷ xs) i rest h = ground (arith, lookup_none_drop k xs i rest)

  module _ (e : IsEquivalence eq ymtype) where
    lookup_same :
        (a b : ℕ) (is : List Item)
        → same_key eq ymtype a b ≡ true
        → lookup_items eq ymtype a is ≡ lookup_items eq ymtype b is
    unfolding lookup_items
    lookup_same a b [] h = refl
    lookup_same a b (x ∷ xs) h = ground (
      arith,
      lookup_same a b xs h,
      e.symmetric a b h,
      e.transitive a b x.key,
      e.transitive b a x.key,
    )

    Distinct-drop :
        (passed : List Item) (i : Item) (rest : List Item)
        → Distinct eq ymtype (passed ++ i ∷ rest)
        → Distinct eq ymtype (passed ++ rest)
          × (lookup_items eq ymtype i.key (passed ++ rest) ≡ none)
    unfolding lookup_items
    Distinct-drop [] i rest h = (h.1, h.0)
    Distinct-drop (x ∷ xs) i rest h =
        let (clear, differ) = lookup_none_drop x.key xs i rest h.0 in
        let (below, gone) = Distinct-drop xs i rest h.1 in
        ((clear, below), ground (arith, e.symmetric i.key x.key))

    lookup_removed :
        (key k : ℕ) (passed : List Item) (i : Item) (rest : List Item)
        → same_key eq ymtype key i.key ≡ true
        → lookup_items eq ymtype i.key (passed ++ rest) ≡ none
        → lookup_items eq ymtype k (passed ++ rest) ≡ (
            if same_key eq ymtype k key
            then none
            else lookup_items eq ymtype k (passed ++ i ∷ rest))
    lookup_removed key k passed i rest hit gone = elim (Bool-cases (same_key eq ymtype k key)) [
      | inl same ↦
          rw same (lookup_same k i.key (passed ++ rest) (e.transitive k key i.key same hit) ∙ gone)
      | inr differ ↦ rw differ (sym (lookup_drop k passed i rest (other differ)))
    ]
      where
        other : same_key eq ymtype k key ≡ false → same_key eq ymtype k i.key ≡ false
        other differ = ground (arith, e.symmetric key i.key hit, e.transitive k i.key key)

-- A list with an item in it has a positive length and is not NULL.
pub holds_item :
    (n : ℕ) (passed : List Item) (i : Item) (rest : List Item)
    → n ≡ length (passed ++ i ∷ rest)
    → not (n == 0 || is_null (passed ++ i ∷ rest)) ≡ true
holds_item n [] i rest h = ground arith
holds_item n (x ∷ xs) i rest h = ground arith

-- Whether keys and values are objects does not change.
abbrev pub SameKind : Dictionary → Dictionary → Type 0
SameKind d' d = (d'.ymtype_keys ≡ d.ymtype_keys) × (d'.ymtype_values ≡ d.ymtype_values)

held_null :
    (passed : List Item) (i : Item) (rest : List Item) → is_null (passed ++ i ∷ rest) ≡ false
held_null [] i rest = refl
held_null (x ∷ xs) i rest = refl

module _ (eq : ℕ → ℕ → Bool) where
  -- `get_item` of a valid dictionary reads the map, with NULL for a key that it does not hold.
  pub get_item_lem :
      (d : Dictionary) (key : ℕ)
      → IsValid eq d
      → ((lookup eq d key ≡ none) × (get_item eq d key ≡ ok 0))
        ⊎ ((v : ℕ) × (lookup eq d key ≡ some v) × (get_item eq d key ≡ ok v))
  unfolding get_item
  get_item_lem d key v = elim (find_item_cases eq d.ymtype_keys key d.items) [
    | inl missing ↦ inl (missing.1, rw (check-IsValid eq d v, missing.0))
    | inr (passed, i, rest, found) ↦ inr (i.value, found.2, rw (check-IsValid eq d v, found.1))
  ]

  -- To a valid dictionary that is not full, a key that it does not hold is added: key and value are
  -- retained as the dictionary's kind asks, the dictionary stays valid and of its kind with one item
  -- more, and every other key keeps its value.
  pub add_lem :
      (d : Dictionary) (key value : ℕ)
      → IsValid eq d
      → lookup eq d key ≡ none
      → d.count < uint64_max
      → (d' : Dictionary) × (add eq d key value
          ≡ ok (d', retain_item d.ymtype_keys d.ymtype_values key value))
        × IsValid eq d'
        × SameKind d' d
        × (d'.count ≡ d.count + 1)
        × ((k : ℕ)
            → lookup eq d' k
              ≡ (if same_key eq d.ymtype_keys k key then some value else lookup eq d k))
  unfolding add lookup_items
  add_lem d key value v free room = elim (find_item_cases eq d.ymtype_keys key d.items) [
    | inl missing ↦ (
      record d { items = record { key = key; value = value } ∷ d.items; count = d.count + 1 },
      rw (check-IsValid eq d v, missing.0, ==_ne d.count uint64_max (omega arith)),
      record {
        counted = ground (arith, v.counted);
        bounded = omega arith;
        distinct = (free, v.distinct);
      },
      (refl, refl),
      refl,
      λ k. refl,
    )
    | inr (passed, i, rest, found) ↦ absurd (ground (arith, found.2, free))
  ]

  -- Adding a key that a valid dictionary holds, or adding to a full one, stops the process.
  pub add_refused :
      (d : Dictionary) (key value : ℕ)
      → IsValid eq d
      → (lookup eq d key ≢ none) ⊎ (d.count ≡ uint64_max)
      → add eq d key value ≡ abort
  unfolding add lookup_items
  add_refused d key value v (inr full) = rw (check-IsValid eq d v) (ground arith)
  add_refused d key value v (inl held) = elim (find_item_cases eq d.ymtype_keys key d.items) [
    | inl missing ↦ absurd (held missing.1)
    | inr (passed, i, rest, found) ↦ rw (check-IsValid eq d v, found.1) (ground arith)
  ]

  pub unlink_lem :
      (d : Dictionary) (passed : List Item) (i : Item) (rest : List Item)
      → d.count ≡ length (passed ++ i ∷ rest)
      → unlink d passed (i ∷ rest)
        ≡ ok (
          record d { items = passed ++ rest; count = d.count - 1 },
          i.value,
          release_item d.ymtype_keys d.ymtype_values i,
        )
  unfolding unlink check_consistency
  unlink_lem d [] i [] h = ground arith
  unlink_lem d [] i (x ∷ xs) h = ground arith
  unlink_lem d (x ∷ xs) i rest h = ground (arith, length-append xs (i ∷ rest))

  -- A key that a valid dictionary holds is removed, if its comparison of keys is an equivalence: the
  -- value is returned, the references on the item of an equal key are given back, the dictionary
  -- stays valid and of its kind with one item less, and every other key keeps its value.
  pub remove_lem :
      (d : Dictionary) (key : ℕ) {value : ℕ}
      → IsEquivalence eq d.ymtype_keys
      → IsValid eq d
      → lookup eq d key ≡ some value
      → (d' : Dictionary) × (i : Item) × (remove eq d key
          ≡ ok (d', value, release_item d.ymtype_keys d.ymtype_values i))
        × (same_key eq d.ymtype_keys key i.key ≡ true)
        × (i.value ≡ value)
        × IsValid eq d'
        × SameKind d' d
        × (d'.count + 1 ≡ d.count)
        × ((k : ℕ)
            → lookup eq d' k ≡ (if same_key eq d.ymtype_keys k key then none else lookup eq d k))
  unfolding remove
  remove_lem d key e v held = elim (find_item_cases eq d.ymtype_keys key d.items) [
    | inl missing ↦ absurd (ground (arith, missing.1, held))
    | inr (passed, i, rest, found) ↦
        let kept : Distinct eq d.ymtype_keys (passed ++ rest)
            × (lookup_items eq d.ymtype_keys i.key (passed ++ rest) ≡ none) =
          Distinct-drop eq d.ymtype_keys e passed i rest
            (subst (Distinct eq d.ymtype_keys) found.0 v.distinct) in
        let counted : d.count ≡ length (passed ++ i ∷ rest) = v.counted ∙ ap length found.0 in
        (
          record d { items = passed ++ rest; count = d.count - 1 },
          i,
          rw
              (
                check-IsValid eq d v,
                subst (λ is. not (d.count == 0 || is_null is) ≡ true) (sym found.0)
                    (holds_item d.count passed i rest counted),
                found.1,
                unlink_lem d passed i rest counted,
              )
              (ground (arith, found.2, held)),
          found.4,
          ground (arith, found.2, held),
          record {
            counted =
                omega (arith, counted, length-append passed rest, length-append passed (i ∷ rest));
            bounded = omega (arith, v.bounded);
            distinct = kept.0;
          },
          (refl, refl),
          omega (arith, counted, length-append passed (i ∷ rest)),
          λ k.
              lookup_removed eq d.ymtype_keys e key k passed i rest found.4 kept.1
              ∙ ap
                  (λ is.
                    if same_key eq d.ymtype_keys k key
                    then none
                    else lookup_items eq d.ymtype_keys k is)
                  (sym found.0),
        )
  ]

  -- Removing a key that the map does not hold stops the process.
  pub remove_refused : (d : Dictionary) (key : ℕ) → lookup eq d key ≡ none → remove eq d key ≡ abort
  unfolding remove unlink
  remove_refused d key missing = elim (find_item_cases eq d.ymtype_keys key d.items) [
    | inl none_found ↦ rw none_found.0 (ground arith)
    | inr (passed, i, rest, found) ↦ absurd (ground (arith, found.2, missing))
  ]

  -- `contains` answers whether the map holds the key.
  pub contains_lem :
      (d : Dictionary) (key : ℕ)
      → IsValid eq d
      → ((lookup eq d key ≡ none) × (contains eq d key ≡ ok false))
        ⊎ ((v : ℕ) × (lookup eq d key ≡ some v) × (contains eq d key ≡ ok true))
  unfolding contains
  contains_lem d key v = elim (find_item_cases eq d.ymtype_keys key d.items) [
    | inl missing ↦ inl (missing.1, rw (check-IsValid eq d v, missing.0) (ground arith))
    | inr (passed, i, rest, found) ↦ inr (
      i.value,
      found.2,
      rw (
        check-IsValid eq d v,
        subst (λ is. is_null is ≡ false) (sym found.0) (held_null passed i rest),
        found.1,
      ),
    )
  ]
