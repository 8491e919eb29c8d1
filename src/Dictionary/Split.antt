-- ===== src/Dictionary/Split.antt =====
-- src/YMDictionary.c: the random choice and the removal of an item as a split of the list.
use yammer.Prelude.{
  ℕ, zero, suc, ◌+◌, ◌-◌, ◌<◌, ◌≡◌, ◌≢◌, inl, inr, refl, sym, ◌∙◌, ap, subst, Bool, true, false,
  not, ◌&&◌, ◌||◌, Outcome, ==_ne, none, List, [], ◌∷◌, ◌++◌, length, arith, ok, ◌==◌,
  if◌then◌else◌, ==_refl,
}
use yammer.Dictionary.{
  find_item, Item, Dictionary, Effect, add, check_consistency, find_item, is_null, nth_key,
  get_random_key, same_key, remove, release_item,
}
use yammer.Dictionary.Keys.{lookup_items, find_item_cases}
use yammer.Dictionary.Lookup.{unlink_lem, holds_item}

abbrev pub IsCounted : Dictionary → Type 0
IsCounted d = d.count ≡ length d.items

check-IsCounted : (d : Dictionary) → IsCounted d → check_consistency d ≡ true
unfolding check_consistency
check-IsCounted d counted = go d.items counted
  where
    go :
        (is : List Item)
        → d.count ≡ length is
        → (if is_null is then d.count == 0 else not (d.count == 0)) ≡ true
    go [] e = ground arith
    go (x ∷ xs) e = ground arith

module _ (eq : ℕ → ℕ → Bool) where
  nth_key_held :
      (items : List Item) (n : ℕ)
      → n < length items
      → (key : ℕ) × (nth_key items n ≡ ok key) × (lookup_items eq false key items ≢ none)
  unfolding nth_key lookup_items same_key
  nth_key_held [] n h = absurd (omega arith)
  nth_key_held (i ∷ is) zero h = (i.key, refl, λ e. ground (arith, ==_refl i.key))
  nth_key_held (i ∷ is) (suc n) h =
      let (key, e, held) = nth_key_held is n (omega arith) in (key, e, λ f. ground (arith, held))

  -- Some key that the dictionary holds is chosen.
  pub get_random_key_held :
      (d : Dictionary) (chosen : ℕ)
      → IsCounted d
      → chosen < d.count
      → (key : ℕ) × (get_random_key d chosen ≡ ok key) × (lookup_items eq false key d.items ≢ none)
  unfolding get_random_key
  get_random_key_held d chosen counted h =
      let (key, e, held) = nth_key_held d.items chosen (omega (arith, counted)) in
      (key, rw (check-IsCounted d counted, some_items d.items counted) e, held)
    where
      some_items :
          (items : List Item) → d.count ≡ length items → not (d.count == 0 || is_null items) ≡ true
      some_items [] e = absurd (omega (arith, h))
      some_items (i ∷ is) e = ground arith

  -- A removal takes one item out of the list.
  pub remove_split :
      (d : Dictionary) (key : ℕ)
      → IsCounted d
      → d.ymtype_keys ≡ false
      → lookup_items eq false key d.items ≢ none
      → (passed : List Item) × (i : Item) × (rest : List Item) × (d.items ≡ passed ++ i ∷ rest)
        × (remove eq d key
            ≡ ok (
              record d { items = passed ++ rest; count = d.count - 1 },
              i.value,
              release_item d.ymtype_keys d.ymtype_values i,
            ))
  unfolding remove
  remove_split d key counted kind held = elim (find_item_cases eq d.ymtype_keys key d.items) [
    | inl missing ↦ absurd (held (subst (λ b. lookup_items eq b key d.items ≡ none) kind missing.1))
    | inr (passed, i, rest, found) ↦
        let size : d.count ≡ length (passed ++ i ∷ rest) = counted ∙ ap length found.0 in
        (
          passed,
          i,
          rest,
          found.0,
          rw
              (
                check-IsCounted d counted,
                subst (λ is. not (d.count == 0 || is_null is) ≡ true) (sym found.0)
                    (holds_item d.count passed i rest size),
                found.1,
              )
              (unlink_lem eq d passed i rest size),
        )
  ]

  -- What an addition that returns has made of the dictionary.
  pub add_shape :
      (d : Dictionary) (key value : ℕ) (d' : Dictionary) (effects : List Effect)
      → add eq d key value ≡ ok (d', effects)
      → d' ≡ record d { items = record { key = key; value = value } ∷ d.items; count = d.count + 1 }
  unfolding add
  add_shape d key value d' effects ran = ground arith

  -- An addition returns only if the key was not there.
  pub add_fresh :
      (d : Dictionary) (key value : ℕ) (d' : Dictionary) (effects : List Effect)
      → d.ymtype_keys ≡ false
      → add eq d key value ≡ ok (d', effects)
      → lookup_items eq false key d.items ≡ none
  unfolding add
  add_fresh d key value d' effects kind ran = elim (find_item_cases eq d.ymtype_keys key d.items) [
    | inl missing ↦ subst (λ b. lookup_items eq b key d.items ≡ none) kind missing.1
    | inr (passed, i, rest, found) ↦ absurd (ground (arith, found.1))
  ]

  -- The removal of the key that was added last.
  pub remove_head :
      (d : Dictionary) (key value : ℕ)
      → IsCounted d
      → remove eq
          (record d { items = record { key = key; value = value } ∷ d.items; count = d.count + 1 })
          key
        ≡ ok (
          d,
          value,
          release_item d.ymtype_keys d.ymtype_values (record { key = key; value = value }),
        )
  unfolding remove find_item same_key
  remove_head d key value counted =
      let i : Item = record { key = key; value = value } in
      let d1 : Dictionary = record d { items = i ∷ d.items; count = d.count + 1 } in
      rw
        (
          check-IsCounted d1 (omega (arith, counted)),
          ==_ne (d.count + 1) 0 (λ e. absurd (omega arith)),
          hits d.ymtype_keys,
        )
        (unlink_lem eq d1 [] i d.items (omega (arith, counted)) ∙ back)
    where
      hits : (b : Bool) → ((b && eq key key) || key == key) ≡ true
      hits b = ground (arith, ==_refl key)

      back :
          ◌≡◌ {A = Outcome (Dictionary × ℕ × List Effect)}
            (ok (
              record d { items = d.items; count = d.count + 1 - 1 },
              value,
              release_item d.ymtype_keys d.ymtype_values (record { key = key; value = value }),
            ))
            (ok (
              d,
              value,
              release_item d.ymtype_keys d.ymtype_values (record { key = key; value = value }),
            ))
      back = ground arith
