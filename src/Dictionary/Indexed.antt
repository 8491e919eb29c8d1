-- ===== src/Dictionary/Indexed.antt =====
-- src/YMDictionary.c with keys that are numbers and no objects, as arrays and plexers use it: the
-- laws of the map with plain equality of keys.
use yammer.Prelude.{
  ap, length, zero, suc, not, ◌||◌, Bool-cases, List, [], ◌∷◌, abort, ℕ, ◌+◌, ◌-◌, ◌<◌, ◌≡◌, refl,
  sym, ◌∙◌, Bool, true, false, Option, none, some, All, ok, arith, if◌then◌else◌, ltb, ◌==◌, half64,
  uint64_max, inl, inr, ◌⊎◌,
}
use yammer.Dictionary.{
  nth_key, get_random_key, is_null, Effect, retain, release, Dictionary, Item, same_key, add,
  remove, shift, get_item, contains, retain_item, release_item, shift_items,
}
use yammer.Dictionary.Keys.{IsValid, IsEquivalence, Distinct, lookup_items}
use yammer.Dictionary.Lookup.{
  add_lem, remove_lem, get_item_lem, contains_lem, check-IsValid, remove_refused,
}
use yammer.Dictionary.Shift.{
  IsIndex, lookup-shift_up, lookup-shift_down, Distinct-shift_up, Distinct-shift_down, length-shift,
}

-- The references on a value that an addition takes and a removal gives back.
abbrev pub taken : Bool → ℕ → List Effect
taken ymtype value = if ymtype then retain value ∷ [] else []

abbrev pub given : Bool → ℕ → List Effect
given ymtype value = if ymtype then release value ∷ [] else []

retain_item_plain :
    (ks vs : Bool) (key value : ℕ) → ks ≡ false → retain_item ks vs key value ≡ taken vs value
unfolding retain_item
retain_item_plain ks vs key value p = rw p

release_item_plain :
    (ks vs : Bool) (i : Item) → ks ≡ false → release_item ks vs i ≡ given vs i.value
unfolding release_item
release_item_plain ks vs i p = rw p

holds_some : (n : ℕ) (is : List Item) → n ≡ length is → 0 < n → not (n == 0 || is_null is) ≡ true
holds_some n [] e h = absurd (omega arith)
holds_some n (i ∷ is) e h = ground arith

module _ (eq : ℕ → ℕ → Bool) where
  abbrev pub entry : Dictionary → ℕ → Option ℕ
  entry d k = lookup_items eq false k d.items

  pub record IsIndexed (d : Dictionary) : Type 0 where
    pub valid : IsValid eq d
    pub plain : d.ymtype_keys ≡ false

  pub plain-IsEquivalence : (b : Bool) → b ≡ false → IsEquivalence eq b
  unfolding same_key
  plain-IsEquivalence b p = record {
    reflexive = λ x. ground arith;
    symmetric = λ x y h. ground arith;
    transitive = λ x y z h k. ground arith;
  }

  pub entry-lookup :
      (d : Dictionary) (k : ℕ)
      → d.ymtype_keys ≡ false
      → lookup_items eq d.ymtype_keys k d.items ≡ entry d k
  entry-lookup d k p = rw p

  pub get_item_indexed :
      (d : Dictionary) (k : ℕ)
      → IsIndexed d
      → ((entry d k ≡ none) × (get_item eq d k ≡ ok 0))
        ⊎ ((v : ℕ) × (entry d k ≡ some v) × (get_item eq d k ≡ ok v))
  get_item_indexed d k x = elim (get_item_lem eq d k x.valid) [
    | inl (e, g) ↦ inl (sym (entry-lookup d k x.plain) ∙ e, g)
    | inr (v, e, g) ↦ inr (v, sym (entry-lookup d k x.plain) ∙ e, g)
  ]

  pub add-IsIndexed :
      (d : Dictionary) (key value : ℕ)
      → IsIndexed d
      → entry d key ≡ none
      → d.count < uint64_max
      → (d' : Dictionary) × (add eq d key value ≡ ok (d', taken d.ymtype_values value))
        × IsIndexed d'
        × (d'.ymtype_values ≡ d.ymtype_values)
        × (d'.count ≡ d.count + 1)
        × ((k : ℕ) → entry d' k ≡ (if k == key then some value else entry d k))
  unfolding same_key
  add-IsIndexed d key value x free room =
      let (d', e, v, (ks, vs), c, l) =
        add_lem eq d key value x.valid (entry-lookup d key x.plain ∙ free) room in
      (
        d',
        e
            ∙ ap (λ es. ok (d', es))
                (retain_item_plain d.ymtype_keys d.ymtype_values key value x.plain),
        record { valid = v; plain = ks ∙ x.plain },
        vs,
        c,
        λ k.
            ground
              (arith, l k, entry-lookup d k x.plain, entry-lookup d' k (ks ∙ x.plain), x.plain),
      )

  pub remove-IsIndexed :
      (d : Dictionary) (key : ℕ) {value : ℕ}
      → IsIndexed d
      → entry d key ≡ some value
      → (d' : Dictionary) × (remove eq d key ≡ ok (d', value, given d.ymtype_values value))
        × IsIndexed d'
        × (d'.ymtype_values ≡ d.ymtype_values)
        × (d'.count + 1 ≡ d.count)
        × ((k : ℕ) → entry d' k ≡ (if k == key then none else entry d k))
  unfolding same_key
  remove-IsIndexed d key {value} x held =
      let (d', i, e, s, w, v, (ks, vs), c, l) =
        remove_lem eq d key (plain-IsEquivalence d.ymtype_keys x.plain) x.valid
          (entry-lookup d key x.plain ∙ held) in
      (
        d',
        e
            ∙ ap (λ es. ok (d', value, es))
                (release_item_plain d.ymtype_keys d.ymtype_values i x.plain)
            ∙ ap (λ o. ok (d', value, given d.ymtype_values o)) w,
        record { valid = v; plain = ks ∙ x.plain },
        vs,
        c,
        λ k.
            ground
              (arith, l k, entry-lookup d k x.plain, entry-lookup d' k (ks ∙ x.plain), x.plain),
      )

  -- A key that is not there to remove stops the process.
  pub remove-IsIndexed_refused :
      (d : Dictionary) (key : ℕ) → IsIndexed d → entry d key ≡ none → remove eq d key ≡ abort
  remove-IsIndexed_refused d key x e = remove_refused eq d key (entry-lookup d key x.plain ∙ e)

  shift_IsIndexed :
      (d : Dictionary) (base : ℕ) (inc : Bool)
      → IsIndexed d
      → Distinct eq false (shift_items base inc d.items)
      → IsIndexed (record d { items = shift_items base inc d.items })
  shift_IsIndexed d base inc x distinct = record {
    valid = record {
      counted = x.valid.counted ∙ sym (length-shift eq base inc d.items);
      bounded = x.valid.bounded;
      distinct = rw x.plain distinct;
    };
    plain = x.plain;
  }

  pub shift_up-IsIndexed :
      (d : Dictionary) (base : ℕ)
      → IsIndexed d
      → base < half64
      → All (λ i. IsIndex i.key) d.items
      → (d' : Dictionary) × (shift d base true ≡ ok d')
        × IsIndexed d'
        × (d'.ymtype_values ≡ d.ymtype_values)
        × (d'.count ≡ d.count)
        × ((k : ℕ)
            → entry d' k
              ≡ (if ltb k base then entry d k else (if k == base then none else entry d (k - 1))))
  unfolding shift
  shift_up-IsIndexed d base x b h = (
    record d { items = shift_items base true d.items },
    rw (check-IsValid eq d x.valid),
    shift_IsIndexed d base true x
        (Distinct-shift_up eq base d.items b h (rw x.plain at x.valid.distinct)),
    refl,
    refl,
    λ k. lookup-shift_up eq base d.items k b h,
  )

  pub shift_down-IsIndexed :
      (d : Dictionary) (base : ℕ)
      → IsIndexed d
      → base < half64
      → All (λ i. IsIndex i.key) d.items
      → entry d base ≡ none
      → (d' : Dictionary) × (shift d base false ≡ ok d')
        × IsIndexed d'
        × (d'.ymtype_values ≡ d.ymtype_values)
        × (d'.count ≡ d.count)
        × ((k : ℕ) → entry d' k ≡ (if ltb k base then entry d k else entry d (k + 1)))
  unfolding shift
  shift_down-IsIndexed d base x b h free = (
    record d { items = shift_items base false d.items },
    rw (check-IsValid eq d x.valid),
    shift_IsIndexed d base false x
        (Distinct-shift_down eq base d.items b h free (rw x.plain at x.valid.distinct)),
    refl,
    refl,
    λ k. lookup-shift_down eq base d.items k b h free,
  )

  nth_key_entry :
      (is : List Item) (n : ℕ)
      → n < length is
      → (key : ℕ) × (v : ℕ) × (nth_key is n ≡ ok key) × (lookup_items eq false key is ≡ some v)
  unfolding nth_key same_key lookup_items
  nth_key_entry [] n h = elim h [ ]
  nth_key_entry (i ∷ is) zero h = (i.key, i.value, refl, ground arith)
  nth_key_entry (i ∷ is) (suc n) h =
      let (key, v, e, l) = nth_key_entry is n (omega arith) in
      elim (Bool-cases (i.key == key)) [
        | inl same ↦ (key, i.value, e, ground arith)
        | inr other ↦ (key, v, e, ground arith)
      ]

  -- A number below the count chooses a key that the dictionary holds.
  pub get_random_key_indexed :
      (d : Dictionary) (chosen : ℕ)
      → IsIndexed d
      → chosen < d.count
      → (key : ℕ) × (v : ℕ) × (get_random_key d chosen ≡ ok key) × (entry d key ≡ some v)
  unfolding get_random_key
  get_random_key_indexed d chosen x h =
      let (key, v, e, l) = nth_key_entry d.items chosen (omega (arith, x.valid.counted)) in
      (
        key,
        v,
        rw (
          check-IsValid eq d x.valid,
          holds_some d.count d.items x.valid.counted (omega arith),
          e,
        ),
        l,
      )

  pub contains_indexed :
      (d : Dictionary) (k : ℕ)
      → IsIndexed d
      → ((entry d k ≡ none) × (contains eq d k ≡ ok false))
        ⊎ ((v : ℕ) × (entry d k ≡ some v) × (contains eq d k ≡ ok true))
  contains_indexed d k x = elim (contains_lem eq d k x.valid) [
    | inl (e, g) ↦ inl (sym (entry-lookup d k x.plain) ∙ e, g)
    | inr (v, e, g) ↦ inr (v, sym (entry-lookup d k x.plain) ∙ e, g)
  ]
