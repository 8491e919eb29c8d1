-- ===== src/Array/Refinement.antt =====
-- src/YMArray.c against lists: an array stands for the list of its values, and each operation on
-- it does what the operation on the list does.
use yammer.Prelude.{
  ℕ, ◌+◌, ◌-◌, ◌<◌, ◌≤◌, ◌≡◌, refl, sym, ◌∙◌, Bool, true, false, not, none, some, List, [], ◌∷◌,
  ◌++◌, All, ok, abort, length, length-append, get_elem?, arith, ltb_int64, half64, inl, inr, ◌⊎◌,
}
use yammer.Dictionary.{Dictionary, Effect, Item, retain, release}
use yammer.Dictionary.Indexed.{
  IsIndexed, entry, taken, given, remove-IsIndexed_refused, add-IsIndexed, remove-IsIndexed,
  shift_up-IsIndexed, shift_down-IsIndexed, get_item_indexed,
}
use yammer.Dictionary.Shift.{IsIndex, lookup_cons}
use yammer.Dictionary.Lookup.{create2-IsValid}
use yammer.Dictionary
use yammer.Dictionary.Keys.{lookup_items}
use yammer.Array.Lists.{
  insert_at, remove_at, set, get_elem?-append, get_elem?-insert_at, get_elem?-remove_at,
  get_elem?-set, length-insert_at, length-remove_at, length-set, get_elem?-past, get_elem?-some,
  get_elem?-none,
}
use yammer.Array.{Array, create, add, insert, replace, get, remove}

-- The signed comparison of two small indices is the comparison of numbers.
int64_le : (n idx : ℕ) → idx ≤ n → n < half64 → not (ltb_int64 n idx) ≡ true
int64_le n idx h b = ground arith

module _ (eq : ℕ → ℕ → Bool) where
  -- The array stands for the list, whose length fits an int64_t.
  pub record Represents (a : Array) (xs : List ℕ) : Type 0 where
    pub indexed : IsIndexed eq a.dict
    pub counted : a.count ≡ length xs
    pub whole : a.dict.count ≡ length xs
    pub bounded : length xs < half64
    pub holds : (k : ℕ) → entry eq a.dict k ≡ get_elem? xs k

  -- A new array stands for the empty list.
  pub create-Represents : (ymtypes : Bool) → Represents (create ymtypes) []
  unfolding create Dictionary.create2 lookup_items
  create-Represents ymtypes = record {
    indexed = record { valid = create2-IsValid eq false ymtypes; plain = refl };
    counted = refl;
    whole = refl;
    bounded = omega arith;
    holds = λ k. refl;
  }

  keys_IsIndex :
      (is : List Item)
      → ((k : ℕ) → half64 ≤ k + 1 → lookup_items eq false k is ≡ none)
      → All (λ i. IsIndex i.key) is
  keys_IsIndex [] h = tt
  keys_IsIndex (i ∷ is) h = (
    ground (arith, h i.key, lookup_cons eq i.key i is),
    keys_IsIndex is (λ k b. ground (arith, h k b, lookup_cons eq k i is)),
  )

  Represents-IsIndex :
      {a : Array} {xs : List ℕ} → Represents a xs → All (λ i. IsIndex i.key) a.dict.items
  Represents-IsIndex {a} {xs} r =
      keys_IsIndex a.dict.items (λ k h. r.holds k ∙ get_elem?-past xs k (omega (arith, r.bounded)))

  -- `add` appends a value, if the new length fits an int64_t, and retains it as the array asks.
  add-Represents :
      (a : Array) (value : ℕ) {xs : List ℕ}
      → Represents a xs
      → length xs + 1 < half64
      → (a' : Array) × (add eq a value ≡ ok (a', taken a.dict.ymtype_values value))
        × Represents a' (xs ++ value ∷ [])
  unfolding add
  add-Represents a value {xs} r room =
      let free = r.holds a.count ∙ get_elem?-past xs a.count (omega (arith, r.counted)) in
      let (d, e, x, vs, c, l) =
        add-IsIndexed eq a.dict a.count value r.indexed free (omega (arith, r.whole)) in
      let n : length (xs ++ value ∷ []) ≡ length xs + 1 = length-append xs (value ∷ []) in
      (
        record a { dict = d; count = a.count + 1 },
        rw e,
        record {
          indexed = x;
          counted = omega (arith, n, r.counted);
          whole = omega (arith, n, c, r.whole);
          bounded = omega (arith, n);
          holds = λ k. ground (arith, l k, r.holds k, r.counted, get_elem?-append xs value k);
        },
      )

  -- `insert` puts a value at an index up to the length and moves the rest up, if the new length fits
  -- an int64_t, and retains the value as the array asks.
  pub insert-Represents :
      (a : Array) (idx value : ℕ) {xs : List ℕ}
      → Represents a xs
      → idx ≤ length xs
      → length xs + 1 < half64
      → (a' : Array) × (insert eq a idx value ≡ ok (a', taken a.dict.ymtype_values value))
        × Represents a' (insert_at idx value xs)
  unfolding insert
  insert-Represents a idx value {xs} r h room =
      let (s, es, xs', vs, cs, ls) =
        shift_up-IsIndexed eq a.dict idx r.indexed (omega arith) (Represents-IsIndex r) in
      let (d, e, x, vd, c, l) =
        add-IsIndexed eq s idx value xs' (ground (arith, ls idx)) (omega (arith, cs, r.whole)) in
      (
        record a { dict = d; count = a.count + 1 },
        rw (
          int64_le a.count idx (omega (arith, r.counted)) (omega (arith, r.counted, r.bounded)),
          es,
          e,
          vs,
        ),
        record {
          indexed = x;
          counted = omega (arith, length-insert_at idx value xs, r.counted);
          whole = omega (arith, length-insert_at idx value xs, c, cs, r.whole);
          bounded = omega (arith, length-insert_at idx value xs);
          holds = λ k.
              ground (
                arith,
                l k,
                ls k,
                r.holds k,
                r.holds (k - 1),
                get_elem?-insert_at idx value xs k h,
              );
        },
      )

  -- `replace` overwrites the value at an index of the array; the old value is released and the new
  -- one retained as the array asks.
  replace-Represents :
      (a : Array) (idx value : ℕ) {old : ℕ} {xs : List ℕ}
      → Represents a xs
      → get_elem? xs idx ≡ some old
      → (a' : Array) × (replace eq a idx value
          ≡ ok (a', given a.dict.ymtype_values old ++ taken a.dict.ymtype_values value))
        × Represents a' (set xs idx value)
  unfolding replace
  replace-Represents a idx value {old} {xs} r held =
      let h = get_elem?-some xs idx held in
      let (s, es, xs', vs, cs, ls) =
        remove-IsIndexed eq a.dict idx r.indexed (r.holds idx ∙ held) in
      let (d, e, x, vd, c, l) =
        add-IsIndexed eq s idx value xs' (ground (arith, ls idx))
          (omega (arith, cs, r.whole, r.bounded)) in
      (
        record a { dict = d },
        rw (es, e, vs),
        record {
          indexed = x;
          counted = r.counted ∙ sym (length-set idx value xs);
          whole = omega (arith, length-set idx value xs, c, cs, r.whole);
          bounded = omega (arith, length-set idx value xs, r.bounded);
          holds = λ k. ground (arith, l k, ls k, r.holds k, get_elem?-set idx value xs k h);
        },
      )

  -- `remove` takes the value at an index of the array out, releases it as the array asks, and moves
  -- the rest down.
  pub remove-Represents :
      (a : Array) (idx : ℕ) {old : ℕ} {xs : List ℕ}
      → Represents a xs
      → get_elem? xs idx ≡ some old
      → (a' : Array) × (remove eq a idx ≡ ok (a', given a.dict.ymtype_values old))
        × Represents a' (remove_at idx xs)
  unfolding remove
  remove-Represents a idx {old} {xs} r held =
      let h = get_elem?-some xs idx held in
      let (s, es, xs', vs, cs, ls) =
        remove-IsIndexed eq a.dict idx r.indexed (r.holds idx ∙ held) in
      let (d, e, x, vd, c, l) =
        shift_down-IsIndexed eq s idx xs' (omega (arith, r.bounded))
          (keys_IsIndex s.items (λ k b.
            ground (arith, ls k, r.holds k, get_elem?-past xs k (omega (arith, r.bounded)))))
          (ground (arith, ls idx)) in
      (
        record a { dict = d; count = a.count - 1 },
        rw (es, e),
        record {
          indexed = x;
          counted = omega (arith, length-remove_at idx xs h, r.counted);
          whole = omega (arith, length-remove_at idx xs h, c, cs, r.whole);
          bounded = omega (arith, length-remove_at idx xs h, r.bounded);
          holds = λ k. ground (
            arith,
            l k,
            ls k,
            ls (k + 1),
            r.holds k,
            r.holds (k + 1),
            get_elem?-remove_at idx xs k,
          );
        },
      )

  -- `get` reads the value at an index, and NULL past the end.
  get-Represents :
      (a : Array) (idx : ℕ) {xs : List ℕ}
      → Represents a xs
      → ((v : ℕ) × (get_elem? xs idx ≡ some v) × (get eq a idx ≡ ok v))
        ⊎ ((length xs ≤ idx) × (get eq a idx ≡ ok 0))
  unfolding get
  get-Represents a idx {xs} r = elim (get_item_indexed eq a.dict idx r.indexed) [
    | inl (e, g) ↦ inr (get_elem?-none xs idx (sym (r.holds idx) ∙ e), g)
    | inr (v, e, g) ↦ inl (v, sym (r.holds idx) ∙ e, g)
  ]

  -- Outside the array there is nothing to remove or to replace: the process stops.
  remove_refused-Represents :
      (a : Array) (idx value : ℕ) {xs : List ℕ}
      → Represents a xs
      → length xs ≤ idx
      → (remove eq a idx ≡ abort) × (replace eq a idx value ≡ abort)
  unfolding remove replace
  remove_refused-Represents a idx value {xs} r h =
      let e =
        remove-IsIndexed_refused eq a.dict idx r.indexed (r.holds idx ∙ get_elem?-past xs idx h) in
      (rw e, rw e)
