-- ===== src/Array/Search.antt =====
-- src/YMArray.c: looking a value up, and emptying an array.
use yammer.Prelude.{
  ℕ, zero, suc, ◌-◌, ◌<◌, ◌≡◌, ◌≢◌, refl, sym, ◌∙◌, Bool, true, false, some, List, [], ◌∷◌, ◌++◌,
  ok, abort, length, get_elem?, arith, if◌then◌else◌, ◌==◌, ==_ne, inl, inr, ◌⊎◌, Bool-cases,
}
use yammer.Dictionary.{Dictionary, Effect, Item, first_item}
use yammer.Dictionary.Indexed.{
  IsIndexed, given, remove-IsIndexed, get_item_indexed, get_random_key_indexed,
}
use yammer.Dictionary.Shift.{lookup_cons}
use yammer.Dictionary.Keys.{Distinct, lookup_items}
use yammer.Dictionary.Lookup.{check-IsValid}
use yammer.Dictionary
use yammer.Array.Lists.{get_elem?-some, remove_at}
use yammer.Array.Refinement.{Represents, remove-Represents}
use yammer.Array.{
  Array, null_index, find_loop, find_from, find, contains, index_of, remove, remove_object, dispose,
  remove_one, remove_all_loop, remove_all,
}

find_from_cons :
    (value : ℕ) (i : Item) (is : List Item)
    → find_from value (first_item (i ∷ is))
      ≡ (if i.value == value then i.key else find_from value (first_item is))
unfolding find_loop
find_from_cons value i [] = refl
find_from_cons value i (j ∷ is) = refl

no_items : (is : List Item) → length is ≡ 0 → is ≡ []
no_items [] e = refl
no_items (i ∷ is) e = absurd (omega arith)

module _ (eq : ℕ → ℕ → Bool) where
  find_from_cases :
      (value : ℕ) (is : List Item)
      → Distinct eq false is
      → ((k : ℕ) × (find_from value (first_item is) ≡ k)
          × (lookup_items eq false k is ≡ some value))
        ⊎ ((find_from value (first_item is) ≡ null_index)
            × ((k : ℕ) → lookup_items eq false k is ≢ some value))
  unfolding lookup_items
  find_from_cases value [] d = inr (refl, λ k e. cc)
  find_from_cases value (i ∷ is) d = elim (Bool-cases (i.value == value)) [
    | inl hit ↦
        inl (i.key, rw (find_from_cons value i is, hit), ground (arith, lookup_cons eq i.key i is))
    | inr miss ↦ elim (find_from_cases value is d.1) [
      | inl (k, e, l) ↦
          inl
            (k, rw (find_from_cons value i is, miss) e, ground (arith, d.0, lookup_cons eq k i is))
      | inr (e, l) ↦ inr (
        rw (find_from_cons value i is, miss) e,
        λ k h. ground (arith, l k, h, lookup_cons eq k i is),
      )
    ]
  ]

  find_lem :
      (a : Array) (value : ℕ) {xs : List ℕ}
      → Represents eq a xs
      → ((k : ℕ) × (find a value ≡ ok k) × (get_elem? xs k ≡ some value))
        ⊎ ((find a value ≡ ok null_index) × ((k : ℕ) → get_elem? xs k ≢ some value))
  unfolding find Dictionary.enumerator_begin
  find_lem a value {xs} r =
      let plain = rw r.indexed.plain at r.indexed.valid.distinct in
      let check = check-IsValid eq a.dict r.indexed.valid in
      elim (find_from_cases value a.dict.items plain) [
        | inl (k, e, l) ↦ inl (k, rw (check, e), sym (r.holds k) ∙ l)
        | inr (e, l) ↦ inr (rw (check, e), λ k h. l k (r.holds k ∙ h))
      ]

  -- A value of the array is found at an index that holds it; for any other the answer is -1.
  index_of_lem :
      (a : Array) (value : ℕ) {xs : List ℕ}
      → Represents eq a xs
      → ((k : ℕ) × (get_elem? xs k ≡ some value)
          × (index_of a value ≡ ok k)
          × (contains a value ≡ ok true))
        ⊎ (((k : ℕ) → get_elem? xs k ≢ some value)
            × (index_of a value ≡ ok null_index)
            × (contains a value ≡ ok false))
  unfolding index_of contains
  index_of_lem a value {xs} r = elim (find_lem a value r) [
    | inl (k, e, l) ↦ inl (k, l, e, rw (e, ==_ne k null_index (below k l)))
    | inr (e, l) ↦ inr (l, e, rw e)
  ]
    where
      below : (k : ℕ) → get_elem? xs k ≡ some value → k ≢ null_index
      below k l e = absurd (omega (arith, get_elem?-some xs k l, r.bounded))

  -- `remove_object` removes the value at an index that holds it, and stops the process if none does.
  remove_object-Represents :
      (a : Array) (value : ℕ) {xs : List ℕ}
      → Represents eq a xs
      → ((k : ℕ) × (a' : Array) × (get_elem? xs k ≡ some value)
          × (remove_object eq a value ≡ ok (a', given a.dict.ymtype_values value))
          × Represents eq a' (remove_at k xs))
        ⊎ (((k : ℕ) → get_elem? xs k ≢ some value) × (remove_object eq a value ≡ abort))
  unfolding remove_object
  remove_object-Represents a value {xs} r = elim (find_lem a value r) [
    | inl (k, e, l) ↦
        let (a', removed, s) = remove-Represents eq a k r l in
        inl (k, a', l, rw (e, ==_ne k null_index (below k l)) (unfold remove in removed), s)
    | inr (e, l) ↦ inr (l, rw e)
  ]
    where
      below : (k : ℕ) → get_elem? xs k ≡ some value → k ≢ null_index
      below k l e = absurd (omega (arith, get_elem?-some xs k l, r.bounded))

  -- One round of _YMArrayRemoveAll takes one entry out, whichever is chosen.
  remove_one_lem :
      (rel fr : Bool) (chosen : ℕ) (a : Array) {n : ℕ}
      → IsIndexed eq a.dict
      → a.dict.count ≡ suc n
      → a.count ≡ suc n
      → chosen < suc n
      → (a' : Array) × (effects : List Effect) × (remove_one eq rel fr chosen a ≡ ok (a', effects))
        × IsIndexed eq a'.dict
        × (a'.dict.count ≡ n)
        × (a'.count ≡ n)
  unfolding remove_one
  remove_one_lem rel fr chosen a {n} x c k h =
      let (key, v, e, l) = get_random_key_indexed eq a.dict chosen x (omega arith) in
      let (d, f, y, vs, m, _) = remove-IsIndexed eq a.dict key x l in
      elim (get_item_indexed eq a.dict key x) [
        | inl (missing, g) ↦ absurd (ground (arith, missing, l))
        | inr (w, held, g) ↦ (
          record a { dict = d; count = a.count - 1 },
          dispose eq rel fr w ++ given a.dict.ymtype_values v,
          rw (e, g, f),
          y,
          omega (arith, m),
          omega arith,
        )
      ]

  remove_all_loop_lem :
      (rel fr : Bool) (chosen : ℕ → ℕ) (n : ℕ) (a : Array)
      → ((m : ℕ) → chosen (suc m) < suc m)
      → IsIndexed eq a.dict
      → a.dict.count ≡ n
      → a.count ≡ n
      → (a' : Array) × (effects : List Effect) × (remove_all_loop eq rel fr chosen n a
          ≡ ok (a', effects))
        × (a'.count ≡ 0)
        × (a'.dict.items ≡ [])
  unfolding remove_all_loop
  remove_all_loop_lem rel fr chosen zero a h x c k =
      (a, [], refl, k, no_items a.dict.items (sym x.valid.counted ∙ c))
  remove_all_loop_lem rel fr chosen (suc n) a h x c k =
      let (b, first, e, y, p, q) = remove_one_lem rel fr (chosen (suc n)) a x c k (h n) in
      let (a', rest, f, s, t) = remove_all_loop_lem rel fr chosen n b h y p q in
      (a', first ++ rest, rw (e, f), s, t)

  -- Whatever indices below the count are drawn, `remove_all` ends with no value left.
  pub remove_all_empties :
      (rel fr : Bool) (chosen : ℕ → ℕ) (a : Array) {xs : List ℕ}
      → Represents eq a xs
      → ((m : ℕ) → chosen (suc m) < suc m)
      → (a' : Array) × (effects : List Effect) × (remove_all eq rel fr chosen a ≡ ok (a', effects))
        × (a'.count ≡ 0)
        × (a'.dict.items ≡ [])
  unfolding remove_all
  remove_all_empties rel fr chosen a r h =
      remove_all_loop_lem rel fr chosen a.count a h r.indexed (omega (arith, r.whole, r.counted))
        refl
