-- ===== src/Dictionary/Keys.antt =====
-- src/YMDictionary.c: what the walk over the list finds, and which dictionaries are well formed.
use yammer.Prelude.{
  ℕ, ◌≤◌, ◌≡◌, refl, Bool, true, ◌⊎◌, inl, inr, Option, none, some, List, [], ◌∷◌, ◌++◌, length,
  arith, if◌then◌else◌, Bool-cases, uint64_max,
}
use yammer.Dictionary.{Item, Dictionary, same_key, find_item}

module _ (is_equal : ℕ → ℕ → Bool) where
  -- What YMIsEqual has to be for a dictionary with ymtype keys to be a map: with the comparison of
  -- pointers it is an equivalence.
  pub record IsEquivalence (ymtype : Bool) : Type 0 where
    pub reflexive : (a : ℕ) → same_key is_equal ymtype a a ≡ true
    pub symmetric :
        (a b : ℕ) → same_key is_equal ymtype a b ≡ true → same_key is_equal ymtype b a ≡ true
    pub transitive :
        (a b c : ℕ)
        → same_key is_equal ymtype a b ≡ true
        → same_key is_equal ymtype b c ≡ true
        → same_key is_equal ymtype a c ≡ true

  -- The map that a list of items stands for: the first item whose key is the same.
  unfoldable pub lookup_items : Bool → ℕ → List Item → Option ℕ
  lookup_items ymtype key [] = none
  lookup_items ymtype key (i ∷ is) =
      if same_key is_equal ymtype key i.key then some i.value else lookup_items ymtype key is

  abbrev pub lookup : Dictionary → ℕ → Option ℕ
  lookup d key = lookup_items d.ymtype_keys key d.items

  abbrev pub Distinct : Bool → List Item → Type 0
  Distinct ymtype [] = Unit {0}
  Distinct ymtype (i ∷ is) = (lookup_items ymtype i.key is ≡ none) × Distinct ymtype is

  -- The count is right and fits a size_t, and no two keys are the same.
  pub record IsValid (d : Dictionary) : Type 0 where
    pub counted : d.count ≡ length d.items
    pub bounded : d.count ≤ uint64_max
    pub distinct : Distinct d.ymtype_keys d.items

  abbrev pub Found : Bool → ℕ → List Item → List Item → Item → List Item → Type 0
  Found ymtype key items passed i rest =
      (items ≡ passed ++ i ∷ rest)
      × (find_item is_equal ymtype key items ≡ (passed, i ∷ rest))
      × (lookup_items ymtype key items ≡ some i.value)
      × (lookup_items ymtype key passed ≡ none)
      × (same_key is_equal ymtype key i.key ≡ true)

  -- The walk stops at the item that holds the key, or passes every item.
  pub find_item_cases :
      (ymtype : Bool) (key : ℕ) (items : List Item)
      → ((find_item is_equal ymtype key items ≡ (items, []))
          × (lookup_items ymtype key items ≡ none))
        ⊎ ((passed : List Item) × (i : Item) × (rest : List Item) × Found ymtype key items passed i
              rest)
  unfolding find_item lookup_items
  find_item_cases ymtype key [] = inl (refl, refl)
  find_item_cases ymtype key (x ∷ xs) = elim (Bool-cases (same_key is_equal ymtype key x.key)) [
    | inl here ↦ inr ([], x, xs, ground arith)
    | inr past ↦ elim (find_item_cases ymtype key xs) [
      | inl missing ↦ inl (ground arith)
      | inr (passed, i, rest, found) ↦ inr (x ∷ passed, i, rest, ground arith)
    ]
  ]
